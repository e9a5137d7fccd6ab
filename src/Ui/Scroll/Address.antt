-- ===== src/Ui/Scroll/Address.antt =====
-- The address screen: what a call of its preprocessor leaves, and that the next one can go on.
use mathlib.Core.Path.{subst, ap₂}
use ledger_nano.Base.{
  ℕ, zero, suc, ◌+◌, ◌≡◌, refl, sym, ap, ◌∙◌, List, [], ◌++◌, true, false, take, drop, length,
  arith, inl, inr, ne→==, ==_iff, take-append-drop, drop-drop,
}
use ledger_nano.Base.Int.{ℤ, pos, negsuc, ◌+ℤ◌, neg, is_ℤ}
use ledger_nano.Base.Exec.{ok, ◌>>=◌, ◌>>◌}
use ledger_nano.Device.{Device}
use ledger_nano.Ui.Memory.{memory}
use ledger_nano.Ui.Scroll.{
  ui_text, scroll_address, move_on, turn, at_end, ux_callback_set_interval,
  ui_address_scrolling_text_prepro,
}
use ledger_nano.Ui.Scroll.Position.{Position, add_one, sub_one, not_past, past_end}
use ledger_nano.Ui.Scroll.Copying.{OnAddress, Copied, copied, copies_inside}
use ledger_nano.Ui.Scroll.Draw.{HasText, at_end-text, at_end-left, moved, sum}
use ledger_nano.Ui.Scroll.Approving.{next_offset, next_direction, Nat-cases}

-- What a call at this offset shows.
abbrev pub address_window : List ℕ → ℤ → List ℕ
address_window text (pos k) = take 16 (drop k text)
address_window text (negsuc k) = []

module _ {Sha : Type 0} where
  -- The same memory, with the text somewhere else.
  elsewhere :
      (text : List ℕ) (o d : ℤ) (s : Device Sha) (o' d' y x : ℤ) (i : ℕ)
      → OnAddress text o d s
      → y ≡ o'
      → x ≡ d'
      → Position (length text) o' d'
      → OnAddress text o' d' (record s { current_offset = y; direction = x; callback_interval = i })
  unfolding memory
  elsewhere text o d s o' d' y x i v e' e p = record {
    sizes = record {
      words = v.sizes.words;
      address = v.sizes.address;
      address_copy = v.sizes.address_copy;
      line_1 = v.sizes.line_1;
      line_2 = v.sizes.line_2;
      current_output = v.sizes.current_output;
      display = v.sizes.display;
      out_address = v.sizes.out_address;
      amount = v.sizes.amount;
    };
    address = v.address;
    long = v.long;
    fits = v.fits;
    front = v.front;
    offset = e';
    direction = e;
    position = p;
  }

  -- A call that returned.
  pub record Scrolled (text : List ℕ) (o d : ℤ) (s : Device Sha) : Type 0 where
    pub after : Device Sha
    pub returns : ui_address_scrolling_text_prepro (ui_text 0x83 56) s ≡ ok 1 after
    pub shows : HasText 56 (address_window text o) (memory after)
    pub goes_on :
        OnAddress text (next_offset (length text) o d) (next_direction (length text) o d) after

  goes :
      (text : List ℕ) (o d o' : ℤ) (part : List ℕ) (s : Device Sha)
      → Copied text o d part s
      → take 16 part ≡ address_window text o
      → (o +ℤ d) ≡ o'
      → is_ℤ o' (negsuc 0) ≡ false
      → is_ℤ (o' +ℤ pos 16) (pos (length text + 1)) ≡ false
      → next_offset (length text) o d ≡ o'
      → next_direction (length text) o d ≡ d
      → Position (length text) o' d
      → Scrolled text o d s
  unfolding ui_address_scrolling_text_prepro scroll_address move_on turn ux_callback_set_interval
      memory
  goes text o d o' part s c part_shown e left right eo ed p = record {
    after = after;
    returns = rw (
      ◌>>=◌,
      ◌>>◌,
      c.returns,
      at_end-text (moved c.after) 20 text o' c.kept.address there left,
      right,
    );
    shows = subst (λ t. HasText 56 t (memory c.after)) part_shown c.shows;
    goes_on =
        subst (λ x. OnAddress text x (next_direction (length text) o d) after) (sym eo)
          (subst (λ x. OnAddress text o' x after) (sym ed)
            (elsewhere text o d c.after o' d _ c.after.direction 300 c.kept there c.kept.direction
              p));
  }
    where
      there : (c.after.current_offset +ℤ c.after.direction) ≡ o'
      there = sum c.after o d c.kept.offset c.kept.direction ∙ e

      after : Device Sha
      after = record (moved c.after) { callback_interval = 300 }

  turns :
      (text : List ℕ) (o d o' d' : ℤ) (part : List ℕ) (s : Device Sha)
      → (c : Copied text o d part s) → take 16 part ≡ address_window text o
      → (o +ℤ d) ≡ o'
      → at_end 20 (moved c.after) ≡ ok true (moved c.after)
      → next_offset (length text) o d ≡ o'
      → next_direction (length text) o d ≡ d'
      → neg d ≡ d'
      → Position (length text) o' d'
      → Scrolled text o d s
  unfolding ui_address_scrolling_text_prepro scroll_address move_on turn ux_callback_set_interval
      memory
  turns text o d o' d' part s c part_shown e end eo ed back p = record {
    after = after;
    returns = rw (◌>>=◌, ◌>>◌, c.returns, end);
    shows = subst (λ t. HasText 56 t (memory c.after)) part_shown c.shows;
    goes_on =
        subst (λ x. OnAddress text x (next_direction (length text) o d) after) (sym eo)
          (subst (λ x. OnAddress text o' x after) (sym ed)
            (elsewhere text o d c.after o' d' _ _ 1200 c.kept
              (sum c.after o d c.kept.offset c.kept.direction ∙ e)
              (ap (λ x. neg x) c.kept.direction ∙ back) p));
  }
    where
      after : Device Sha
      after = record (moved c.after) { direction = neg c.after.direction; callback_interval = 1200 }

  -- Where an address of 16 to 35 characters is in its array, the byte in front of the array is 0,
  -- the arrays of global have their sizes, and the offset and direction are ones that the
  -- scrolling reaches, a call of the preprocessor for the text element returns 1, leaves at most
  -- sixteen characters of the address from the offset on (none at the offset -1), and the same
  -- state with the next offset and direction, in spite of what it writes behind address_copy.
  pub ui_address_scrolling_text_prepro-Scrolled :
      (text : List ℕ) (o d : ℤ) (s : Device Sha) → OnAddress text o d s → Scrolled text o d s
  unfolding memory
  ui_address_scrolling_text_prepro-Scrolled text o d s v = at_position text o d s v v.position
    where
      at_position :
          (text : List ℕ) (o d : ℤ) (s : Device Sha)
          → OnAddress text o d s
          → Position (length text) o d
          → Scrolled text o d s
      at_position text o d s v Position.blank =
          goes text (negsuc 0) (pos 1) (pos 0) [] s
            (copied text (negsuc 0) (pos 1) 19 [] s v refl
              (record {
                rest = drop 20 (memory s);
                holds =
                    sym (take-append-drop 1 (drop 19 (memory s)))
                    ∙ ap₂ (λ x y. x ++ y) v.front (drop-drop 1 19 (memory s));
                shown = tt;
              })
              (omega arith) (omega arith))
            refl refl refl (not_past 0 (length text) (omega (arith, v.long))) refl refl
            (Position.forth 0 v.long)
      at_position text o d s v (Position.forth k h) = elim (Nat-cases (k + 16) (length text)) [
        | inl e ↦
            (let c = copies_inside text k (pos 1) s v (omega arith) in
              turns text (pos k) (pos 1) (pos (suc k)) (negsuc 0) _ s c refl (add_one k)
                (at_end-text (moved c.after) 20 text (pos (suc k)) c.kept.address
                    (sum c.after (pos k) (pos 1) c.kept.offset c.kept.direction ∙ add_one k)
                    (ne→== (suc k + 1) 0 (omega arith))
                  ∙ ap (λ b. ok b (moved c.after)) (past_end (suc k) (length text) (omega arith)))
                refl (rw ((==_iff (k + 16) (length text)).1 e)) refl
                (Position.back (suc k) (omega arith)))
        | inr ne ↦
            goes text (pos k) (pos 1) (pos (suc k)) _ s
              (copies_inside text k (pos 1) s v (omega arith)) refl (add_one k)
              (ne→== (suc k + 1) 0 (omega arith)) (not_past (suc k) (length text) (omega arith))
              refl (rw (ne→== (k + 16) (length text) ne)) (Position.forth (suc k) (omega arith))
      ]
      at_position text o d s v (Position.back zero h) =
          let c = copies_inside text 0 (negsuc 0) s v (omega arith) in
          turns text (pos 0) (negsuc 0) (negsuc 0) (pos 1) _ s c refl refl
            (at_end-left (moved c.after) 20
              (sum c.after (pos 0) (negsuc 0) c.kept.offset c.kept.direction))
            refl refl refl Position.blank
      at_position text o d s v (Position.back (suc k) h) =
          goes text (pos (suc k)) (negsuc 0) (pos k) _ s
            (copies_inside text (suc k) (negsuc 0) s v (omega arith)) refl (sub_one k)
            (ne→== (k + 1) 0 (omega arith)) (not_past k (length text) (omega arith)) refl refl
            (Position.back k (omega arith))
