-- ===== src/Ui/Scroll/Showing.antt =====
-- What a drawing of the element 0x83 leaves on the screen, and that the next drawing can go on.
use mathlib.Core.Path.{subst}
use mathlib.Core.List.{append_assoc}
use ledger_nano.Base.{
  ℕ, zero, suc, ◌+◌, ◌≤◌, ◌≡◌, refl, sym, ap, ◌∙◌, List, [], ◌∷◌, ◌++◌, false, take, drop, length,
  arith, length-append, length-drop, drop-append, drop-drop, All-take, inl, inr, ne→==, ==_iff,
}
use ledger_nano.Base.Int.{ℤ, pos, negsuc, ◌+ℤ◌, is_ℤ}
use ledger_nano.Base.Exec.{ok, ◌>>=◌, ◌>>◌}
use ledger_nano.Device.{Device}
use ledger_nano.Crypto.Address.Text.{IsShown}
use ledger_nano.Ui.Memory.{memory, store}
use ledger_nano.Ui.Memory.Laws.{patch, length-memory, drop-patch, drop-patch_at}
use ledger_nano.Ui.Scroll.{description_line}
use ledger_nano.Ui.Scroll.Position.{Position, sub_one, add_one, not_past}
use ledger_nano.Ui.Scroll.Draw.{
  HasText, window, drawn, scroll_on-same, scroll_on-right, scroll_on-left,
}
use ledger_nano.Ui.Scroll.Approving.{
  Approving, Windowed, windowed, Kept, write-Kept, next_offset, next_direction, shown_text,
  All-drop, drop_short, take_short, points, head_zero, Nat-cases,
}

-- The bytes of the line behind its fifteenth are not the amount's, or its NUL.
amount_line :
    (amount m : List ℕ)
    → length amount ≤ 15
    → length m ≡ 176
    → take 1 (drop 103 m) ≡ 0 ∷ []
    → take 1 (drop 103 (patch 88 (amount ++ 0 ∷ []) m)) ≡ 0 ∷ []
amount_line amount m short size end = elim (Nat-cases (length amount) 15) [
  | inl e ↦
      ap (λ b. take 1 b)
        (sym (drop-drop 15 88 (patch 88 (amount ++ 0 ∷ []) m))
          ∙ ap (λ b. drop 15 b)
              (drop-patch_at 88 (amount ++ 0 ∷ []) m inside ∙ append_assoc amount (0 ∷ []) _)
          ∙ drop-append 15 amount _ (sym e))
  | inr ne ↦
      ap (λ b. take 1 b)
        (drop-patch 88 (amount ++ 0 ∷ []) m inside 103
          (omega (arith, length-append amount (0 ∷ []))))
      ∙ end
]
  where
    inside : 88 + length (amount ++ 0 ∷ []) ≤ length m
    inside = omega (arith, length-append amount (0 ∷ []))

module _ {Sha : Type 0} where
  -- The same memory, with the text somewhere else.
  pub moved_to :
      (text amount : List ℕ) (o d : ℤ) (s : Device Sha) (o' d' y x : ℤ) (i : ℕ)
      → Approving text amount o d s
      → y ≡ o'
      → x ≡ d'
      → Position (length text) o' d'
      → Approving text amount o' d'
          (record s { current_offset = y; direction = x; callback_interval = i })
  unfolding memory
  moved_to text amount o d s o' d' y x i v e' e p = record {
    sizes = record {
      words = v.sizes.words;
      address = v.sizes.address;
      address_copy = v.sizes.address_copy;
      line_1 = v.sizes.line_1;
      line_2 = v.sizes.line_2;
      current_output = v.sizes.current_output;
      display = v.sizes.display;
      out_address = v.sizes.out_address;
      amount = v.sizes.amount;
    };
    approves = v.approves;
    address = v.address;
    long = v.long;
    fits = v.fits;
    coins = v.coins;
    coins_fit = v.coins_fit;
    line_end = v.line_end;
    display_end = v.display_end;
    offset = e';
    direction = e;
    position = p;
  }

  -- A drawing that returned.
  pub record Shown (text amount : List ℕ) (o d : ℤ) (s : Device Sha) : Type 0 where
    pub after : Device Sha
    pub returns : description_line 88 s ≡ ok tt after
    pub shows : HasText 88 (shown_text text amount o d) (memory after)
    pub goes_on :
        Approving text amount
          (next_offset (length text) o d)
          (next_direction (length text) o d)
          after

  -- The window of the address itself.
  window-text :
      (text amount : List ℕ) (o d : ℤ) (k : ℕ) (s : Device Sha)
      → Approving text amount o d s
      → k + 15 ≤ length text
      → window (124 + k) s ≡ take 15 (drop k text)
  window-text text amount o d k s v h =
      ap (λ m. take 15 m)
        (sym (drop-drop k 124 (memory s))
          ∙ ap (λ m. drop k m) v.address.holds
          ∙ drop_short k text (0 ∷ v.address.rest) (omega arith))
      ∙ take_short 15 (drop k text) (0 ∷ v.address.rest) (omega (arith, length-drop k text))

  line_shown :
      (text amount : List ℕ) (o d : ℤ) (from : ℕ) (s : Device Sha) (part : List ℕ)
      → Windowed text amount o d from s
      → window from s ≡ part
      → IsShown part
      → HasText 88 part (memory (drawn from s))
  line_shown text amount o d from s part w e shown = record {
    rest = drop 104 (memory (drawn from s));
    holds = w.line ∙ ap (λ b. b ++ (0 ∷ drop 104 (memory (drawn from s)))) e;
    shown = shown;
  }

  -- The text goes on in its direction.
  same_way :
      (text amount : List ℕ) (o d o' : ℤ) (from : ℕ) (s : Device Sha)
      → Windowed text amount o d from s
      → (o +ℤ d) ≡ o'
      → is_ℤ o' (negsuc 0) ≡ false
      → is_ℤ (o' +ℤ pos 16) (pos (length text + 1)) ≡ false
      → next_offset (length text) o d ≡ o'
      → next_direction (length text) o d ≡ d
      → Position (length text) o' d
      → HasText 88 (shown_text text amount o d) (memory (drawn from s))
      → Shown text amount o d s
  unfolding description_line memory
  same_way text amount o d o' from s w sum left right eo ed p h = record {
    after = after;
    returns =
        rw (◌>>=◌, ◌>>◌, w.drawing.returns)
          (scroll_on-same (drawn from s) text o d o' w.kept.address w.kept.offset w.kept.direction
            sum left right);
    shows = h;
    goes_on =
        subst (λ x. Approving text amount x (next_direction (length text) o d) after) (sym eo)
          (subst (λ x. Approving text amount o' x after) (sym ed)
            (moved_to text amount o d (drawn from s) o' d o' (drawn from s).direction 300 w.kept
              refl w.kept.direction p));
  }
    where
      after : Device Sha
      after = record (drawn from s) { current_offset = o'; callback_interval = 300 }

  -- The amount in place of the address.
  abbrev with_amount : List ℕ → Device Sha → Device Sha
  with_amount amount s = store (patch 88 (amount ++ 0 ∷ []) (memory s)) s

  paid :
      (text amount : List ℕ) (o d : ℤ) (s : Device Sha)
      → Approving text amount o d s
      → Kept text amount o d 88 (amount ++ 0 ∷ []) s
  paid text amount o d s v =
      write-Kept text amount o d 88 (amount ++ 0 ∷ []) s v (omega arith)
        (omega (arith, length-append amount (0 ∷ []), v.coins_fit))
        (amount_line amount (memory s) v.coins_fit (length-memory s v.sizes) v.line_end)

  paid_line :
      (text amount : List ℕ) (o d : ℤ) (s : Device Sha)
      → Approving text amount o d s
      → HasText 88 amount (memory (with_amount amount s))
  paid_line text amount o d s v = record {
    rest = drop (88 + length (amount ++ 0 ∷ [])) (memory s);
    holds =
        ap (λ m. drop 88 m) (paid text amount o d s v).written.bytes
        ∙ drop-patch_at 88 (amount ++ 0 ∷ []) (memory s)
            (omega (arith, length-append amount (0 ∷ []), v.coins_fit, length-memory s v.sizes))
        ∙ append_assoc amount (0 ∷ []) _;
    shown = v.coins.shown;
  }

  right_end :
      (text amount : List ℕ) (k : ℕ) (s : Device Sha)
      → Approving text amount (pos k) (pos 1) s
      → Windowed text amount (pos k) (pos 1) (124 + k) s
      → k + 16 ≡ length text
      → Shown text amount (pos k) (pos 1) s
  unfolding description_line memory
  right_end text amount k s v w end = record {
    after = after;
    returns =
        rw (◌>>=◌, ◌>>◌, w.drawing.returns)
          (scroll_on-right (drawn (124 + k) s) text k w.kept.address w.kept.offset w.kept.direction
            end);
    shows =
        line_shown text amount (pos k) (pos 1) (124 + k) s _ w
          (window-text text amount (pos k) (pos 1) k s v (omega arith))
          (All-take _ 15 (drop k text) (All-drop _ k text v.address.shown));
    goes_on = rw ((==_iff (k + 16) (length text)).1 end) (
        moved_to text amount (pos k) (pos 1) (drawn (124 + k) s) (pos (suc k)) (negsuc 0)
          (pos (suc k)) (negsuc 0) 1200 w.kept refl refl (Position.back (suc k) (omega arith)));
  }
    where
      after : Device Sha
      after = record (drawn (124 + k) s) {
        current_offset = pos (suc k);
        direction = negsuc 0;
        callback_interval = 1200;
      }

  left_end :
      (text amount : List ℕ) (s : Device Sha)
      → Windowed text amount (pos 0) (negsuc 0) 124 s
      → Shown text amount (pos 0) (negsuc 0) s
  unfolding description_line memory
  left_end text amount s w = record {
    after = after;
    returns =
        rw (◌>>=◌, ◌>>◌, w.drawing.returns)
          (scroll_on-left (drawn 124 s) amount w.kept.sizes w.kept.coins w.kept.coins_fit
            w.kept.offset w.kept.direction);
    shows = paid_line text amount (pos 0) (negsuc 0) (drawn 124 s) w.kept;
    goes_on =
        moved_to text amount (pos 0) (negsuc 0) (with_amount amount (drawn 124 s)) (negsuc 0)
          (pos 1) (negsuc 0) (pos 1) 3600 p.kept refl refl Position.blank;
  }
    where
      p : Kept text amount (pos 0) (negsuc 0) 88 (amount ++ 0 ∷ []) (drawn 124 s)
      p = paid text amount (pos 0) (negsuc 0) (drawn 124 s) w.kept

      after : Device Sha
      after = record (with_amount amount (drawn 124 s)) {
        current_offset = negsuc 0;
        direction = pos 1;
        callback_interval = 3600;
      }

  pub description_line-Shown :
      (text amount : List ℕ) (o d : ℤ) (s : Device Sha)
      → Approving text amount o d s
      → Position (length text) o d
      → Shown text amount o d s
  description_line-Shown text amount o d s v Position.blank =
      same_way text amount (negsuc 0) (pos 1) (pos 0) 123 s w refl refl
        (not_past 0 (length text) (omega (arith, v.long))) refl refl (Position.forth 0 v.long)
        (let (rest, e) = head_zero (drop 123 (memory s)) v.display_end in
          record {
            rest = rest ++ (0 ∷ drop 104 (memory (drawn 123 s)));
            holds = w.line ∙ ap (λ b. b ++ (0 ∷ drop 104 (memory (drawn 123 s)))) e;
            shown = tt;
          })
    where
      w : Windowed text amount (negsuc 0) (pos 1) 123 s
      w = windowed text amount (negsuc 0) (pos 1) 123 s v refl (omega arith)
  description_line-Shown text amount o d s v (Position.forth k h) =
      elim (Nat-cases (k + 16) (length text)) [
        | inl e ↦ right_end text amount k s v w e
        | inr ne ↦
            same_way text amount (pos k) (pos 1) (pos (suc k)) (124 + k) s w (add_one k)
              (ne→== (suc k + 1) 0 (omega arith)) (not_past (suc k) (length text) (omega arith))
              refl (rw (ne→== (k + 16) (length text) ne)) (Position.forth (suc k) (omega arith))
              (line_shown text amount (pos k) (pos 1) (124 + k) s _ w
                (window-text text amount (pos k) (pos 1) k s v (omega arith))
                (All-take _ 15 (drop k text) (All-drop _ k text v.address.shown)))
      ]
    where
      w : Windowed text amount (pos k) (pos 1) (124 + k) s
      w = windowed text amount (pos k) (pos 1) (124 + k) s v (points k) (omega (arith, v.fits))
  description_line-Shown text amount o d s v (Position.back zero h) =
      left_end text amount s (windowed text amount (pos 0) (negsuc 0) 124 s v refl (omega arith))
  description_line-Shown text amount o d s v (Position.back (suc k) h) =
      same_way text amount (pos (suc k)) (negsuc 0) (pos k) (124 + suc k) s w (sub_one k)
        (ne→== (k + 1) 0 (omega arith)) (not_past k (length text) (omega arith)) refl refl
        (Position.back k (omega arith))
        (line_shown text amount (pos (suc k)) (negsuc 0) (124 + suc k) s _ w
          (window-text text amount (pos (suc k)) (negsuc 0) (suc k) s v h)
          (All-take _ 15 (drop (suc k) text) (All-drop _ (suc k) text v.address.shown)))
    where
      w : Windowed text amount (pos (suc k)) (negsuc 0) (124 + suc k) s
      w =
          windowed text amount (pos (suc k)) (negsuc 0) (124 + suc k) s v (points (suc k))
            (omega (arith, v.fits))
