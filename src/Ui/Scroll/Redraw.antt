-- ===== src/Ui/Scroll/Redraw.antt =====
-- The approval screen drawn again and again: what each redrawing shows, that the next one can go
-- on, and that the amount comes up.
use ledger_nano.Base.{ℕ, zero, suc, ◌≡◌, refl, ap, List, [], ◌∷◌, length, ◌==◌, false}
use ledger_nano.Base.Int.{ℤ}
use ledger_nano.Base.Exec.{Exec, pure, ok, ◌>>=◌, ◌>>◌}
use ledger_nano.Device.{Device, state_code}
use ledger_nano.Ui.Memory.{memory}
use ledger_nano.Ui.Scroll.{
  Element, ui_background, ui_icon, ui_text, transaction_elements, transaction_screen_prepro,
}
use ledger_nano.Ui.Scroll.Draw.{HasText}
use ledger_nano.Ui.Scroll.Approving.{Approving, next_offset, next_direction, shown_text}
use ledger_nano.Ui.Scroll.Showing.{description_line-Shown}
use ledger_nano.Ui.Scroll.Frame.{label, info_line-Informed}

module _ {Sha : Type 0} where
  -- The preprocessor, for each element in turn.
  unfoldable pub draw_elements : List Element → Exec (Device Sha) (Unit {0})
  draw_elements [] = pure tt
  draw_elements (e ∷ es) = do drawn ← transaction_screen_prepro e; draw_elements es

  unfoldable pub redraw : ℕ → Exec (Device Sha) (Unit {0})
  unfolding draw_elements
  redraw zero = pure tt
  redraw (suc n) = do draw_elements transaction_elements; redraw n

  -- The elements that no branch is about.
  other_element :
      (text amount : List ℕ) (o d : ℤ) (s : Device Sha) (e : Element)
      → Approving text amount o d s
      → (e.userid == 0x80) ≡ false
      → (e.userid == 0x83) ≡ false
      → transaction_screen_prepro e s ≡ ok 1 s
  unfolding transaction_screen_prepro
  other_element text amount o d s e v h h' = rw (◌>>=◌, ◌>>◌, ap state_code v.approves, h, h')

  line_element :
      (text amount : List ℕ) (o d : ℤ) (s : Device Sha) (v : Approving text amount o d s)
      → transaction_screen_prepro (ui_text 0x83 88) s
        ≡ ok 1 (description_line-Shown text amount o d s v v.position).after
  unfolding transaction_screen_prepro
  line_element text amount o d s v = rw (
    ◌>>=◌,
    ◌>>◌,
    ap state_code v.approves,
    (description_line-Shown text amount o d s v v.position).returns,
  )

  info_element :
      (text amount : List ℕ) (o d : ℤ) (line : List ℕ) (s : Device Sha)
      (v : Approving text amount o d s) (h : HasText 88 line (memory s))
      → transaction_screen_prepro (ui_text 0x80 72) s
        ≡ ok 1 (info_line-Informed text amount o d line s v h).after
  unfolding transaction_screen_prepro
  info_element text amount o d line s v h = rw (
    ◌>>=◌,
    ◌>>◌,
    ap state_code v.approves,
    (info_line-Informed text amount o d line s v h).returns,
  )

  -- A redrawing: the label and the line that it leaves.
  pub record Redrawn (text amount : List ℕ) (o d : ℤ) (s : Device Sha) : Type 0 where
    pub after : Device Sha
    pub returns : draw_elements transaction_elements s ≡ ok tt after
    pub first : HasText 72 (label (next_offset (length text) o d)) (memory after)
    pub second : HasText 88 (shown_text text amount o d) (memory after)
    pub goes_on :
        Approving text amount
          (next_offset (length text) o d)
          (next_direction (length text) o d)
          after

  -- Where an output is being approved (the arrays of global have their sizes, the address has 16
  -- to 35 characters and the amount at most 15, the lines and the display end in NUL, and the
  -- offset and direction are ones that the scrolling reaches), calling the preprocessor for each
  -- element of the screen returns, leaves the fifteen characters of the address at the offset
  -- under "Address:" (at the left end on the way back the amount under "SKY:", and then nothing
  -- for one drawing), and the same state with the next offset and direction: the text never stands
  -- outside the address.
  pub draw_elements-Redrawn :
      (text amount : List ℕ) (o d : ℤ) (s : Device Sha)
      → Approving text amount o d s
      → Redrawn text amount o d s
  unfolding draw_elements
  draw_elements-Redrawn text amount o d s v =
      let line = description_line-Shown text amount o d s v v.position in
      let info =
        info_line-Informed text amount _ _ (shown_text text amount o d) line.after line.goes_on
          line.shows in
      record {
        after = info.after;
        returns = rw (
          ◌>>=◌,
          ◌>>◌,
          other_element text amount o d s ui_background v refl refl,
          other_element text amount o d s (ui_icon 0x01) v refl refl,
          other_element text amount o d s (ui_icon 0x02) v refl refl,
          other_element text amount o d s (ui_text 0x11 108) v refl refl,
          line_element text amount o d s v,
          info_element text amount _ _ (shown_text text amount o d) line.after line.goes_on
              line.shows,
        );
        first = info.first;
        second = info.second;
        goes_on = info.kept;
      }
