-- ===== src/Ui/Scroll/Amount.antt =====
-- The amount comes up: the address scrolls to its end and back, and then the amount is shown.
use mathlib.Core.Path.{subst, ap₂}
use ledger_nano.Base.{
  ℕ, zero, suc, ◌+◌, ◌-◌, ◌*◌, ◌≤◌, ◌≡◌, refl, sym, ◌∙◌, List, arith, ◌⊎◌, inl, inr, length, ne→==,
  ==_iff,
}
use ledger_nano.Base.Int.{ℤ, pos, negsuc}
use ledger_nano.Base.Exec.{ok, ◌>>=◌, ◌>>◌}
use ledger_nano.Device.{Device}
use ledger_nano.Ui.Memory.{memory}
use ledger_nano.Ui.Scroll.Position.{Position}
use ledger_nano.Ui.Scroll.Draw.{HasText}
use ledger_nano.Ui.Scroll.Approving.{Approving, next_offset, next_direction, shown_text, Nat-cases}
use ledger_nano.Ui.Scroll.Frame.{label}
use ledger_nano.Ui.Scroll.Redraw.{redraw, draw_elements-Redrawn}

-- The redrawings until the amount is on the screen, for an address of `n` characters.
abbrev pub rounds : ℕ → ℤ → ℤ → ℕ
rounds n (negsuc k) d = 2 * n - 28
rounds n (pos k) (pos j) = 2 * n - 29 - k
rounds n (pos k) (negsuc j) = suc k

rounds-next :
    (n : ℕ) {o d : ℤ}
    → 16 ≤ n
    → Position n o d
    → ((o ≡ pos 0) × (d ≡ negsuc 0))
      ⊎ (rounds n o d ≡ suc (rounds n (next_offset n o d) (next_direction n o d)))
rounds-next n long Position.blank = inr (omega arith)
rounds-next n long (Position.forth k h) = elim (Nat-cases (k + 16) n) [
  | inl e ↦ inr (rw ((==_iff (k + 16) n).1 e) (omega arith))
  | inr ne ↦ inr (rw (ne→== (k + 16) n ne) (omega arith))
]
rounds-next n long (Position.back zero h) = inl (refl, refl)
rounds-next n long (Position.back (suc k) h) = inr (omega arith)

rounds_most : (n : ℕ) {o d : ℤ} → 16 ≤ n → Position n o d → rounds n o d + 28 ≤ 2 * n
rounds_most n long Position.blank = omega arith
rounds_most n long (Position.forth k h) = omega arith
rounds_most n long (Position.back k h) = omega arith

module _ {Sha : Type 0} where
  -- The amount is on the screen, under its label.
  pub record ShowsAmount (amount : List ℕ) (k : ℕ) (s : Device Sha) : Type 0 where
    pub after : Device Sha
    pub returns : redraw k s ≡ ok tt after
    pub first : HasText 72 (label (negsuc 0)) (memory after)
    pub second : HasText 88 amount (memory after)

  at_left :
      (text amount : List ℕ) (o d : ℤ) (s : Device Sha)
      → Approving text amount o d s
      → o ≡ pos 0
      → d ≡ negsuc 0
      → ShowsAmount amount 1 s
  unfolding redraw
  at_left text amount o d s v eo ed =
      let r = draw_elements-Redrawn text amount o d s v in
      record {
        after = r.after;
        returns = rw (◌>>=◌, ◌>>◌, r.returns);
        first =
            subst (λ x. HasText 72 (label x) (memory r.after))
              (ap₂ (λ x y. next_offset (length text) x y) eo ed) r.first;
        second =
            subst (λ x. HasText 88 x (memory r.after))
              (ap₂ (λ x y. shown_text text amount x y) eo ed) r.second;
      }

  in_rounds :
      (k : ℕ) (text amount : List ℕ) (o d : ℤ) (s : Device Sha)
      → Approving text amount o d s
      → rounds (length text) o d ≡ k
      → ShowsAmount amount k s
  unfolding redraw
  in_rounds zero text amount o d s v left = elim (rounds-next (length text) v.long v.position) [
    | inl (eo, ed) ↦ absurd (omega (arith, left, ap₂ (λ x y. rounds (length text) x y) eo ed))
    | inr e ↦ absurd (omega (arith, e, left))
  ]
  in_rounds (suc k) text amount o d s v left = elim (rounds-next (length text) v.long v.position) [
    | inl (eo, ed) ↦
        subst (λ (n : ℕ). ShowsAmount amount n s)
          (sym (ap₂ (λ x y. rounds (length text) x y) eo ed) ∙ left)
          (at_left text amount o d s v eo ed)
    | inr e ↦
        (let r = draw_elements-Redrawn text amount o d s v in
          let rest = in_rounds k text amount _ _ r.after r.goes_on (omega (arith, e, left)) in
          record {
            after = rest.after;
            returns = rw (◌>>=◌, ◌>>◌, r.returns) rest.returns;
            first = rest.first;
            second = rest.second;
          })
  ]

  -- In the state of such an approval, wherever the text stands, redrawing the screen some number
  -- of times, at most twice the number of characters less 28, returns with the amount on the
  -- second line under "SKY:".
  pub redraw-ShowsAmount :
      (text amount : List ℕ) (o d : ℤ) (s : Device Sha)
      → Approving text amount o d s
      → (k : ℕ) × (k + 28 ≤ 2 * length text) × ShowsAmount amount k s
  redraw-ShowsAmount text amount o d s v = (
    rounds (length text) o d,
    rounds_most (length text) v.long v.position,
    in_rounds _ text amount o d s v refl,
  )
