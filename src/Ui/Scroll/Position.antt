-- ===== src/Ui/Scroll/Position.antt =====
-- Where a scrolling text may stand, and the arithmetic of its moves.
use ledger_nano.Base.{
  ℕ, suc, ◌+◌, ◌≤◌, ◌≡◌, ap, arith, true, false, le→leb, ne→==, ==_iff, ◌≢◌, ◌∙◌,
}
use ledger_nano.Base.Int.{ℤ, pos, negsuc, ◌+ℤ◌, is_ℤ}

-- A text of `n` characters, of which the screen has 15: the offset and the direction. `blank` comes
-- behind the turn at the left end.
pub data Position (n : ℕ) : ℤ → ℤ → Type 0 where
  blank : Position n (negsuc 0) (pos 1)
  forth : (k : ℕ) → k + 16 ≤ n → Position n (pos k) (pos 1)
  back : (k : ℕ) → k + 15 ≤ n → Position n (pos k) (negsuc 0)

pub add_one : (k : ℕ) → (pos k +ℤ pos 1) ≡ pos (suc k)
add_one k = rw (le→leb 0 (k + 1) (omega arith)) (ap (λ i. pos i) (omega arith))

pub sub_one : (k : ℕ) → (pos (suc k) +ℤ negsuc 0) ≡ pos k
sub_one k = rw (le→leb 1 (suc k + 0) (omega arith)) (ap (λ i. pos i) (omega arith))

add_sixteen : (k : ℕ) → (pos k +ℤ pos 16) ≡ pos (k + 16)
add_sixteen k = rw (le→leb 0 (k + 16) (omega arith)) (ap (λ i. pos i) (omega arith))

pub past_end : (k n : ℕ) → k + 15 ≡ n → is_ℤ (pos k +ℤ pos 16) (pos (n + 1)) ≡ true
past_end k n h =
    ap (λ i. is_ℤ i (pos (n + 1))) (add_sixteen k)
    ∙ (==_iff (k + 16 + 0) (n + 1 + 0)).1 (omega arith)

pub not_past : (k n : ℕ) → k + 15 ≢ n → is_ℤ (pos k +ℤ pos 16) (pos (n + 1)) ≡ false
not_past k n h =
    ap (λ i. is_ℤ i (pos (n + 1))) (add_sixteen k)
    ∙ ne→== (k + 16 + 0) (n + 1 + 0) (λ e. h (omega arith))
