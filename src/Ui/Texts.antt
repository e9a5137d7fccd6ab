-- ===== src/Ui/Texts.antt =====
-- The sizes of the texts of src/ui/newTransaction.c, and that no NUL stands in them.
use ledger_nano.Base.{
  ℕ, zero, suc, ◌-◌, ◌/◌, ◌%◌, ◌^◌, ◌≤◌, ◌<◌, List, [], ◌∷◌, ◌++◌, arith, length, take, ltb, ◌==◌,
  if◌then◌else◌, All, All-append, All-take, length-take, inl, inr, Bool-cases,
}
use ledger_nano.Crypto.Address.Text.{IsShown}
use ledger_nano.Ui.Format.{
  decimal, show_int, six_digits, output_display, strip_zeros, amount_display, sky_coins,
}

decimal-IsShown : (fuel n : ℕ) → IsShown (decimal fuel n)
unfolding decimal
decimal-IsShown zero n = tt
decimal-IsShown (suc fuel) n = elim (Bool-cases (ltb n 10)) [
  | inl e ↦ rw e (omega arith, tt)
  | inr e ↦
      rw e
        (All-append _ (decimal fuel (n / 10)) _ (decimal-IsShown fuel (n / 10)) (omega arith, tt))
]

show_int-IsShown : (w : ℕ) → IsShown (show_int w)
unfolding show_int
show_int-IsShown w = elim (Bool-cases (ltb w (2 ^ 31))) [
  | inl e ↦ rw e (decimal-IsShown 10 w)
  | inr e ↦ rw e (omega arith, decimal-IsShown 10 (2 ^ 32 - w))
]

six_digits-IsShown : (n : ℕ) → IsShown (six_digits n)
unfolding six_digits
six_digits-IsShown n =
    (omega arith, (omega arith, (omega arith, (omega arith, (omega arith, (omega arith, tt))))))

strip_zeros-keeps : (P : ℕ → Type 0) (cs : List ℕ) → All P cs → All P (strip_zeros cs)
unfolding strip_zeros
strip_zeros-keeps P [] h = tt
strip_zeros-keeps P (c ∷ cs) h = stripped c (strip_zeros cs) h.0 (strip_zeros-keeps P cs h.1)
  where
    stripped :
        (c : ℕ) (ds : List ℕ)
        → P c
        → All P ds
        → All P (elim ds [ [] ↦ if c == b'0' then [] else c ∷ [] | d ∷ ds' ↦ c ∷ d ∷ ds' ])
    stripped c [] p q = elim (Bool-cases (c == b'0')) [ inl e ↦ rw e tt | inr e ↦ rw e (p, tt) ]
    stripped c (d ∷ ds) p q = (p, q)

length-strip_zeros : (cs : List ℕ) → length (strip_zeros cs) ≤ length cs
unfolding strip_zeros
length-strip_zeros [] = omega arith
length-strip_zeros (c ∷ cs) = stripped c (strip_zeros cs) (length-strip_zeros cs)
  where
    stripped :
        (c : ℕ) (ds : List ℕ)
        → length ds ≤ length cs
        → length (elim ds [ [] ↦ if c == b'0' then [] else c ∷ [] | d ∷ ds' ↦ c ∷ d ∷ ds' ])
          ≤ suc (length cs)
    stripped c [] h = elim (Bool-cases (c == b'0')) [
      | inl e ↦ rw e (omega arith)
      | inr e ↦ rw e (omega arith)
    ]
    stripped c (d ∷ ds) h = omega (arith, h)

pub amount_display-IsShown : (coins : ℕ) → IsShown (amount_display coins)
unfolding amount_display
amount_display-IsShown coins =
    strip_zeros-keeps (λ c. 0 < c) _
      (All-take _ 15 _ (
        All-append _ (show_int (coins / sky_coins % 2 ^ 32)) _
          (show_int-IsShown (coins / sky_coins % 2 ^ 32))
          (omega arith, six_digits-IsShown (coins % sky_coins))))

pub length-amount_display : (coins : ℕ) → length (amount_display coins) ≤ 15
unfolding amount_display
length-amount_display coins = omega (
  arith,
  length-strip_zeros
      (take 15 (show_int (coins / sky_coins % 2 ^ 32) ++ (b'.' ∷ six_digits (coins % sky_coins)))),
  length-take 15 (show_int (coins / sky_coins % 2 ^ 32) ++ (b'.' ∷ six_digits (coins % sky_coins))),
)

pub length-output_display : (curr_obj out_num : ℕ) → length (output_display curr_obj out_num) ≤ 15
unfolding output_display
length-output_display curr_obj out_num =
    omega (arith, length-take 15 (show_int curr_obj ++ (b'/' ∷ show_int out_num)))
