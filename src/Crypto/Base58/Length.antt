-- ===== src/Crypto/Base58/Length.antt =====
-- A base-58 numeral has no fewer digits than the number has bytes.
use ledger_nano.Base.{
  ℕ, ◌+◌, ◌*◌, ◌≤◌, ◌<◌, ◌≡◌, ap, ◌∙◌, List, [], ◌∷◌, Option, arith, All, length, length-append,
  length-replicate, replicate, Bool-cases, leb, leb→le, leb→lt, inl, inr,
}
use ledger_nano.Crypto.Base58.Digits.{IsDigit, digits_value, be_value}
use ledger_nano.Crypto.Base58.Trim.{Leads}
use ledger_nano.Crypto.Base58.Encode.{IsNumeral, be_value-replicate}

be_value_grows : (acc : ℕ) (bs : List ℕ) → acc ≤ be_value acc bs
be_value_grows acc [] = omega arith
be_value_grows acc (b ∷ bs) = omega (arith, be_value_grows (acc * 256 + b) bs)

-- Digits behind a smaller number, and no more of them than bytes, spell a smaller number.
digits_value_below :
    (a b : ℕ) (ds bs : List ℕ)
    → All IsDigit ds
    → a < b
    → length ds ≤ length bs
    → digits_value a ds < be_value b bs
digits_value_below a b [] bs h less short = omega (arith, be_value_grows b bs)
digits_value_below a b (d ∷ ds) [] h less short = absurd (omega arith)
digits_value_below a b (d ∷ ds) (c ∷ bs) h less short =
    digits_value_below (a * 58 + d) (b * 256 + c) ds bs h.1 (omega (arith, h.0)) (omega arith)

rest_length :
    (rest ds : List ℕ)
    → Leads rest
    → All IsDigit ds
    → digits_value 0 ds ≡ be_value 0 rest
    → length rest ≤ length ds
rest_length [] ds lead h same = omega arith
rest_length (c ∷ rest) ds lead h same = elim (Bool-cases (leb (length ds) (length rest))) [
  | inl short ↦
      (let less : digits_value 0 ds < be_value (0 * 256 + c) rest =
          digits_value_below 0 (0 * 256 + c) ds rest h (omega (arith, lead)) (leb→le _ _ short) in
        let equal : digits_value 0 ds ≡ be_value (0 * 256 + c) rest = same in
        absurd (omega (arith, less, equal)))
  | inr long ↦ omega (arith, leb→lt _ _ long)
]

pub IsNumeral-length :
    (bytes : List ℕ) (text : Option (List ℕ)) (n : IsNumeral bytes text)
    → length bytes ≤ n.zeroes + length n.digits
IsNumeral-length bytes text n = omega (
  arith,
  ap (λ b. length b) n.parts,
  length-append (replicate n.zeroes 0) n.rest,
  length-replicate {A = ℕ} n.zeroes 0,
  rest_length n.rest n.digits n.rest_leads n.in_base
      (n.value ∙ ap (λ b. be_value 0 b) n.parts ∙ be_value-replicate n.zeroes 0 n.rest),
)
