-- ===== src/Crypto/Base58/Trim.antt =====
-- The loops around the byte loop: leading zero bytes, leading zero digits, letters.
use mathlib.Core.Path.{ap₂}
use ledger_nano.Base.{
  ==_iff, ℕ, zero, suc, ◌+◌, ◌≤◌, ◌<◌, ◌≡◌, refl, ap, ◌∙◌, ◌≢◌, inl, inr, List, [], ◌∷◌, ◌++◌, map,
  Option, some, true, false, arith, ◌==◌, length, get_or, replicate, All, get_elem?-eq-get_or,
  Bool-cases,
}
use ledger_nano.Base.Partial.{◌>>=◌}
use ledger_nano.Crypto.Base58.{base_58_alphabet, skip_zeroes, skip_digits, emit}
use ledger_nano.Crypto.Base58.Digits.{
  IsDigit, prefix_value, cells, prefix_value-add_one, All-get_or,
}

-- What the last two loops leave: the cells from the first nonzero one on.
pub record IsTrimmed (size j : ℕ) (b : List ℕ) (result : Option ℕ) : Type 0 where
  pub start : ℕ
  pub returns : result ≡ some start
  pub low : j ≤ start
  pub high : start ≤ size
  pub nothing : prefix_value start b ≡ 0
  pub first : (start < size) → get_or b start 0 ≢ 0

skip_digits_more :
    (left j : ℕ) (b : List ℕ)
    → j < length b
    → (get_or b j 0 == 0) ≡ true
    → skip_digits (suc left) j b ≡ skip_digits left (j + 1) b
unfolding skip_digits
skip_digits_more left j b h e = rw (get_elem?-eq-get_or b j 0 h, ◌>>=◌, e)

skip_digits_stop :
    (left j : ℕ) (b : List ℕ)
    → j < length b
    → (get_or b j 0 == 0) ≡ false
    → skip_digits (suc left) j b ≡ some j
unfolding skip_digits
skip_digits_stop left j b h e = rw (get_elem?-eq-get_or b j 0 h, ◌>>=◌, e)

pub skip_digits-IsTrimmed :
    (left j size : ℕ) (b : List ℕ)
    → j + left ≡ size
    → size ≤ length b
    → prefix_value j b ≡ 0
    → IsTrimmed size j b (skip_digits left j b)
skip_digits-IsTrimmed zero j size b e h z = record {
  start = j;
  returns = unfold skip_digits in refl;
  low = omega arith;
  high = omega arith;
  nothing = z;
  first = λ lt. absurd (omega arith);
}
skip_digits-IsTrimmed (suc left) j size b e h z = elim (Bool-cases (get_or b j 0 == 0)) [
  | inl zero_digit ↦
      let rest =
        skip_digits-IsTrimmed left (j + 1) size b (omega arith) h
          (omega (arith, prefix_value-add_one j b, (==_iff (get_or b j 0) 0).0 zero_digit)) in
      rw (skip_digits_more left j b (omega arith) zero_digit) record {
        start = rest.start;
        returns = rest.returns;
        low = omega (arith, rest.low);
        high = rest.high;
        nothing = rest.nothing;
        first = rest.first;
      }
  | inr other ↦ rw (skip_digits_stop left j b (omega arith) other) record {
    start = j;
    returns = refl;
    low = omega arith;
    high = omega arith;
    nothing = z;
    first = λ lt eq. ground arith;
  }
]

abbrev pub letter : ℕ → ℕ
letter d = get_or base_58_alphabet d 0

pub emit-cells :
    (left j : ℕ) (b : List ℕ)
    → j + left ≤ length b
    → All IsDigit b
    → emit left j b ≡ some (map letter (cells b j left))
unfolding emit
emit-cells zero j b h d = refl
emit-cells (suc left) j b h d = rw (
  get_elem?-eq-get_or b j 0 (omega arith),
  get_elem?-eq-get_or base_58_alphabet (get_or b j 0) 0 (All-get_or b j d),
  emit-cells left (j + 1) b (omega arith) d,
)

-- A numeral with no leading zero.
abbrev pub Leads : List ℕ → Type 0
Leads [] = Unit
Leads (d ∷ ds) = d ≢ 0

pub record IsSkipped (n : ℕ) (bs : List ℕ) (result : ℕ × List ℕ) : Type 0 where
  pub zeroes : ℕ
  pub rest : List ℕ
  pub returns : result ≡ (n + zeroes, rest)
  pub parts : bs ≡ replicate zeroes 0 ++ rest
  pub leads : Leads rest

pub skip_zeroes-IsSkipped : (n : ℕ) (bs : List ℕ) → IsSkipped n bs (skip_zeroes n bs)
unfolding skip_zeroes
skip_zeroes-IsSkipped n [] = record {
  zeroes = 0;
  rest = [];
  returns = ap (λ (k : ℕ). (k, [])) (omega arith);
  parts = refl;
  leads = tt;
}
skip_zeroes-IsSkipped n (b ∷ bs) = elim (Bool-cases (b == 0)) [
  | inl zero_byte ↦
      let more = skip_zeroes-IsSkipped (n + 1) bs in
      rw (skip_zeroes, zero_byte)
        record {
          zeroes = suc more.zeroes;
          rest = more.rest;
          returns = more.returns ∙ ap (λ (k : ℕ). (k, more.rest)) (omega arith);
          parts = ap₂ ◌∷◌ ((==_iff b 0).0 zero_byte) more.parts;
          leads = more.leads;
        }
  | inr other ↦
      rw (skip_zeroes, other)
        record {
          zeroes = 0;
          rest = b ∷ bs;
          returns = ap (λ (k : ℕ). (k, b ∷ bs)) (omega arith);
          parts = refl;
          leads = λ e. ground arith;
        }
]
