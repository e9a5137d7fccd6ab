-- ===== src/Crypto/Base58/Digits.antt =====
-- What an array of base-58 digits stands for, and how one write changes it.
use native.Mathlib.Decide.{ℕ_discrete}
use native.Mathlib.Numerals.{add-one}
use mathlib.Core.Path.{subst}
use ledger_nano.Base.{
  ℕ, zero, suc, ◌+◌, ◌*◌, ◌≤◌, ◌<◌, ◌≡◌, refl, ap, List, [], ◌∷◌, arith, get_or, set, replicate,
  All, get_or-set_ne,
}

abbrev pub IsDigit : ℕ → Type 0
IsDigit d = d < 58

-- The number that the first `n` cells spell, highest digit first.
unfoldable pub prefix_value : ℕ → List ℕ → ℕ
prefix_value zero b = 0
prefix_value (suc n) b = prefix_value n b * 58 + get_or b n 0

-- The number that a whole list spells, after `acc`.
abbrev pub digits_value : ℕ → List ℕ → ℕ
digits_value acc [] = acc
digits_value acc (d ∷ ds) = digits_value (acc * 58 + d) ds

-- The number that bytes spell, highest first.
abbrev pub be_value : ℕ → List ℕ → ℕ
be_value acc [] = acc
be_value acc (b ∷ bs) = be_value (acc * 256 + b) bs

-- The `k` cells from index `j` on.
abbrev pub cells : List ℕ → ℕ → ℕ → List ℕ
cells b j zero = []
cells b j (suc k) = get_or b j 0 ∷ cells b (j + 1) k

pub prefix_value-suc :
    (n : ℕ) (b : List ℕ) → prefix_value (suc n) b ≡ prefix_value n b * 58 + get_or b n 0
unfolding prefix_value
prefix_value-suc n b = refl

-- A write at or above the end of a prefix leaves its value alone.
pub prefix_value-set :
    (n : ℕ) (b : List ℕ) (j v : ℕ) → n ≤ j → prefix_value n (set b j v) ≡ prefix_value n b
unfolding prefix_value
prefix_value-set zero b j v h = refl
prefix_value-set (suc n) b j v h =
    omega (arith, prefix_value-set n b j v (omega arith), get_or-set_ne b j n v 0 (omega arith))

-- A prefix that is worth nothing has only such prefixes.
pub prefix_value-zero_le :
    (n m : ℕ) (b : List ℕ) → m ≤ n → prefix_value n b ≡ 0 → prefix_value m b ≡ 0
unfolding prefix_value
prefix_value-zero_le zero zero b h e = refl
prefix_value-zero_le zero (suc m) b h e = absurd (omega arith)
prefix_value-zero_le (suc n) zero b h e = refl
prefix_value-zero_le (suc n) (suc m) b h e = elim (ℕ_discrete m n) [
  | yes p ↦ rw p e
  | no p ↦ prefix_value-zero_le n (suc m) b (omega arith) (omega arith)
]

get_or-replicate : (k n : ℕ) → get_or {A = ℕ} (replicate k 0) n 0 ≡ 0
get_or-replicate zero n = refl
get_or-replicate (suc k) zero = refl
get_or-replicate (suc k) (suc n) = get_or-replicate k n

pub prefix_value-replicate : (n k : ℕ) → prefix_value n (replicate k 0) ≡ 0
unfolding prefix_value
prefix_value-replicate zero k = refl
prefix_value-replicate (suc n) k = omega (arith, prefix_value-replicate n k, get_or-replicate k n)

pub prefix_value-add_one :
    (n : ℕ) (b : List ℕ) → prefix_value (n + 1) b ≡ prefix_value n b * 58 + get_or b n 0
unfolding prefix_value
prefix_value-add_one n b = rw add-one

-- A prefix and the cells behind it spell the longer prefix.
pub prefix_value-cells :
    (k j n : ℕ) (b : List ℕ)
    → j + k ≡ n
    → digits_value (prefix_value j b) (cells b j k) ≡ prefix_value n b
prefix_value-cells zero j n b e = let e' : j ≡ n = omega arith in ap (λ t. prefix_value t b) e'
prefix_value-cells (suc k) j n b e =
    subst (λ t. digits_value t (cells b (j + 1) k) ≡ prefix_value n b) (prefix_value-add_one j b)
      (prefix_value-cells k (j + 1) n b (omega arith))

pub All-set : (b : List ℕ) (j v : ℕ) → IsDigit v → All IsDigit b → All IsDigit (set b j v)
All-set [] j v hv h = h
All-set (x ∷ b) zero v hv h = (hv, h.1)
All-set (x ∷ b) (suc j) v hv h = (h.0, All-set b j v hv h.1)

pub All-get_or : (b : List ℕ) (j : ℕ) → All IsDigit b → IsDigit (get_or b j 0)
All-get_or [] j h = omega arith
All-get_or (x ∷ b) zero h = h.0
All-get_or (x ∷ b) (suc j) h = All-get_or b j h.1

pub All-cells : (k j : ℕ) (b : List ℕ) → All IsDigit b → All IsDigit (cells b j k)
All-cells zero j b h = tt
All-cells (suc k) j b h = (All-get_or b j h, All-cells k (j + 1) b h)

pub All-replicate_zero : (k : ℕ) → All IsDigit (replicate k 0)
All-replicate_zero zero = tt
All-replicate_zero (suc k) = (omega arith, All-replicate_zero k)
