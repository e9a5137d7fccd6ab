-- ===== src/Crypto/Base58/Decode.antt =====
-- The host's reader of an address, `base58decode` of scripts/generating_txn.py, on what the device
-- writes.
use mathlib.Core.Path.{ap₂}
use ledger_nano.Base.{
  ℕ, zero, suc, ◌+◌, ◌*◌, ◌≤◌, ◌≡◌, refl, sym, ap, ◌∙◌, List, [], ◌∷◌, ◌++◌, map, Option, none,
  some, Bool, true, false, arith, ◌==◌, ==_iff, length, replicate, All, IsByte, all_below,
  all_below_sound,
}
use ledger_nano.Base.Partial.{◌>>=◌}
use ledger_nano.Crypto.Base58.{base_58_alphabet, encode_base_58}
use ledger_nano.Crypto.Base58.Digits.{IsDigit, digits_value, be_value}
use ledger_nano.Crypto.Base58.Trim.{letter}
use ledger_nano.Crypto.Base58.Encode.{encode_base_58-IsNumeral}

-- `b58.index(c)`; `none` is Python's ValueError.
pub index_of : ℕ → List ℕ → Option ℕ
index_of c [] = none
index_of c (x ∷ xs) = elim (x == c) [ true ↦ some 0 | false ↦ do i ← index_of c xs; some (i + 1) ]

pub decode_from : ℕ → List ℕ → Option ℕ
decode_from result [] = some result
decode_from result (c ∷ cs) = do i ← index_of c base_58_alphabet; decode_from (result * 58 + i) cs

pub base58decode : List ℕ → Option ℕ
base58decode s = decode_from 0 s

abbrev is_index : Option ℕ → ℕ → Bool
is_index none d = false
is_index (some i) d = i == d

is_index→eq : (o : Option ℕ) (d : ℕ) → is_index o d ≡ true → o ≡ some d
is_index→eq none d h = cc
is_index→eq (some i) d h = ap some ((==_iff i d).0 h)

letters_table : all_below (λ d. is_index (index_of (letter d) base_58_alphabet) d) 58 ≡ true
unfolding all_below index_of
letters_table = refl

-- Every letter of the alphabet stands in it once.
index_of-letter : (d : ℕ) → IsDigit d → index_of (letter d) base_58_alphabet ≡ some d
index_of-letter d h = is_index→eq _ d (all_below_sound _ 58 d h letters_table)

decode_from-letters :
    (ds : List ℕ) (acc : ℕ)
    → All IsDigit ds
    → decode_from acc (map letter ds) ≡ some (digits_value acc ds)
unfolding decode_from
decode_from-letters [] acc h = refl
decode_from-letters (d ∷ ds) acc h =
    rw (index_of-letter d h.0) (decode_from-letters ds (acc * 58 + d) h.1)

decode_from-ones : (n : ℕ) (cs : List ℕ) → decode_from 0 (replicate n b'1' ++ cs) ≡ decode_from 0 cs
unfolding decode_from
decode_from-ones zero cs = refl
decode_from-ones (suc n) cs = rw (index_of-letter 0 (omega arith)) (decode_from-ones n cs)

-- base58decode of scripts/generating_txn.py reads back, from the text of at most 25 bytes, their
-- big-endian number.
pub base58decode-encode_base_58 :
    (bytes : List ℕ)
    → All IsByte bytes
    → length bytes ≤ 25
    → (encode_base_58 bytes >>= base58decode) ≡ some (be_value 0 bytes)
unfolding base58decode
base58decode-encode_base_58 bytes h short =
    let n = encode_base_58-IsNumeral bytes h short in
    rw
      (
        n.spelt,
        decode_from-ones n.zeroes (map letter n.digits),
        decode_from-letters n.digits 0 n.in_base,
      )
      (ap some n.value)

be_value_injective :
    (xs ys : List ℕ) (a b : ℕ)
    → length xs ≡ length ys
    → All IsByte xs
    → All IsByte ys
    → be_value a xs ≡ be_value b ys
    → (a ≡ b) × (xs ≡ ys)
be_value_injective [] [] a b l hx hy e = (e, refl)
be_value_injective [] (y ∷ ys) a b l hx hy e = absurd (omega arith)
be_value_injective (x ∷ xs) [] a b l hx hy e = absurd (omega arith)
be_value_injective (x ∷ xs) (y ∷ ys) a b l hx hy e =
    let (heads, tails) =
      be_value_injective xs ys (a * 256 + x) (b * 256 + y) (omega arith) hx.1 hy.1 e in
    (omega (arith, hx.0, hy.0), ap₂ ◌∷◌ (omega (arith, hx.0, hy.0)) tails)

-- Two byte strings of one length, at most 25, that have the same base-58 result are the same.
pub encode_base_58_injective :
    (xs ys : List ℕ)
    → All IsByte xs
    → All IsByte ys
    → length xs ≡ length ys
    → length xs ≤ 25
    → encode_base_58 xs ≡ encode_base_58 ys
    → xs ≡ ys
encode_base_58_injective xs ys hx hy l short e = (be_value_injective xs ys 0 0 l hx hy (cc same)).1
  where
    same : some (be_value 0 xs) ≡ some (be_value 0 ys)
    same =
        sym (base58decode-encode_base_58 xs hx short)
        ∙ ap (λ t. t >>= base58decode) e
        ∙ base58decode-encode_base_58 ys hy (omega arith)
