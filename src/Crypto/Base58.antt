-- ===== src/Crypto/Base58.antt =====
-- `encode_base_58` of src/skycoin-api/skycoin_crypto.c, loop by loop. The output buffer may be
-- the input buffer (both callers pass the same pointer): the input is read to its end before the
-- first character is written, so the text is returned here, and the callers write it.
pub mod Digits
pub mod Carry
pub mod Trim
pub mod Encode
pub mod Length
pub mod Decode
mod Tests
use ledger_nano.Base.{
  ℕ, zero, suc, ◌+◌, ◌-◌, ◌*◌, ◌/◌, ◌%◌, Bool, true, false, ◌||◌, Option, none, some, List, [], ◌∷◌,
  ◌++◌, ltb, ◌==◌, length, get_elem?, set, replicate,
}
use ledger_nano.Base.Partial.{◌>>=◌}

-- BASE_58_ALPHABET.
abbrev pub base_58_alphabet : List ℕ
base_58_alphabet =
    b'1' ∷ b'2' ∷ b'3' ∷ b'4' ∷ b'5' ∷ b'6' ∷ b'7' ∷ b'8' ∷ b'9' ∷ b'A' ∷ b'B' ∷ b'C' ∷ b'D' ∷ b'E'
    ∷ b'F' ∷ b'G' ∷ b'H' ∷ b'J' ∷ b'K' ∷ b'L' ∷ b'M' ∷ b'N' ∷ b'P' ∷ b'Q' ∷ b'R' ∷ b'S' ∷ b'T'
    ∷ b'U' ∷ b'V' ∷ b'W' ∷ b'X' ∷ b'Y' ∷ b'Z' ∷ b'a' ∷ b'b' ∷ b'c' ∷ b'd' ∷ b'e' ∷ b'f' ∷ b'g'
    ∷ b'h' ∷ b'i' ∷ b'j' ∷ b'k' ∷ b'm' ∷ b'n' ∷ b'o' ∷ b'p' ∷ b'q' ∷ b'r' ∷ b's' ∷ b't' ∷ b'u'
    ∷ b'v' ∷ b'w' ∷ b'x' ∷ b'y' ∷ b'z' ∷ []

-- ADDRESS_BASE58_LEN, the size of the array of digits.
abbrev pub address_base58_len : ℕ
address_base58_len = 35

-- `while (pbegin != pend && *pbegin == 0)`: the count of leading zeroes, and what follows them.
pub skip_zeroes : ℕ → List ℕ → ℕ × List ℕ
skip_zeroes zeroes [] = (zeroes, [])
skip_zeroes zeroes (b ∷ bs) = elim (b == 0) [
  | true ↦ skip_zeroes (zeroes + 1) bs
  | false ↦ (zeroes, b ∷ bs)
]

-- The `for` loop that applies "b58 = b58 * 256 + ch". Its first argument is the C variable `j`
-- plus one, so `j != -1` is the constructor `suc`.
pub carry_loop : ℕ → ℕ → ℕ → ℕ → List ℕ → Option (ℕ × List ℕ)
carry_loop zero carry i len b58 = some (i, b58)
carry_loop (suc j) carry i len b58 = elim (ltb 0 carry || ltb i len) [
  | true ↦ do
    digit ← get_elem? b58 j
    let sum = carry + 256 * digit
    carry_loop j (sum / 58) (i + 1) len (set b58 j (sum % 58))
  | false ↦ some (i, b58)
]

-- `while (pbegin != pend)`: every byte, with the C variables `length` and `b58`.
pub byte_loop : ℕ → List ℕ → ℕ → List ℕ → Option (ℕ × List ℕ)
byte_loop size [] len b58 = some (len, b58)
byte_loop size (ch ∷ bs) len b58 = do
  (len', b58') ← carry_loop size ch 0 len b58
  byte_loop size bs len' b58'

-- `while (j != size && b58[j] == 0)`, with the `size - j` rounds left.
pub skip_digits : ℕ → ℕ → List ℕ → Option ℕ
skip_digits zero j b58 = some j
skip_digits (suc left) j b58 = do
  digit ← get_elem? b58 j
  elim (digit == 0) [ true ↦ skip_digits left (j + 1) b58 | false ↦ some j ]

-- `while (j != size)`: the letters of the digits that are left.
pub emit : ℕ → ℕ → List ℕ → Option (List ℕ)
emit zero j b58 = some []
emit (suc left) j b58 = do
  digit ← get_elem? b58 j
  letter ← get_elem? base_58_alphabet digit
  rest ← emit left (j + 1) b58
  some (letter ∷ rest)

-- The text, without its closing NUL; `none` is an access outside `b58`.
pub encode_base_58 : List ℕ → Option (List ℕ)
encode_base_58 bytes =
    let (zeroes, rest) = skip_zeroes 0 bytes in
    let size = length rest * 138 / 100 + 1 in
    do
      (len, b58) ← byte_loop size rest 0 (replicate address_base58_len 0)
      j ← skip_digits len (size - len) b58
      letters ← emit (size - j) j b58
      some (replicate zeroes b'1' ++ letters)
