-- ===== src/Crypto/Base58/Tests.antt =====
-- Runs of the encoder, and its theorems at concrete inputs.
use ledger_nano.Base.{ℕ, ◌≡◌, refl, List, [], ◌∷◌, some, none, arith, length, replicate}
use ledger_nano.Base.Partial.{◌>>=◌}
use ledger_nano.Crypto.Base58.{
  encode_base_58, skip_zeroes, carry_loop, byte_loop, skip_digits, emit,
}
use ledger_nano.Crypto.Base58.Encode.{IsNumeral, encode_base_58-IsNumeral}
use ledger_nano.Crypto.Base58.Decode.{
  base58decode, base58decode-encode_base_58, encode_base_58_injective,
}

abbrev hello : List ℕ
hello = 0 ∷ 0 ∷ b'h' ∷ b'e' ∷ b'l' ∷ b'l' ∷ b'o' ∷ []

-- 25 bytes of 255, the largest number: its text has 35 characters.
abbrev largest : List ℕ
largest = replicate 25 255

encode_hello :
    encode_base_58 hello ≡ some (b'1' ∷ b'1' ∷ b'C' ∷ b'n' ∷ b'8' ∷ b'e' ∷ b'V' ∷ b'Z' ∷ b'g' ∷ [])
unfolding encode_base_58 skip_zeroes carry_loop byte_loop skip_digits emit
encode_hello = refl

encode_largest : (encode_base_58 largest >>= λ t. some (length t)) ≡ some 35
unfolding encode_base_58 skip_zeroes carry_loop byte_loop skip_digits emit
encode_largest = refl

-- 26 bytes want 36 cells, one more than `b58` has.
encode_too_long : encode_base_58 (replicate 26 255) ≡ none
unfolding encode_base_58 skip_zeroes carry_loop byte_loop skip_digits emit
encode_too_long = refl

encode_base_58-IsNumeral_example : IsNumeral hello (encode_base_58 hello)
encode_base_58-IsNumeral_example = encode_base_58-IsNumeral hello (omega arith) (omega arith)

base58decode-encode_base_58_example : (encode_base_58 hello >>= base58decode) ≡ some 0x68656c6c6f
base58decode-encode_base_58_example = base58decode-encode_base_58 hello (omega arith) (omega arith)

encode_base_58_injective_example : hello ≡ hello
encode_base_58_injective_example =
    encode_base_58_injective hello hello (omega arith) (omega arith) refl (omega arith) refl
