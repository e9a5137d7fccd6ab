-- ===== src/Crypto/Signature/Tests.antt =====
-- Signatures of the toy SDK: two integers of 32 bytes, and one with a sign byte before R.
use ledger_nano.Base.{ℕ, ◌≡◌, refl, List, [], ◌∷◌, ◌++◌, some, none, arith, replicate}
use ledger_nano.Sdk.Toy.{toy, toy_tlv}
use ledger_nano.Crypto.Signature.{convert_signature_from_tlv_to_rs, sign}
use ledger_nano.Crypto.Signature.Convert.{convert-tlv, sign-tlv, sign_overrun}

abbrev r32 : List ℕ
r32 = replicate 32 1

abbrev s32 : List ℕ
s32 = replicate 32 2

abbrev hash : List ℕ
hash = replicate 32 5

convert-tlv_example : convert_signature_from_tlv_to_rs (toy_tlv (0 ∷ [])) ≡ some (r32 ++ s32)
convert-tlv_example = convert-tlv (0 ∷ []) r32 [] s32 [] refl refl

sign-tlv_example : sign (toy []) (9 ∷ []) hash ≡ some ((r32 ++ s32) ++ 1 ∷ [])
sign-tlv_example = sign-tlv (toy []) (9 ∷ []) hash [] r32 [] s32 refl refl refl

sign_overrun_example : sign (toy (0 ∷ [])) (9 ∷ []) hash ≡ none
sign_overrun_example =
    sign_overrun (toy (0 ∷ [])) (9 ∷ []) hash (0 ∷ []) r32 [] s32 refl refl (omega arith) refl
