-- ===== src/Crypto/Signature.antt =====
-- `convert_signature_from_TLV_to_RS` and `sign` of src/skycoin-api/skycoin_crypto.c. `none` is an
-- access outside an array, or a read of a byte that the SDK did not write.
pub mod Convert
mod Tests
use mathlib.Core.List.{append_assoc}
use ledger_nano.Base.{
  ℕ, zero, suc, ◌+◌, ◌-◌, ◌≤◌, ◌<◌, ◌≡◌, refl, sym, ap, ◌∙◌, Bool, true, false, List, [], ◌∷◌, ◌++◌,
  Option, none, some, arith, leb, if◌then◌else◌, length, get_elem?, drop, take, read_bytes,
  length-append, get_elem?-append, read_bytes_middle, le→leb,
}
use ledger_nano.Base.Partial.{◌>>=◌}
use ledger_nano.Sdk.{Sdk}

-- A difference of offsets; `none` points before the array.
abbrev pub offset_sub : ℕ → ℕ → Option ℕ
offset_sub a b = if leb b a then some (a - b) else none

-- The 64 bytes that it stores at `dst`.
pub convert_signature_from_tlv_to_rs : List ℕ → Option (List ℕ)
convert_signature_from_tlv_to_rs tlv_signature = do
  r_size ← get_elem? tlv_signature 3
  s_size ← get_elem? tlv_signature (3 + r_size + 2)
  r_start ← offset_sub (4 + r_size) 32
  s_start ← offset_sub (4 + 32 + 2 + r_size + s_size) 64
  r ← read_bytes tlv_signature r_start 32
  s ← read_bytes tlv_signature s_start 32
  some (r ++ s)

abbrev pub tle_sign_tx_len : ℕ
tle_sign_tx_len = 70

module _ (sdk : Sdk) where
  -- The 65 bytes that it stores at `signature`.
  pub sign : sdk.PrivateKey → List ℕ → Option (List ℕ)
  sign private_key hash =
      let signed = sdk.ecdsa_sign private_key hash in
      let odd : ℕ = if signed.parity_odd then 1 else 0 in
      let recovery_id : ℕ = if signed.x_gt_n then odd + 2 else odd in
      if leb (length signed.tlv) tle_sign_tx_len
      then (do rs ← convert_signature_from_tlv_to_rs signed.tlv; some (rs ++ recovery_id ∷ []))
      else none
