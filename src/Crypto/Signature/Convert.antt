-- ===== src/Crypto/Signature/Convert.antt =====
-- What the conversion and `sign` make of a TLV signature.
use mathlib.Core.List.{append_assoc}
use ledger_nano.Base.{
  ℕ, ◌+◌, ◌-◌, ◌<◌, ◌≡◌, refl, sym, ap, ◌∙◌, Bool, true, false, List, [], ◌∷◌, ◌++◌, none, some,
  arith, if◌then◌else◌, length, get_elem?, read_bytes, length-append, get_elem?-append,
  read_bytes_middle, le→leb, lt→leb,
}
use ledger_nano.Base.Partial.{◌>>=◌}
use ledger_nano.Sdk.{Sdk, EcdsaSignature}
use ledger_nano.Crypto.Signature.{convert_signature_from_tlv_to_rs, sign}

-- The TLV form of two integers.
abbrev pub tlv : List ℕ → List ℕ → List ℕ → List ℕ
tlv r s rest = 0x30 ∷ (length r + length s + 4) ∷ 2 ∷ length r ∷ (r ++ (2 ∷ length s ∷ (s ++ rest)))

-- `r` ends in the 32 bytes `r32`, and `s` in `s32`.
module _ (front_r r32 front_s s32 rest : List ℕ) (r_32 : length r32 ≡ 32)
    (s_32 : length s32 ≡ 32) where
  abbrev signed : List ℕ
  signed = tlv (front_r ++ r32) (front_s ++ s32) rest

  length_r : length (front_r ++ r32) ≡ length front_r + 32
  length_r = length-append front_r r32 ∙ ap (λ t. length front_r + t) r_32

  length_s : length (front_s ++ s32) ≡ length front_s + 32
  length_s = length-append front_s s32 ∙ ap (λ t. length front_s + t) s_32

  abbrev header : List ℕ
  header =
      0x30
      ∷ (length (front_r ++ r32) + length (front_s ++ s32) + 4)
      ∷ 2
      ∷ length (front_r ++ r32)
      ∷ []

  abbrev s_part : List ℕ
  s_part = 2 ∷ length (front_s ++ s32) ∷ ((front_s ++ s32) ++ rest)

  s_length_at : get_elem? signed (3 + length (front_r ++ r32) + 2) ≡ some (length (front_s ++ s32))
  s_length_at =
      get_elem?-append (header ++ (front_r ++ r32)) s_part 1 (3 + length (front_r ++ r32) + 2)
        (omega (arith, length-append header (front_r ++ r32)))

  r_at : read_bytes signed (4 + length (front_r ++ r32) - 32) 32 ≡ some r32
  r_at =
      ap (λ t. read_bytes t (4 + length (front_r ++ r32) - 32) 32) regroup
      ∙ read_bytes_middle (header ++ front_r) r32 s_part _ 32
          (omega (arith, length_r, length-append header front_r)) (sym r_32)
    where
      regroup : signed ≡ (header ++ front_r) ++ (r32 ++ s_part)
      regroup = simp append_assoc

  before_s : List ℕ
  before_s = header ++ ((front_r ++ r32) ++ (2 ∷ length (front_s ++ s32) ∷ front_s))

  length-before_s : length before_s ≡ length front_r + length front_s + 38
  unfolding before_s
  length-before_s =
      omega
        (arith, length_r, length-append (front_r ++ r32) (2 ∷ length (front_s ++ s32) ∷ front_s))

  s_at :
      read_bytes signed (4 + 32 + 2 + length (front_r ++ r32) + length (front_s ++ s32) - 64) 32
      ≡ some s32
  s_at =
      ap
        (λ t. read_bytes t (4 + 32 + 2 + length (front_r ++ r32) + length (front_s ++ s32) - 64) 32)
        regroup
      ∙ read_bytes_middle before_s s32 rest _ 32
          (omega (arith, length_r, length_s, length-before_s)) (sym s_32)
    where
      regroup : signed ≡ before_s ++ (s32 ++ rest)
      regroup = unfold before_s in simp append_assoc

  -- The conversion of a TLV signature whose two integers have at least 32 bytes gives the last 32
  -- bytes of R, then those of S.
  pub convert-tlv : convert_signature_from_tlv_to_rs signed ≡ some (r32 ++ s32)
  unfolding convert_signature_from_tlv_to_rs
  convert-tlv = rw (
    s_length_at,
    ◌>>=◌,
    le→leb 32 (4 + length (front_r ++ r32)) (omega (arith, length_r)),
    le→leb 64 (4 + 32 + 2 + length (front_r ++ r32) + length (front_s ++ s32))
        (omega (arith, length_r, length_s)),
    r_at,
    s_at,
  )

-- The bytes of a TLV signature, by its parts.
length-tlv : (r s rest : List ℕ) → length (tlv r s rest) ≡ 6 + length r + length s + length rest
length-tlv r s rest =
    omega (arith, length-append r (2 ∷ length s ∷ (s ++ rest)), length-append s rest)

-- `recovery_id`: bit 0 is the parity of the point, bit 1 says that its x passed the order.
abbrev pub recovery_bits : EcdsaSignature → ℕ
recovery_bits e = (if e.parity_odd then 1 else 0) + (if e.x_gt_n then 2 else 0)

same_bits :
    (odd past : Bool)
    → (let id : ℕ = if odd then 1 else 0 in let id' : ℕ = if past then id + 2 else id in id')
      ≡ (if odd then 1 else 0) + (if past then 2 else 0)
same_bits true true = refl
same_bits true false = refl
same_bits false true = refl
same_bits false false = refl

module _ (sdk : Sdk) (key : sdk.PrivateKey) (hash front_r r32 front_s s32 : List ℕ) where
  -- Where the SDK's TLV signature has two integers of exactly 32 bytes, sign stores R, S and the
  -- recovery id, whose bit 0 is the parity of the point and bit 1 that its x passed the order.
  pub sign-tlv :
      length r32 ≡ 32
      → length s32 ≡ 32
      → (sdk.ecdsa_sign key hash).tlv ≡ tlv r32 s32 []
      → sign sdk key hash ≡ some ((r32 ++ s32) ++ recovery_bits (sdk.ecdsa_sign key hash) ∷ [])
  unfolding sign
  sign-tlv hr hs e =
      rw
        (
          e,
          le→leb (length (tlv r32 s32 [])) 70 (omega (arith, length-tlv r32 s32 [])),
          convert-tlv [] r32 [] s32 [] hr hs,
        )
        (ap (λ (id : ℕ). some ((r32 ++ s32) ++ id ∷ []))
          (same_bits (sdk.ecdsa_sign key hash).parity_odd (sdk.ecdsa_sign key hash).x_gt_n))

  -- Where the SDK's TLV signature has a byte before the last 32 of R or of S, it is longer than
  -- the 70 bytes of tle_sign_tx, and sign has no defined result.
  pub sign_overrun :
      length r32 ≡ 32
      → length s32 ≡ 32
      → 0 < length front_r + length front_s
      → (sdk.ecdsa_sign key hash).tlv ≡ tlv (front_r ++ r32) (front_s ++ s32) []
      → sign sdk key hash ≡ none
  unfolding sign
  sign_overrun hr hs more e =
      rw (e, lt→leb (length (tlv (front_r ++ r32) (front_s ++ s32) [])) 70 long)
    where
      long : 70 < length (tlv (front_r ++ r32) (front_s ++ s32) [])
      long = omega (
        arith,
        length-tlv (front_r ++ r32) (front_s ++ s32) [],
        length-append front_r r32,
        length-append front_s s32,
      )
