-- ===== src/Sdk.antt =====
-- What the app takes from the Ledger SDK (`cx.h`, `os.h`), which is not in the repository: the
-- hashes, the key derivation and the ECDSA signature. A value of `Sdk` is an argument of every
-- definition that calls them. The calls are taken to return, not to throw.
pub mod Toy
use ledger_nano.Base.{ℕ, suc, ◌+◌, ◌≤◌, ◌<◌, ◌≡◌, Bool, List, [], ◌∷◌, ◌++◌, length, All, IsByte}

-- What `cx_ecdsa_sign` writes: the signature in its TLV form, and the two bits of `info` that the
-- app tests (`CX_ECCINFO_PARITY_ODD` and `CX_ECCINFO_xGTn`).
pub record EcdsaSignature : Type 0 where
  pub tlv : List ℕ
  pub parity_odd : Bool
  pub x_gt_n : Bool

pub record Sdk : Type 1 where
  -- `cx_sha256_t`, `cx_sha256_init`, and `cx_hash` without and with `CX_LAST`. The last call gives
  -- the digest and leaves some context behind.
  pub Sha256 : Type 0
  pub sha256_init : Sha256
  pub hash_more : Sha256 → List ℕ → Sha256
  pub hash_last : Sha256 → List ℕ → Sha256 × List ℕ
  -- `cx_ripemd160_init` and `cx_hash` with `CX_LAST`.
  pub ripemd160 : List ℕ → List ℕ
  -- `os_perso_derive_node_bip32` and `cx_ecfp_init_private_key`, on the words of a path.
  pub PrivateKey : Type 0
  pub derive_node : List ℕ → PrivateKey
  -- The field `W` that `cx_ecfp_generate_pair` fills in.
  pub public_point : PrivateKey → List ℕ
  pub ecdsa_sign : PrivateKey → List ℕ → EcdsaSignature

-- The documented behaviour that the theorems use: the sizes of what is written, and that a hash
-- taken in pieces is the hash of the pieces joined.
pub record SdkLaws (sdk : Sdk) : Type 1 where
  pub sha256 : List ℕ → List ℕ
  pub Absorbed : sdk.Sha256 → List ℕ → Type 0
  pub init_absorbed : Absorbed sdk.sha256_init []
  pub more_absorbed :
      (h : sdk.Sha256) (m b : List ℕ) → Absorbed h m → Absorbed (sdk.hash_more h b) (m ++ b)
  pub last_digest :
      (h : sdk.Sha256) (m b : List ℕ) → Absorbed h m → (sdk.hash_last h b).1 ≡ sha256 (m ++ b)
  pub last_size : (h : sdk.Sha256) (m : List ℕ) → length (sdk.hash_last h m).1 ≡ 32
  pub sha256_size : (m : List ℕ) → length (sha256 m) ≡ 32
  pub sha256_bytes : (m : List ℕ) → All IsByte (sha256 m)
  pub ripemd160_size : (m : List ℕ) → length (sdk.ripemd160 m) ≡ 20
  pub ripemd160_bytes : (m : List ℕ) → All IsByte (sdk.ripemd160 m)
  pub point_size : (path : List ℕ) → length (sdk.public_point (sdk.derive_node path)) ≡ 65
