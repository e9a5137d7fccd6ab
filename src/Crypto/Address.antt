-- ===== src/Crypto/Address.antt =====
-- `compress_public_key`, `to_address`, `address_to_base58`, `generate_address` and
-- `derive_keypair` of src/skycoin-api/skycoin_crypto.c. An output array comes in and goes out;
-- `none` is an access outside an array. The wiping of the local copies of keys is not modelled.
pub mod Text
pub mod Laws
pub mod Sizes
mod Tests
use Prim.Native.Nat.{bit_and}
use ledger_nano.Base.{
  ℕ, ◌+◌, ◌*◌, ◌%◌, Option, none, some, List, [], ◌∷◌, ◌++◌, Bool, true, false, ◌==◌, if◌then◌else◌,
  get_elem?, read_bytes, write_bytes, take,
}
use ledger_nano.Base.Partial.{◌>>=◌}
use ledger_nano.Sdk.{Sdk}
use ledger_nano.Crypto.Base58.{encode_base_58}

abbrev pub address_version : ℕ
address_version = 0

abbrev pub address_len : ℕ
address_len = 25

-- The length of the C string at the front of an array; `none` if no NUL ends it.
pub strlen : List ℕ → Option ℕ
strlen [] = none
strlen (c ∷ cs) = elim (c == 0) [ true ↦ some 0 | false ↦ do n ← strlen cs; some (n + 1) ]

-- The 33 bytes at `dst`.
pub compress_public_key : List ℕ → Option (List ℕ)
compress_public_key public_key = do
  last ← get_elem? public_key 64
  x ← read_bytes public_key 1 32
  some ((if last % 2 == 1 then 0x03 else 0x02) ∷ x)

module _ (sdk : Sdk) where
  open sdk use {sha256_init, hash_last, ripemd160, PrivateKey, derive_node, public_point}

  -- `cx_sha256_init` and one `cx_hash` with `CX_LAST`.
  abbrev pub sha256_of : List ℕ → List ℕ
  sha256_of bytes = (hash_last sha256_init bytes).1

  -- "add checksum to address" and "encode address to base58", on the 21 bytes in `result`.
  pub seal_address : List ℕ → Option (List ℕ)
  seal_address result = do
    body ← read_bytes result 0 21
    checksum ← read_bytes (sha256_of body) 0 4
    summed ← write_bytes result 21 checksum
    address ← read_bytes summed 0 address_len
    text ← encode_base_58 address
    write_bytes summed 0 (text ++ 0 ∷ [])

  pub address_to_base58 : List ℕ → List ℕ → Option (List ℕ)
  address_to_base58 address result = do
    hash ← read_bytes address 1 20
    version ← get_elem? address 0
    hashed ← write_bytes result 0 hash
    versioned ← write_bytes hashed 20 (version ∷ [])
    seal_address versioned

  pub to_address : List ℕ → List ℕ → Option (List ℕ)
  to_address public_key_compressed result = do
    key ← read_bytes public_key_compressed 0 33
    hash ← read_bytes (ripemd160 (sha256_of (sha256_of key))) 0 20
    hashed ← write_bytes result 0 hash
    versioned ← write_bytes hashed 20 (address_version ∷ [])
    seal_address versioned

  pub generate_address : List ℕ → List ℕ → Option (List ℕ)
  generate_address public_key dst = do
    public_key_compressed ← compress_public_key public_key
    to_address public_key_compressed dst

  -- The two keys that `derive_keypair` stores, where a caller asks for them.
  unfoldable pub derive_keypair : List ℕ → PrivateKey × List ℕ
  derive_keypair bip44_path =
      let private_key = derive_node bip44_path in (private_key, public_point private_key)
