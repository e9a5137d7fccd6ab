-- ===== src/Crypto/Address/Laws.antt =====
-- The two ways to an address: from its raw 21 bytes, and from a public key.
use mathlib.Core.Path.{subst}
use mathlib.Core.List.{append_assoc}
use ledger_nano.Base.{
  ℕ, ◌+◌, ◌%◌, ◌≡◌, sym, ap, ◌∙◌, some, List, [], ◌∷◌, ◌++◌, get_or, get_elem?-eq-get_or, ◌==◌,
  if◌then◌else◌, write_bytes, take, drop, length, All, arith, IsByte, length-append, length-drop,
  length-take, read_bytes_in, write_bytes_middle, write_bytes_in, take-append-drop, take_all,
  All-append,
}
use ledger_nano.Base.Partial.{◌>>=◌}
use ledger_nano.Sdk.{Sdk, SdkLaws}
use ledger_nano.Crypto.Address.{
  seal_address, address_to_base58, to_address, compress_public_key, generate_address,
}
use ledger_nano.Crypto.Address.Text.{Shows, address_bytes, seal_address-Shows, sha256_of-eq}

module _ (sdk : Sdk) (laws : SdkLaws sdk) where
  -- The two writes before the checksum, into an array of 36 bytes.
  module _ (hash : List ℕ) (version : ℕ) (result : List ℕ) (h_20 : length hash ≡ 20)
      (h_bytes : All IsByte hash) (v_byte : IsByte version) (r_36 : length result ≡ 36) where
    abbrev behind : List ℕ
    behind = drop 20 result

    hash_write : write_bytes result 0 hash ≡ some (hash ++ behind)
    hash_write =
        let e : 0 + length hash ≡ 20 = omega arith in
        write_bytes_in result 0 hash (omega arith) ∙ ap (λ (n : ℕ). some (hash ++ drop n result)) e

    version_write :
        write_bytes (hash ++ behind) 20 (version ∷ [])
        ≡ some ((hash ++ version ∷ []) ++ drop 1 behind)
    version_write =
        subst
          (λ t.
            write_bytes (hash ++ t) 20 (version ∷ [])
            ≡ some ((hash ++ version ∷ []) ++ drop 1 behind))
          (take-append-drop 1 behind)
          (rw append_assoc (
            write_bytes_middle hash (take 1 behind) (drop 1 behind) (version ∷ []) 20 (sym h_20)
              (omega (arith, length-take 1 behind, length-drop 20 result))))

    sealed :
        Shows
          (address_bytes laws hash version)
          (seal_address sdk ((hash ++ version ∷ []) ++ drop 1 behind))
    sealed =
        seal_address-Shows sdk laws (hash ++ version ∷ []) (drop 1 behind)
          (omega (arith, length-append hash (version ∷ [])))
          (All-append IsByte hash (version ∷ []) h_bytes (v_byte, tt))
          (omega (arith, length-drop 1 behind, length-drop 20 result))

    -- From a version byte and a hash of 20 bytes, into an array of 36, address_to_base58 writes,
    -- as a C string, the base-58 text of hash, version and the first four bytes of their SHA-256.
    pub address_to_base58-Shows :
        Shows (address_bytes laws hash version) (address_to_base58 sdk (version ∷ hash) result)
    unfolding address_to_base58
    address_to_base58-Shows =
        rw
          (
            read_bytes_in (version ∷ hash) 1 20 (omega arith),
            take_all 20 hash (omega arith),
            ◌>>=◌,
            hash_write,
            version_write,
          )
          sealed

  -- to_address of a compressed key of 33 bytes and address_to_base58 of version 0 and the key's
  -- RIPEMD160(SHA256(SHA256)) have the same result on the same array of 36 bytes, with hashes of
  -- the documented sizes.
  pub to_address-address_to_base58 :
      (key result : List ℕ)
      → length key ≡ 33
      → length result ≡ 36
      → to_address sdk key result
        ≡ address_to_base58 sdk (0 ∷ sdk.ripemd160 (laws.sha256 (laws.sha256 key))) result
  unfolding to_address address_to_base58
  to_address-address_to_base58 key result k_33 r_36 =
      let hash : List ℕ = sdk.ripemd160 (laws.sha256 (laws.sha256 key)) in
      let size : length hash ≡ 20 = laws.ripemd160_size _ in
      rw (
        read_bytes_in key 0 33 (omega arith),
        take_all 33 key (omega arith),
        ◌>>=◌,
        sha256_of-eq sdk laws key,
        sha256_of-eq sdk laws (laws.sha256 key),
        read_bytes_in hash 0 20 (omega arith),
        read_bytes_in (0 ∷ hash) 1 20 (omega arith),
      )

  -- SEC1's compressed form of an uncompressed point: the parity of y, then x.
  abbrev pub compressed : List ℕ → List ℕ
  compressed point = (if get_or point 64 0 % 2 == 1 then 0x03 else 0x02) ∷ take 32 (drop 1 point)

  pub compress_public_key_lem :
      (point : List ℕ) → length point ≡ 65 → compress_public_key point ≡ some (compressed point)
  unfolding compress_public_key
  compress_public_key_lem point p_65 =
      rw (
        get_elem?-eq-get_or point 64 0 (omega arith),
        ◌>>=◌,
        read_bytes_in point 1 32 (omega arith),
      )

  -- From an uncompressed public key of 65 bytes, into an array of 36, generate_address writes, as
  -- a C string, the base-58 text of RIPEMD160(SHA256(SHA256(compressed key))), version 0, and the
  -- first four bytes of the SHA-256 of these 21 bytes; the SDK's hashes are taken to have their
  -- documented sizes.
  pub generate_address-Shows :
      (point dst : List ℕ)
      → length point ≡ 65
      → length dst ≡ 36
      → Shows
          (address_bytes laws (sdk.ripemd160 (laws.sha256 (laws.sha256 (compressed point)))) 0)
          (generate_address sdk point dst)
  unfolding generate_address
  generate_address-Shows point dst p_65 d_36 =
      rw
        (
          compress_public_key_lem point p_65,
          ◌>>=◌,
          to_address-address_to_base58 (compressed point) dst
              (omega (arith, length-take 32 (drop 1 point), length-drop 1 point)) d_36,
        )
        (address_to_base58-Shows (sdk.ripemd160 (laws.sha256 (laws.sha256 (compressed point)))) 0
          dst (laws.ripemd160_size _) (laws.ripemd160_bytes _) (omega arith) d_36)
