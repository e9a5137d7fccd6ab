-- ===== src/Crypto/Address/Sizes.antt =====
-- `generate_address` writes in its array and does not change the length of it.
use ledger_nano.Base.{
  ℕ, ◌≡◌, ◌∙◌, List, [], ◌∷◌, ◌++◌, Option, none, some, length, read_bytes, write_bytes,
}
use ledger_nano.Base.Partial.{◌>>=◌}
use ledger_nano.Base.Post.{Yields, SameLength, write_bytes-SameLength}
use ledger_nano.Sdk.{Sdk}
use ledger_nano.Crypto.Base58.{encode_base_58}
use ledger_nano.Crypto.Address.{
  address_version, address_len, seal_address, to_address, compress_public_key, generate_address,
  sha256_of,
}

any-Yields :
    {A B : Type 0} (P : B → Type 0) (x : Option A) (k : A → Option B)
    → ((a : A) → Yields P (k a))
    → Yields P (x >>= k)
any-Yields P none k h = tt
any-Yields P (some a) k h = h a

write-Yields :
    {B : Type 0} (P : B → Type 0) (mem : List ℕ) (off : ℕ) (bs : List ℕ) (k : List ℕ → Option B)
    → ((new : List ℕ) → length new ≡ length mem → Yields P (k new))
    → Yields P (write_bytes mem off bs >>= k)
write-Yields P mem off bs k h = both (write_bytes mem off bs) (write_bytes-SameLength mem off bs)
  where
    both : (x : Option (List ℕ)) → Yields (SameLength mem) x → Yields P (x >>= k)
    both none e = tt
    both (some new) e = h new e

last_write :
    (n : ℕ) (mem : List ℕ) (off : ℕ) (bs : List ℕ)
    → length mem ≡ n
    → Yields (λ new. length new ≡ n) (write_bytes mem off bs)
last_write n mem off bs e = both (write_bytes mem off bs) (write_bytes-SameLength mem off bs)
  where
    both : (x : Option (List ℕ)) → Yields (SameLength mem) x → Yields (λ new. length new ≡ n) x
    both none h = tt
    both (some new) h = h ∙ e

module _ (sdk : Sdk) (n : ℕ) where
  abbrev L : List ℕ → Type 0
  L new = length new ≡ n

  seal_address-Yields : (result : List ℕ) → L result → Yields L (seal_address sdk result)
  unfolding seal_address
  seal_address-Yields result h = any-Yields L (read_bytes result 0 21) _ (λ body.
      any-Yields L (read_bytes (sha256_of sdk body) 0 4) _ (λ checksum.
        write-Yields L result 21 checksum _ (λ summed e.
          any-Yields L (read_bytes summed 0 address_len) _ (λ address.
            any-Yields L (encode_base_58 address) _
              (λ text. last_write n summed 0 (text ++ 0 ∷ []) (e ∙ h))))))

  to_address-Yields : (key result : List ℕ) → L result → Yields L (to_address sdk key result)
  unfolding to_address
  to_address-Yields key result h = any-Yields L (read_bytes key 0 33) _ (λ k.
      any-Yields L (read_bytes (sdk.ripemd160 (sha256_of sdk (sha256_of sdk k))) 0 20) _ (λ hash.
        write-Yields L result 0 hash _ (λ hashed e.
          write-Yields L hashed 20 (address_version ∷ []) _
            (λ versioned e'. seal_address-Yields versioned (e' ∙ e ∙ h)))))

  pub generate_address-Yields :
      (public_key result : List ℕ) → L result → Yields L (generate_address sdk public_key result)
  unfolding generate_address
  generate_address-Yields public_key result h =
      any-Yields L (compress_public_key public_key) _ (λ key. to_address-Yields key result h)
