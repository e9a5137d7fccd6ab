-- ===== src/Sdk/Toy.antt =====
-- A concrete SDK with the sizes of the real one, for the runs and examples of the tests.
use ledger_nano.Base.{
  ℕ, zero, suc, ◌+◌, ◌%◌, ◌≡◌, refl, ap, true, false, List, [], ◌∷◌, ◌++◌, length, replicate, All,
  IsByte, arith, length-replicate,
}
use ledger_nano.Sdk.{Sdk, SdkLaws}

-- Thirty-two times the length of the message.
abbrev digest : List ℕ → List ℕ
digest m = replicate 32 (length m % 256)

-- An ECDSA signature of two integers, with `front` before R.
abbrev pub toy_tlv : List ℕ → List ℕ
toy_tlv front =
    0x30
    ∷ (length front + 68)
    ∷ 2
    ∷ (length front + 32)
    ∷ ((front ++ replicate 32 1) ++ (2 ∷ 32 ∷ (replicate 32 2 ++ [])))

-- `front` is what the signatures have before R.
abbrev pub toy : List ℕ → Sdk
toy front = record {
  Sha256 = List ℕ;
  sha256_init = [];
  hash_more = λ h b. h ++ b;
  hash_last = λ h b. (h ++ b, digest (h ++ b));
  ripemd160 = λ m. replicate 20 (length m % 256);
  PrivateKey = List ℕ;
  derive_node = λ path. path;
  public_point = λ key. 4 ∷ replicate 64 9;
  ecdsa_sign = λ key hash. record { tlv = toy_tlv front; parity_odd = true; x_gt_n = false };
}

pub toy_bytes : (n k : ℕ) → All IsByte (replicate n (k % 256))
toy_bytes zero k = tt
toy_bytes (suc n) k = (omega arith, toy_bytes n k)

abbrev pub toy_laws : (front : List ℕ) → SdkLaws (toy front)
toy_laws front = record {
  sha256 = digest;
  Absorbed = λ h m. h ≡ m;
  init_absorbed = refl;
  more_absorbed = λ h m b e. ap (λ t. t ++ b) e;
  last_digest = λ h m b e. ap (λ t. digest (t ++ b)) e;
  last_size = λ h m. length-replicate {A = ℕ} 32 (length (h ++ m) % 256);
  sha256_size = λ m. length-replicate {A = ℕ} 32 (length m % 256);
  sha256_bytes = λ m. toy_bytes 32 (length m);
  ripemd160_size = λ m. length-replicate {A = ℕ} 20 (length m % 256);
  ripemd160_bytes = λ m. toy_bytes 20 (length m);
  point_size = λ path. refl;
}
