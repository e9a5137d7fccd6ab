-- ===== src/Crypto/Address/Text.antt =====
-- What stands in the caller's array after an address was written.
use ledger_nano.Base.{
  ℕ, zero, suc, ◌+◌, ◌≤◌, ◌<◌, ◌≡◌, refl, sym, ap, Option, some, List, [], ◌∷◌, ◌++◌, map,
  read_bytes, write_bytes, take, drop, length, replicate, All, arith, IsByte, length-append,
  length-replicate, length-map, read_bytes_middle, write_bytes_middle, All-append, All-take, true,
  ltb, ltb→lt, all_below, all_below_sound, ne→==, write_bytes_in, length-drop, length-take,
  read_bytes_in, take-append-drop,
}
use mathlib.Core.Path.{subst}
use mathlib.Core.List.{append_assoc}
use ledger_nano.Base.Partial.{◌>>=◌}
use ledger_nano.Sdk.{Sdk, SdkLaws}
use ledger_nano.Crypto.Base58.{encode_base_58}
use ledger_nano.Crypto.Base58.Encode.{IsNumeral, encode_base_58-IsNumeral}
use native.Mathlib.Nat.{zero-add}
use ledger_nano.Crypto.Base58.Digits.{IsDigit}
use ledger_nano.Crypto.Base58.Length.{IsNumeral-length}
use ledger_nano.Crypto.Base58.Trim.{letter}
use ledger_nano.Crypto.Address.{strlen, sha256_of, seal_address}

-- The 25 bytes that an address spells: hash, version, and four bytes of the checksum.
abbrev pub address_bytes : {sdk : Sdk} → SdkLaws sdk → List ℕ → ℕ → List ℕ
address_bytes laws hash version =
    (hash ++ version ∷ []) ++ take 4 (laws.sha256 (hash ++ version ∷ []))

-- Characters other than NUL.
abbrev pub IsShown : List ℕ → Type 0
IsShown = All (λ c. 0 < c)

-- The array begins with the base-58 text of `bytes` as a C string, and is still 36 bytes long.
pub record Shows (bytes : List ℕ) (result : Option (List ℕ)) : Type 0 where
  pub text : List ℕ
  pub encoded : encode_base_58 bytes ≡ some text
  pub rest : List ℕ
  pub returns : result ≡ some (text ++ (0 ∷ rest))
  pub size : length text + 1 + length rest ≡ 36
  pub ends : strlen (text ++ (0 ∷ rest)) ≡ some (length text)
  pub shown : IsShown text
  pub long : length bytes ≤ length text

letters_table : all_below (λ d. ltb 0 (letter d)) 58 ≡ true
unfolding all_below
letters_table = refl

letter_pos : (d : ℕ) → IsDigit d → 0 < letter d
letter_pos d h = ltb→lt 0 (letter d) (all_below_sound _ 58 d h letters_table)

IsShown-ones : (n : ℕ) (cs : List ℕ) → IsShown cs → IsShown (replicate n b'1' ++ cs)
IsShown-ones zero cs h = h
IsShown-ones (suc n) cs h = (omega arith, IsShown-ones n cs h)

IsShown-letters : (ds : List ℕ) → All IsDigit ds → IsShown (map letter ds)
IsShown-letters [] h = tt
IsShown-letters (d ∷ ds) h = (letter_pos d h.0, IsShown-letters ds h.1)

pub strlen-shown :
    (text rest : List ℕ) → IsShown text → strlen (text ++ (0 ∷ rest)) ≡ some (length text)
unfolding strlen
strlen-shown [] rest h = refl
strlen-shown (c ∷ text) rest h =
    rw (strlen, ne→== c 0 (omega arith), strlen-shown text rest h.1, ◌>>=◌)
      (ap (λ (n : ℕ). some n) (omega arith))

-- The last write of an address: the text goes over the 25 bytes that it spells.
write_text :
    (bytes mem : List ℕ)
    → IsNumeral bytes (encode_base_58 bytes)
    → length mem ≡ 36
    → Shows bytes (encode_base_58 bytes >>= λ text. write_bytes mem 0 (text ++ 0 ∷ []))
write_text bytes mem n l = record {
  text = text;
  encoded = n.spelt;
  rest = drop (length text + 1) mem;
  returns = rw (
    n.spelt,
    ◌>>=◌,
    write_bytes_in mem 0 (text ++ 0 ∷ []) (omega (arith, length-append text (0 ∷ []), short)),
    length-append text (0 ∷ []),
    append_assoc text (0 ∷ []) _,
    zero-add,
  );
  size = omega (arith, short, length-drop (length text + 1) mem);
  ends = strlen-shown text _ characters;
  shown = characters;
  long = omega (
    arith,
    IsNumeral-length bytes (encode_base_58 bytes) n,
    length-append (replicate n.zeroes b'1') (map letter n.digits),
    length-replicate {A = ℕ} n.zeroes b'1',
    length-map letter n.digits,
  );
}
  where
    text : List ℕ
    text = replicate n.zeroes b'1' ++ map letter n.digits

    characters : IsShown text
    characters = IsShown-ones n.zeroes _ (IsShown-letters n.digits n.in_base)

    short : length text ≤ 35
    short = omega (
      arith,
      length-append (replicate n.zeroes b'1') (map letter n.digits),
      length-replicate {A = ℕ} n.zeroes b'1',
      length-map letter n.digits,
      n.short,
    )

module _ (sdk : Sdk) (laws : SdkLaws sdk) where
  pub sha256_of-eq : (m : List ℕ) → sha256_of sdk m ≡ laws.sha256 m
  sha256_of-eq m = laws.last_digest sdk.sha256_init [] m laws.init_absorbed

  -- The 21 bytes `body` before the checksum, and the 15 bytes behind them.
  module _ (body tail : List ℕ) (b_21 : length body ≡ 21) (b_bytes : All IsByte body)
      (t_15 : length tail ≡ 15) where
    abbrev checksum : List ℕ
    checksum = take 4 (laws.sha256 body)

    length-checksum : length checksum ≡ 4
    length-checksum = omega (arith, length-take 4 (laws.sha256 body), laws.sha256_size body)

    checksum_read : read_bytes (sha256_of sdk body) 0 4 ≡ some checksum
    checksum_read =
        rw sha256_of-eq
          (read_bytes_in (laws.sha256 body) 0 4 (omega (arith, laws.sha256_size body)))

    summed_write : write_bytes (body ++ tail) 21 checksum ≡ some (body ++ (checksum ++ drop 4 tail))
    summed_write =
        subst (λ t. write_bytes (body ++ t) 21 checksum ≡ some (body ++ (checksum ++ drop 4 tail)))
          (take-append-drop 4 tail)
          (write_bytes_middle body (take 4 tail) (drop 4 tail) checksum 21 (sym b_21)
            (omega (arith, length-checksum, length-take 4 tail)))

    address_read : read_bytes (body ++ (checksum ++ drop 4 tail)) 0 25 ≡ some (body ++ checksum)
    address_read =
        subst (λ t. read_bytes t 0 25 ≡ some (body ++ checksum))
          (append_assoc body checksum (drop 4 tail))
          (read_bytes_middle [] (body ++ checksum) (drop 4 tail) 0 25 refl
            (omega (arith, length-append body checksum, length-checksum)))

    summed_bytes : All IsByte (body ++ checksum)
    summed_bytes =
        All-append IsByte body checksum b_bytes (All-take IsByte 4 _ (laws.sha256_bytes body))

    pub seal_address-Shows : Shows (body ++ checksum) (seal_address sdk (body ++ tail))
    unfolding seal_address
    seal_address-Shows =
        rw
          (
            read_bytes_middle [] body tail 0 21 refl (sym b_21),
            ◌>>=◌,
            checksum_read,
            summed_write,
            address_read,
          )
          (write_text (body ++ checksum) (body ++ (checksum ++ drop 4 tail))
            (encode_base_58-IsNumeral (body ++ checksum) summed_bytes
              (omega (arith, length-append body checksum, length-checksum)))
            (omega (
              arith,
              length-append body (checksum ++ drop 4 tail),
              length-append checksum (drop 4 tail),
              length-checksum,
              length-drop 4 tail,
            )))
