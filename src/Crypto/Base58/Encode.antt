-- ===== src/Crypto/Base58/Encode.antt =====
-- The whole encoder: every loop ends inside `b58`, and the letters spell the number of the bytes.
use mathlib.Core.Path.{subst}
use native.Mathlib.Nat.{pow-suc, one-le-pow, mul-le-mul_left, mul-le-mul_right}
use native.Mathlib.Nat.{zero-add}
use ledger_nano.Base.{
  length-append, all_below, all_below_sound, leb, leb→le, ℕ, zero, suc, ◌+◌, ◌-◌, ◌*◌, ◌/◌, ◌^◌,
  ◌≤◌, ◌<◌, ◌≡◌, refl, sym, ap, ◌∙◌, ◌≢◌, List, [], ◌∷◌, ◌++◌, map, Option, some, true, arith,
  length, get_or, replicate, All, IsByte, length-replicate,
}
use ledger_nano.Base.Partial.{◌>>=◌}
use ledger_nano.Crypto.Base58.{skip_zeroes, carry_loop, byte_loop, skip_digits, encode_base_58}
use ledger_nano.Crypto.Base58.Digits.{
  IsDigit, prefix_value, digits_value, be_value, cells, prefix_value-cells, prefix_value-replicate,
  All-cells, All-replicate_zero,
}
use ledger_nano.Crypto.Base58.Trim.{
  IsTrimmed, IsSkipped, Leads, letter, skip_digits-IsTrimmed, skip_zeroes-IsSkipped, emit-cells,
}
use ledger_nano.Crypto.Base58.Carry.{IsClear, IsCarried, carry_loop-IsCarried}

pub record IsEncoded (size value : ℕ) (result : Option (ℕ × List ℕ)) : Type 0 where
  pub used : ℕ
  pub out : List ℕ
  pub returns : result ≡ some (used, out)
  pub spelt : prefix_value size out ≡ value
  pub same_length : length out ≡ 35
  pub digits : All IsDigit out
  pub fits : used ≤ size
  pub clear : IsClear size used out

byte_loop_round :
    (size ch : ℕ) (bs : List ℕ) (len : ℕ) (b : List ℕ)
    → (c : IsCarried size size ch b (carry_loop size ch 0 len b))
    → byte_loop size (ch ∷ bs) len b ≡ byte_loop size bs c.used c.out
unfolding byte_loop
byte_loop_round size ch bs len b c = rw c.returns

room_now : (v c n p : ℕ) → c < 256 → (v + 1) * 256 ^ suc n ≤ p → 256 * v + c < p
room_now v c n p h room = omega (
  arith,
  ap (λ (t : ℕ). (v + 1) * t) (pow-suc 256 n),
  mul-le-mul_left (v + 1) (one-le-pow n 256 (omega arith)),
)

room_next : (v c n p : ℕ) → c < 256 → (v + 1) * 256 ^ suc n ≤ p → (256 * v + c + 1) * 256 ^ n ≤ p
room_next v c n p h room =
    omega
      (arith, ap (λ (t : ℕ). (v + 1) * t) (pow-suc 256 n), mul-le-mul_right (256 ^ n) (le v c h))
  where
    le : (v c : ℕ) → c < 256 → 256 * v + c + 1 ≤ (v + 1) * 256
    le v c h = omega arith

-- `size` digits hold the number and all that is still to come.
pub byte_loop-IsEncoded :
    (size : ℕ) (bs : List ℕ) (len : ℕ) (b : List ℕ)
    → size ≤ 35
    → length b ≡ 35
    → All IsDigit b
    → All IsByte bs
    → len ≤ size
    → (prefix_value size b + 1) * 256 ^ length bs ≤ 58 ^ size
    → IsClear size len b
    → IsEncoded size (be_value (prefix_value size b) bs) (byte_loop size bs len b)
byte_loop-IsEncoded size [] len b small l d bytes fits room clear = record {
  used = len;
  out = b;
  returns = unfold byte_loop in refl;
  spelt = refl;
  same_length = l;
  digits = d;
  fits = fits;
  clear = clear;
}
byte_loop-IsEncoded size (ch ∷ bs) len b small l d bytes fits room clear =
    rw (byte_loop_round size ch bs len b first) (
      subst (λ t. IsEncoded size (be_value t bs) (byte_loop size bs first.used first.out))
        (omega (arith, first.value))
        (byte_loop-IsEncoded size bs first.used first.out small (first.same_length ∙ l) first.digits
          bytes.1 first.fits
          (rw first.value (room_next (prefix_value size b) ch (length bs) _ bytes.0 room))
          first.clear))
  where
    first : IsCarried size size ch b (carry_loop size ch 0 len b)
    first =
        carry_loop-IsCarried size len size ch 0 b (omega arith) (omega arith) d
          (room_now (prefix_value size b) ch (length bs) _ bytes.0 room) (λ n le fit. clear n fit)

-- Every length up to 25 has room for its digits, and they fit `b58`.
abbrev digits_of : ℕ → ℕ
digits_of n = n * 138 / 100 + 1

room_table : all_below (λ n. leb (256 ^ n) (58 ^ digits_of n)) 26 ≡ true
unfolding all_below
room_table = refl

digits_room : (n : ℕ) → n ≤ 25 → 256 ^ n ≤ 58 ^ digits_of n
digits_room n h = leb→le _ _ (all_below_sound _ 26 n (omega arith) room_table)

pub be_value-replicate :
    (n acc : ℕ) (bs : List ℕ) → be_value 0 (replicate n 0 ++ bs) ≡ be_value 0 bs
be_value-replicate zero acc bs = refl
be_value-replicate (suc n) acc bs = be_value-replicate n acc bs

All-drop_zeroes : (n : ℕ) (bs : List ℕ) → All IsByte (replicate n 0 ++ bs) → All IsByte bs
All-drop_zeroes zero bs h = h
All-drop_zeroes (suc n) bs h = All-drop_zeroes n bs h.1

length-cells : (k j : ℕ) (b : List ℕ) → length (cells b j k) ≡ k
length-cells zero j b = refl
length-cells (suc k) j b = ap suc (length-cells k (j + 1) b)

Leads-cells : (k j : ℕ) (b : List ℕ) → (0 < k → get_or b j 0 ≢ 0) → Leads (cells b j k)
Leads-cells zero j b h = tt
Leads-cells (suc k) j b h = h (omega arith)

-- `text` is the base-58 numeral of `bytes`: a "1" for each leading zero byte, and then the letters
-- of the digits of the number that the bytes spell, with no leading zero.
pub record IsNumeral (bytes : List ℕ) (text : Option (List ℕ)) : Type 0 where
  pub zeroes : ℕ
  pub rest : List ℕ
  pub digits : List ℕ
  pub parts : bytes ≡ replicate zeroes 0 ++ rest
  pub rest_leads : Leads rest
  pub spelt : text ≡ some (replicate zeroes b'1' ++ map letter digits)
  pub value : digits_value 0 digits ≡ be_value 0 bytes
  pub in_base : All IsDigit digits
  pub leads : Leads digits
  pub short : zeroes + length digits ≤ 35

-- The loops of one run, put together.
run :
    (bytes : List ℕ) (z : IsSkipped 0 bytes (skip_zeroes 0 bytes))
    → let size = digits_of (length z.rest) in
      (e : IsEncoded size (be_value 0 z.rest) (byte_loop size z.rest 0 (replicate 35 0)))
      → (t : IsTrimmed size (size - e.used) e.out (skip_digits e.used (size - e.used) e.out))
      → size ≤ 35
      → encode_base_58 bytes
        ≡ some (replicate z.zeroes b'1' ++ map letter (cells e.out t.start (size - t.start)))
unfolding encode_base_58
run bytes z e t small = rw (
  z.returns,
  e.returns,
  ◌>>=◌,
  t.returns,
  emit-cells (digits_of (length z.rest) - t.start) t.start e.out
      (omega (arith, e.same_length, t.high)) e.digits,
  zero-add,
)

-- On at most 25 bytes no loop of encode_base_58 leaves its array, and the text is the base-58
-- numeral of the bytes: a '1' for each zero byte in front, then the digits of the number with none
-- in front that is zero, at most 35 characters.
pub encode_base_58-IsNumeral :
    (bytes : List ℕ) → All IsByte bytes → length bytes ≤ 25 → IsNumeral bytes (encode_base_58 bytes)
encode_base_58-IsNumeral bytes h short = record {
  zeroes = z.zeroes;
  rest = z.rest;
  digits = cells e.out t.start (size - t.start);
  parts = z.parts;
  rest_leads = z.leads;
  spelt = run bytes z e t (omega (arith, lengths));
  value =
      subst (λ v. digits_value v (cells e.out t.start (size - t.start)) ≡ be_value 0 bytes)
        t.nothing
        (prefix_value-cells (size - t.start) t.start size e.out (omega (arith, t.high))
          ∙ e.spelt
          ∙ sym (be_value-replicate z.zeroes 0 z.rest)
          ∙ ap (λ (bs : List ℕ). be_value 0 bs) (sym z.parts));
  in_base = All-cells (size - t.start) t.start e.out e.digits;
  leads = Leads-cells (size - t.start) t.start e.out (λ lt. t.first (omega arith));
  short = omega (arith, lengths, length-cells (size - t.start) t.start e.out);
}
  where
    z : IsSkipped 0 bytes (skip_zeroes 0 bytes)
    z = skip_zeroes-IsSkipped 0 bytes

    lengths : z.zeroes + length z.rest ≤ 25
    lengths = omega (
      arith,
      ap (λ (xs : List ℕ). length xs) z.parts,
      length-append (replicate z.zeroes 0) z.rest,
      length-replicate {A = ℕ} z.zeroes 0,
      short,
    )

    size : ℕ
    size = digits_of (length z.rest)

    e : IsEncoded size (be_value 0 z.rest) (byte_loop size z.rest 0 (replicate 35 0))
    e =
        subst (λ v. IsEncoded size (be_value v z.rest) (byte_loop size z.rest 0 (replicate 35 0)))
          (prefix_value-replicate size 35)
          (byte_loop-IsEncoded size z.rest 0 (replicate 35 0) (omega (arith, lengths)) refl
            (All-replicate_zero 35) (All-drop_zeroes z.zeroes z.rest (rw z.parts at h))
            (omega arith)
            (rw (prefix_value-replicate size 35)
              (omega (arith, digits_room (length z.rest) (omega (arith, lengths)))))
            (λ n le. prefix_value-replicate n 35))

    t : IsTrimmed size (size - e.used) e.out (skip_digits e.used (size - e.used) e.out)
    t =
        skip_digits-IsTrimmed e.used (size - e.used) size e.out (omega (arith, e.fits))
          (omega (arith, e.same_length, lengths)) (e.clear (size - e.used) (omega (arith, e.fits)))
