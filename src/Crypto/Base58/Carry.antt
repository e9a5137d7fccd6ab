-- ===== src/Crypto/Base58/Carry.antt =====
-- One byte: the `for` loop multiplies the number in `b58` by 256 and adds the carry.
use native.Mathlib.Nat.{pow-suc}
use ledger_nano.Base.{
  ℕ, zero, suc, ◌+◌, ◌*◌, ◌/◌, ◌%◌, ◌^◌, ◌≤◌, ◌<◌, ◌≡◌, refl, ◌∙◌, inl, inr, List, Option, some,
  true, false, ◌||◌, arith, ltb, length, get_or, set, All, length-set, get_or-set_self,
  get_or-set_ne, get_elem?-eq-get_or, Bool-cases,
}
use ledger_nano.Crypto.Base58.{carry_loop}
use ledger_nano.Crypto.Base58.Digits.{
  IsDigit, prefix_value, prefix_value-suc, prefix_value-set, prefix_value-zero_le, All-set,
}

-- Cells below `size - len` hold nothing.
abbrev pub IsClear : ℕ → ℕ → List ℕ → Type 0
IsClear size len b = (n : ℕ) → n + len ≤ size → prefix_value n b ≡ 0

-- `result` is a normal end of the loop over the `j` cells of `b`.
pub record IsCarried (size j carry : ℕ) (b : List ℕ) (result : Option (ℕ × List ℕ)) : Type 0 where
  pub used : ℕ
  pub out : List ℕ
  pub returns : result ≡ some (used, out)
  pub value : prefix_value j out ≡ 256 * prefix_value j b + carry
  pub same_length : length out ≡ length b
  pub digits : All IsDigit out
  pub above : (k : ℕ) → j ≤ k → get_or out k 0 ≡ get_or b k 0
  pub fits : used ≤ size
  pub clear : IsClear size used out

carry_loop_done :
    (j carry i len : ℕ) (b : List ℕ)
    → (ltb 0 carry || ltb i len) ≡ false
    → carry_loop (suc j) carry i len b ≡ some (i, b)
unfolding carry_loop
carry_loop_done j carry i len b h = rw (carry_loop, h)

carry_loop_round :
    (j carry i len : ℕ) (b : List ℕ)
    → (ltb 0 carry || ltb i len) ≡ true
    → j < length b
    → carry_loop (suc j) carry i len b
      ≡ carry_loop j
          ((carry + 256 * get_or b j 0) / 58)
          (i + 1)
          len
          (set b j ((carry + 256 * get_or b j 0) % 58))
unfolding carry_loop
carry_loop_round j carry i len b h lt = rw (carry_loop, h, get_elem?-eq-get_or b j 0 lt)

-- What the shorter loop does after one round is what the loop does.
IsCarried-round :
    (size j carry : ℕ) (b : List ℕ) {result : Option (ℕ × List ℕ)}
    → j < length b
    → let sum = carry + 256 * get_or b j 0 in
      IsCarried size j (sum / 58) (set b j (sum % 58)) result
      → IsCarried size (suc j) carry b result
IsCarried-round size j carry b lt rest =
    let sum : ℕ = carry + 256 * get_or b j 0 in
    record {
      used = rest.used;
      out = rest.out;
      returns = rest.returns;
      value = omega (
        arith,
        rest.value,
        rest.above j,
        prefix_value-suc j rest.out,
        prefix_value-suc j b,
        prefix_value-set j b j (sum % 58),
        get_or-set_self b j (sum % 58) 0 lt,
      );
      same_length = rest.same_length ∙ length-set b j (sum % 58);
      digits = rest.digits;
      above = λ k h. rest.above k (omega arith) ∙ get_or-set_ne b j k (sum % 58) 0 (omega arith);
      fits = rest.fits;
      clear = rest.clear;
    }

module _ (size len : ℕ) where
  -- With room for the product the loop leaves no carry, and the cells that it did not reach are
  -- clear.
  pub carry_loop-IsCarried :
      (j carry i : ℕ) (b : List ℕ)
      → i + j ≡ size
      → j ≤ length b
      → All IsDigit b
      → 256 * prefix_value j b + carry < 58 ^ j
      → ((n : ℕ) → n ≤ j → n + len ≤ size → prefix_value n b ≡ 0)
      → IsCarried size j carry b (carry_loop j carry i len b)
  carry_loop-IsCarried zero carry i b e h d lt clear = record {
    used = i;
    out = b;
    returns = unfold carry_loop in refl;
    value = unfold prefix_value in omega arith;
    same_length = refl;
    digits = d;
    above = λ k le. refl;
    fits = omega arith;
    clear = λ n le. prefix_value-zero_le 0 n b (omega arith) (unfold prefix_value in refl);
  }
  carry_loop-IsCarried (suc j) carry i b e h d lt clear =
      elim (Bool-cases (ltb 0 carry || ltb i len)) [
        | inl more ↦
            let sum : ℕ = carry + 256 * get_or b j 0 in
            rw (carry_loop_round j carry i len b more h) (
              IsCarried-round size j carry b h (
                carry_loop-IsCarried j (sum / 58) (i + 1) (set b j (sum % 58)) (omega arith)
                  (rw length-set (omega arith)) (All-set b j (sum % 58) (omega arith) d)
                  (omega (
                    arith,
                    lt,
                    pow-suc 58 j,
                    prefix_value-suc j b,
                    prefix_value-set j b j (sum % 58),
                  ))
                  (λ n le fit. prefix_value-set n b j (sum % 58) le ∙ clear n (omega arith) fit)))
        | inr done ↦ rw (carry_loop_done j carry i len b done) record {
          used = i;
          out = b;
          returns = refl;
          value = omega (arith, clear (suc j), stopped done);
          same_length = refl;
          digits = d;
          above = λ k le. refl;
          fits = omega arith;
          clear = λ n le. clear n (omega arith) (omega (arith, stopped done));
        }
      ]
    where
      stopped : (ltb 0 carry || ltb i len) ≡ false → (carry ≡ 0) × (len ≤ i)
      stopped h = ground arith
