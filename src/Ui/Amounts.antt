-- ===== src/Ui/Amounts.antt =====
-- The text of an amount (src/ui/newTransaction.c), read back.
mod Tests
use ledger_nano.Base.{
  ℕ, zero, suc, ◌+◌, ◌-◌, ◌*◌, ◌/◌, ◌%◌, ◌^◌, ◌≤◌, ◌<◌, ◌≡◌, refl, sym, ap, ◌∙◌, List, [], ◌∷◌,
  ◌++◌, true, false, arith, length, take, ltb, ◌==◌, if◌then◌else◌, length-append, take_all, inl,
  inr, Bool-cases, ltb→lt, ltb→le, lt→ltb, ==_iff, ne→==,
}
use mathlib.Core.Path.{subst}
use native.Mathlib.Nat.{pow-suc, mul_comm, mul_assoc}
use mathlib.Core.List.{append_assoc}
use ledger_nano.Ui.Format.{decimal, show_int, six_digits, strip_zeros, amount_display, sky_coins}

-- The millionths behind the point, `left` digits of which are still to come.
unfoldable pub read_fraction : ℕ → ℕ → List ℕ → ℕ
read_fraction left acc [] = acc * 10 ^ left
read_fraction zero acc (c ∷ cs) = acc
read_fraction (suc left) acc (c ∷ cs) = read_fraction left (acc * 10 + (c - b'0')) cs

-- The amount that a text shows, in millionths of a coin.
unfoldable pub read_amount : ℕ → List ℕ → ℕ
read_amount acc [] = acc * sky_coins
read_amount acc (c ∷ cs) =
    let whole = read_amount (acc * 10 + (c - b'0')) cs in
    if c == b'.' then read_fraction 6 acc cs else whole

digit :
    (acc d : ℕ) (rest : List ℕ)
    → read_amount acc ((b'0' + d) ∷ rest) ≡ read_amount (acc * 10 + d) rest
unfolding read_amount
digit acc d rest =
    let e : acc * 10 + (b'0' + d - b'0') ≡ acc * 10 + d = omega arith in
    rw (ne→== (b'0' + d) b'.' (omega arith), e)

quotient_below : (n k : ℕ) → n < 10 ^ suc k → n / 10 < 10 ^ k
quotient_below n k h = omega (arith, subst (λ (t : ℕ). n < t) (pow-suc 10 k) h)

decimal-read :
    (fuel n : ℕ) (rest : List ℕ)
    → n < 10 ^ fuel
    → read_amount 0 (decimal fuel n ++ rest) ≡ read_amount n rest
unfolding decimal
decimal-read zero n rest low = let e : 0 ≡ n = omega arith in ap (λ t. read_amount t rest) e
decimal-read (suc fuel) n rest low = elim (Bool-cases (ltb n 10)) [
  | inl small ↦
      let e : 0 * 10 + n ≡ n = omega arith in
      rw small (digit 0 n rest ∙ ap (λ t. read_amount t rest) e)
  | inr large ↦
      let e : n / 10 * 10 + n % 10 ≡ n = omega arith in
      rw large (
        ap (λ t. read_amount 0 t) (append_assoc (decimal fuel (n / 10)) ((b'0' + n % 10) ∷ []) rest)
        ∙ decimal-read fuel (n / 10) ((b'0' + n % 10) ∷ rest) (quotient_below n fuel low)
        ∙ digit (n / 10) (n % 10) rest
        ∙ ap (λ t. read_amount t rest) e)
]

several : (k n : ℕ) → n < 10 ^ suc k → 10 ≤ n → 0 < k
several zero n low large = absurd (omega arith)
several (suc k) n low large = omega arith

length-decimal : (fuel k n : ℕ) → n < 10 ^ k → 0 < k → length (decimal fuel n) ≤ k
unfolding decimal
length-decimal zero k n low pos = omega arith
length-decimal (suc fuel) zero n low pos = absurd (omega arith)
length-decimal (suc fuel) (suc k) n low pos = elim (Bool-cases (ltb n 10)) [
  | inl small ↦ rw small (omega arith)
  | inr large ↦ rw large (
      omega (
        arith,
        length-append (decimal fuel (n / 10)) ((b'0' + n % 10) ∷ []),
        length-decimal fuel k (n / 10) (quotient_below n k low)
            (several k n low (ltb→le n 10 large)),
      ))
]

six_digits-read :
    (acc m : ℕ) → m < sky_coins → read_fraction 6 acc (six_digits m) ≡ acc * sky_coins + m
unfolding read_fraction six_digits
six_digits-read acc m h = omega arith

shifted : (acc left c : ℕ) → c ≡ b'0' → acc * 10 ^ suc left ≡ (acc * 10 + (c - b'0')) * 10 ^ left
shifted acc left c h =
    let e : acc * 10 + (c - b'0') ≡ acc * 10 = omega arith in
    ap (λ t. acc * t) (pow-suc 10 left ∙ mul_comm (10 ^ left) 10)
    ∙ sym (mul_assoc acc 10 (10 ^ left))
    ∙ ap (λ t. t * 10 ^ left) (sym e)

length-six_digits : (n : ℕ) → length (six_digits n) ≡ 6
unfolding six_digits
length-six_digits n = refl

strip_zeros-read :
    (left acc : ℕ) (cs : List ℕ)
    → length cs ≤ left
    → read_fraction left acc (strip_zeros cs) ≡ read_fraction left acc cs
unfolding strip_zeros read_fraction
strip_zeros-read left acc [] h = refl
strip_zeros-read zero acc (c ∷ cs) h = absurd (omega arith)
strip_zeros-read (suc left) acc (c ∷ cs) h =
    stripped (strip_zeros cs) (strip_zeros-read left (acc * 10 + (c - b'0')) cs (omega arith))
  where
    stripped :
        (ds : List ℕ)
        → read_fraction left (acc * 10 + (c - b'0')) ds
          ≡ read_fraction left (acc * 10 + (c - b'0')) cs
        → read_fraction
            (suc left)
            acc
            (elim ds [ [] ↦ if c == b'0' then [] else c ∷ [] | d ∷ ds' ↦ c ∷ d ∷ ds' ])
          ≡ read_fraction left (acc * 10 + (c - b'0')) cs
    stripped [] e = elim (Bool-cases (c == b'0')) [
      | inl zero_digit ↦ rw zero_digit (shifted acc left c ((==_iff c b'0').0 zero_digit) ∙ e)
      | inr other ↦ rw other e
    ]
    stripped (d ∷ ds) e = e

-- No zero in front of the point is stripped.
strip_zeros-append :
    (whole : List ℕ) (d : ℕ) (ds cs : List ℕ)
    → strip_zeros cs ≡ d ∷ ds
    → strip_zeros (whole ++ cs) ≡ whole ++ d ∷ ds
unfolding strip_zeros
strip_zeros-append [] d ds cs h = h
strip_zeros-append (c ∷ []) d ds cs h = rw h refl
strip_zeros-append (c ∷ c' ∷ whole) d ds cs h = rw (strip_zeros-append (c' ∷ whole) d ds cs h) refl

point : (cs : List ℕ) → strip_zeros (b'.' ∷ cs) ≡ b'.' ∷ strip_zeros cs
unfolding strip_zeros
point cs = stripped (strip_zeros cs)
  where
    stripped :
        (ds : List ℕ)
        → (elim ds [ [] ↦ if b'.' == b'0' then [] else b'.' ∷ [] | d ∷ ds' ↦ b'.' ∷ d ∷ ds' ])
          ≡ b'.' ∷ ds
    stripped [] = refl
    stripped (d ∷ ds) = refl

-- The text, where nothing is cut and the number of coins is no negative `int`.
amount_display-text :
    (coin_num : ℕ)
    → coin_num < 10 ^ 14
    → amount_display coin_num
      ≡ decimal 10 (coin_num / sky_coins)
        ++ (b'.' ∷ strip_zeros (six_digits (coin_num % sky_coins)))
unfolding amount_display show_int
amount_display-text coin_num low =
    let whole : ℕ = coin_num / sky_coins in
    let word : whole % 2 ^ 32 ≡ whole = omega arith in
    let part : List ℕ = six_digits (coin_num % sky_coins) in
    rw (word, lt→ltb whole (2 ^ 31) (omega arith))
      (ap (λ t. strip_zeros t)
          (take_all 15 (decimal 10 whole ++ (b'.' ∷ part)) (
            omega (
              arith,
              length-append (decimal 10 whole) (b'.' ∷ part),
              length-decimal 10 8 whole (omega arith) (omega arith),
              length-six_digits (coin_num % sky_coins),
            )))
        ∙ strip_zeros-append (decimal 10 whole) b'.' (strip_zeros part) (b'.' ∷ part) (point part))

-- Below 10^14, a hundred million coins, the text of an amount, read as a decimal number of coins
-- with at most six places, is the amount: nothing is cut, and only zeros behind the point are
-- stripped.
pub amount_display-read :
    (coin_num : ℕ) → coin_num < 10 ^ 14 → read_amount 0 (amount_display coin_num) ≡ coin_num
unfolding read_amount
amount_display-read coin_num low =
    let whole : ℕ = coin_num / sky_coins in
    let part : ℕ = coin_num % sky_coins in
    let e : whole * sky_coins + part ≡ coin_num = omega arith in
    ap (λ t. read_amount 0 t) (amount_display-text coin_num low)
    ∙ decimal-read 10 whole (b'.' ∷ strip_zeros (six_digits part)) (omega arith)
    ∙ strip_zeros-read 6 whole (six_digits part) (omega (arith, length-six_digits part))
    ∙ six_digits-read whole part (omega arith)
    ∙ e
