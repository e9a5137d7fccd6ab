-- ===== src/Txn/Serial.antt =====
-- The bytes of a transaction as the host sends them: `to_le`, `Input.serialized`,
-- `Output.serialized` and `txn_in_out` of scripts/generating_txn.py. The script writes hexadecimal
-- text; here a text of 2 n digits is its n bytes.
use mathlib.Core.Path.{subst}
use native.Mathlib.Nat.{pow-suc, mul_comm}
use mathlib.Core.List.{append_assoc, append-nil}
use ledger_nano.Txn.Buffer.{u8le_at}
use ledger_nano.Txn.Reader.{output_of}
use ledger_nano.Base.{
  u4le_at, take-append, get_or, lt→ltb, ℕ, zero, suc, ◌+◌, ◌-◌, ◌*◌, ◌/◌, ◌%◌, ◌^◌, ◌≤◌, ◌<◌, ◌≡◌,
  refl, sym, ap, ◌∙◌, List, [], ◌∷◌, ◌++◌, arith, ltb, ltb→lt, ltb→le, if◌then◌else◌, length,
  replicate, length-append, length-replicate, inl, inr, Bool-cases,
}

-- The bytes of a number, lowest first, and no more than it needs: at least one. The fuel is above
-- the number.
unfoldable pub low_bytes : ℕ → ℕ → List ℕ
low_bytes zero num = []
low_bytes (suc fuel) num =
    let more = low_bytes fuel (num / 256) in (num % 256) ∷ (if ltb num 256 then [] else more)

-- `to_le`: a number that needs more bytes keeps them.
unfoldable pub to_le : ℕ → ℕ → List ℕ
to_le num byte_number =
    let bytes = low_bytes (num + 1) num in bytes ++ replicate (byte_number - length bytes) 0

pub record Input : Type 0 where
  pub uxid : List ℕ
  pub address_index : ℕ

pub record Output : Type 0 where
  pub addr : List ℕ
  pub amount : ℕ
  pub fee : ℕ

unfoldable pub serialized_input : Input → List ℕ
serialized_input i = i.uxid ++ to_le i.address_index 4

unfoldable pub serialized_output : Output → List ℕ
serialized_output o = o.addr ++ (to_le o.amount 8 ++ to_le o.fee 8)

-- `"".join(map(lambda x: x.serialized(), xs))`.
abbrev pub join : {A : Type 0} → (A → List ℕ) → List A → List ℕ
join f [] = []
join f (x ∷ xs) = f x ++ join f xs

pub join-append :
    {A : Type 0} (f : A → List ℕ) (xs ys : List A) → join f (xs ++ ys) ≡ join f xs ++ join f ys
join-append f [] ys = refl
join-append f (x ∷ xs) ys =
    ap (λ t. f x ++ t) (join-append f xs ys) ∙ sym (append_assoc (f x) (join f xs) (join f ys))

unfoldable pub txn_in_out : List Input → List Output → List ℕ
txn_in_out inputs outputs =
    to_le (length inputs) 4
    ++ (join serialized_input inputs
        ++ (to_le (length outputs) 4 ++ join serialized_output outputs))

-- The number that bytes spell, lowest first.
pub le_value : List ℕ → ℕ
le_value [] = 0
le_value (b ∷ bs) = b + 256 * le_value bs

le_value-append_zeros : (bs : List ℕ) (n : ℕ) → le_value (bs ++ replicate n 0) ≡ le_value bs
unfolding le_value
le_value-append_zeros [] zero = refl
le_value-append_zeros [] (suc n) = omega (arith, le_value-append_zeros [] n)
le_value-append_zeros (b ∷ bs) n = omega (arith, le_value-append_zeros bs n)

le_value-low_bytes : (fuel num : ℕ) → num < fuel → le_value (low_bytes fuel num) ≡ num
unfolding le_value low_bytes
le_value-low_bytes zero num h = absurd (omega arith)
le_value-low_bytes (suc fuel) num h = elim (Bool-cases (ltb num 256)) [
  | inl small ↦ rw small (omega (arith, ltb→lt num 256 small))
  | inr large ↦ rw large (omega (arith, ltb→le num 256 large, le_value-low_bytes fuel (num / 256)))
]

quotient_below : (n num : ℕ) → num < 256 ^ suc n → num / 256 < 256 ^ n
quotient_below n num h =
    omega (arith, subst (λ (k : ℕ). num < k) (pow-suc 256 n ∙ mul_comm (256 ^ n) 256) h)

-- `n` bytes are enough for a number below `256 ^ n`.
length-low_bytes :
    (n fuel num : ℕ) → num < 256 ^ suc n → num < fuel → length (low_bytes fuel num) ≤ suc n
unfolding low_bytes
length-low_bytes n zero num h f = absurd (omega arith)
length-low_bytes zero (suc fuel) num h f = rw (lt→ltb num 256 h) (omega arith)
length-low_bytes (suc n) (suc fuel) num h f = elim (Bool-cases (ltb num 256)) [
  | inl small ↦ rw small (omega arith)
  | inr large ↦ rw large (
      omega (
        arith,
        ltb→le num 256 large,
        length-low_bytes n fuel (num / 256) (quotient_below (suc n) num h)
            (omega (arith, ltb→le num 256 large)),
      ))
]

-- `to_le` loses nothing: the bytes spell the number.
pub le_value-to_le : (num n : ℕ) → le_value (to_le num n) ≡ num
unfolding to_le
le_value-to_le num n =
    le_value-append_zeros (low_bytes (num + 1) num) (n - length (low_bytes (num + 1) num))
    ∙ le_value-low_bytes (num + 1) num (omega arith)

pub length-to_le : (num n : ℕ) → num < 256 ^ suc n → length (to_le num (suc n)) ≡ suc n
unfolding to_le
length-to_le num n h = omega (
  arith,
  length-low_bytes n (num + 1) num h (omega arith),
  length-append (low_bytes (num + 1) num) (replicate (suc n - length (low_bytes (num + 1) num)) 0),
  length-replicate {A = ℕ} (suc n - length (low_bytes (num + 1) num)) 0,
)

-- U4LE and U8LE read such bytes.
u4le_at-le_value : (bs : List ℕ) → length bs ≡ 4 → u4le_at bs 0 ≡ le_value bs
unfolding le_value
u4le_at-le_value (a ∷ b ∷ c ∷ d ∷ []) h = omega arith
u4le_at-le_value [] h = absurd (omega arith)
u4le_at-le_value (a ∷ []) h = absurd (omega arith)
u4le_at-le_value (a ∷ b ∷ []) h = absurd (omega arith)
u4le_at-le_value (a ∷ b ∷ c ∷ []) h = absurd (omega arith)
u4le_at-le_value (a ∷ b ∷ c ∷ d ∷ e ∷ bs) h = absurd (omega arith)

pub u4le_at-to_le : (num : ℕ) → num < 256 ^ 4 → u4le_at (to_le num 4) 0 ≡ num
u4le_at-to_le num h = u4le_at-le_value (to_le num 4) (length-to_le num 3 h) ∙ le_value-to_le num 4

u8le_at-le_value : (bs back : List ℕ) → length bs ≡ 8 → u8le_at (bs ++ back) 0 ≡ le_value bs
unfolding le_value
u8le_at-le_value (a ∷ b ∷ c ∷ d ∷ e ∷ f ∷ g ∷ h ∷ []) back l = omega arith
u8le_at-le_value [] back h = absurd (omega arith)
u8le_at-le_value (a ∷ []) back h = absurd (omega arith)
u8le_at-le_value (a ∷ b ∷ []) back h = absurd (omega arith)
u8le_at-le_value (a ∷ b ∷ c ∷ []) back h = absurd (omega arith)
u8le_at-le_value (a ∷ b ∷ c ∷ d ∷ []) back h = absurd (omega arith)
u8le_at-le_value (a ∷ b ∷ c ∷ d ∷ e ∷ []) back h = absurd (omega arith)
u8le_at-le_value (a ∷ b ∷ c ∷ d ∷ e ∷ f ∷ []) back h = absurd (omega arith)
u8le_at-le_value (a ∷ b ∷ c ∷ d ∷ e ∷ f ∷ g ∷ []) back h = absurd (omega arith)
u8le_at-le_value (a ∷ b ∷ c ∷ d ∷ e ∷ f ∷ g ∷ h ∷ i ∷ bs) back l = absurd (omega arith)

-- A word behind other bytes.
get_or-append :
    (front bs : List ℕ) (j i : ℕ) → j ≡ length front + i → get_or (front ++ bs) j 0 ≡ get_or bs i 0
get_or-append [] bs j i h = let e : j ≡ i = omega arith in rw e
get_or-append (x ∷ front) bs zero i h = absurd (omega arith)
get_or-append (x ∷ front) bs (suc j) i h = get_or-append front bs j i (omega arith)

u8le_at-append :
    (front bs : List ℕ) (off : ℕ) → off ≡ length front → u8le_at (front ++ bs) off ≡ u8le_at bs 0
u8le_at-append front bs off h = rw (
  get_or-append front bs (off + 4) 4 (omega arith),
  get_or-append front bs (off + 4 + 1) 5 (omega arith),
  get_or-append front bs (off + 4 + 2) 6 (omega arith),
  get_or-append front bs (off + 4 + 3) 7 (omega arith),
  get_or-append front bs off 0 (omega arith),
  get_or-append front bs (off + 1) 1 (omega arith),
  get_or-append front bs (off + 2) 2 (omega arith),
  get_or-append front bs (off + 3) 3 (omega arith),
)

-- What the host can send: sizes of the parts, and numbers that fit their words.
pub record IsInput (i : Input) : Type 0 where
  pub uxid_size : length i.uxid ≡ 32
  pub index_fits : i.address_index < 256 ^ 4

pub record IsOutput (o : Output) : Type 0 where
  pub addr_size : length o.addr ≡ 21
  pub amount_fits : o.amount < 256 ^ 8
  pub fee_fits : o.fee < 256 ^ 8

pub length-serialized_input : (i : Input) → IsInput i → length (serialized_input i) ≡ 36
unfolding serialized_input
length-serialized_input i v = omega (
  arith,
  length-append i.uxid (to_le i.address_index 4),
  length-to_le i.address_index 3 v.index_fits,
  v.uxid_size,
)

pub length-serialized_output : (o : Output) → IsOutput o → length (serialized_output o) ≡ 37
unfolding serialized_output
length-serialized_output o v = omega (
  arith,
  length-append o.addr (to_le o.amount 8 ++ to_le o.fee 8),
  length-append (to_le o.amount 8) (to_le o.fee 8),
  length-to_le o.amount 7 v.amount_fits,
  length-to_le o.fee 7 v.fee_fits,
  v.addr_size,
)

-- The app reads back the output that the host wrote.
pub output_of-serialized_output :
    (o : Output)
    → IsOutput o
    → output_of (serialized_output o)
      ≡ record { address = o.addr; coin_num = o.amount; hour_num = o.fee }
unfolding serialized_output
output_of-serialized_output o v =
    rw (take-append 21 o.addr (to_le o.amount 8 ++ to_le o.fee 8) (sym v.addr_size), coins, hours)
  where
    coins : u8le_at (o.addr ++ (to_le o.amount 8 ++ to_le o.fee 8)) 21 ≡ o.amount
    coins =
        u8le_at-append o.addr (to_le o.amount 8 ++ to_le o.fee 8) 21 (sym v.addr_size)
        ∙ u8le_at-le_value (to_le o.amount 8) (to_le o.fee 8)
            (length-to_le o.amount 7 v.amount_fits)
        ∙ le_value-to_le o.amount 8

    hours : u8le_at (o.addr ++ (to_le o.amount 8 ++ to_le o.fee 8)) 29 ≡ o.fee
    hours =
        rw (← append_assoc o.addr (to_le o.amount 8) (to_le o.fee 8), ← append-nil (to_le o.fee 8))
          (u8le_at-append (o.addr ++ to_le o.amount 8) (to_le o.fee 8 ++ []) 29 (
              omega (
                arith,
                v.addr_size,
                length-append o.addr (to_le o.amount 8),
                length-to_le o.amount 7 v.amount_fits,
              ))
            ∙ u8le_at-le_value (to_le o.fee 8) [] (length-to_le o.fee 7 v.fee_fits)
            ∙ le_value-to_le o.fee 8)
