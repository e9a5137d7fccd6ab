-- ===== src/Crypto/Bip44.antt =====
-- `get_bip44_path` of src/skycoin-api/skycoin_crypto.c: it reads five big-endian words into
-- `global.getPublicKeyContext.bip44_path`, and throws INS_RET_WRONG_DATA on a path that it does
-- not serve. The state is that array; what was stored before a throw stays stored.
pub mod Sizes
mod Tests
use Prim.Native.Nat.{bit_and}
use ledger_nano.Base.{
  ℕ, zero, suc, ◌+◌, ◌-◌, ◌*◌, ◌/◌, ◌%◌, ◌^◌, ◌≤◌, ◌<◌, ◌≡◌, refl, ◌⊎◌, inl, inr, Bool, true, false,
  ◌&&◌, List, [], ◌∷◌, ◌++◌, arith, ltb, ◌==◌, if◌then◌else◌, length, get_elem?, set, u4be, IsU32,
  Option,
}
use ledger_nano.Base.Exec.{
  Outcome, ok, throw, fault, stuck, Exec, Throws, pure, raise, defined, modify, ◌>>=◌, ◌>>◌,
}
use mathlib.Core.Bool.{not}

abbrev pub bip44_path_len : ℕ
bip44_path_len = 5

abbrev pub ins_ret_wrong_data : ℕ
ins_ret_wrong_data = 0x6a80

-- `i < 3 && !((dataBuffer[0] >> 7) & 1)`.
abbrev wants_hardened : ℕ → ℕ → Bool
wants_hardened i first = ltb i 3 && not (first / 2 ^ 7 % 2 == 1)

-- The loop, with its rounds left, its index, and the bytes from `dataBuffer` on.
pub path_loop : ℕ → ℕ → List ℕ → Exec (List ℕ) (Unit {0})
path_loop (suc left) i (a ∷ b ∷ c ∷ d ∷ rest) =
    let next = path_loop left (i + 1) rest in
    if wants_hardened i a
    then raise ins_ret_wrong_data
    else do modify (λ path. set path i (u4be a b c d)); next
path_loop zero i bytes = pure tt
path_loop (suc left) i short = λ path. fault

-- Bit 31 cleared: `w & ~(1 << 31)` on a 32-bit word.
abbrev unhardened : ℕ → ℕ
unhardened w = w % 2 ^ 31

-- One check of a stored word, `if (test) THROW(INS_RET_WRONG_DATA)`.
abbrev reject_if : ℕ → (ℕ → Bool) → Exec (List ℕ) (Unit {0})
reject_if i test = do
  word ← λ path. defined (get_elem? path i) path
  if test word then raise ins_ret_wrong_data else pure tt

pub check_path : Exec (List ℕ) (Unit {0})
check_path = do
  reject_if 0 (λ w. not (unhardened w == 44))
  reject_if 2 (λ w. ltb 9 (unhardened w))
  reject_if 3 (λ w. ltb 0 (w - w % 2))
  reject_if 4 (λ w. ltb 999 w)

pub get_bip44_path : List ℕ → Exec (List ℕ) (Unit {0})
get_bip44_path data_buffer = do path_loop bip44_path_len 0 data_buffer; check_path

-- The paths that the app serves: m / 44' / coin' / account' / change / index.
pub record IsServed (purpose coin account change index : ℕ) : Type 0 where
  pub purpose_44 : purpose ≡ 2 ^ 31 + 44
  pub coin_hardened : 2 ^ 31 ≤ coin
  pub account_hardened : 2 ^ 31 ≤ account
  pub account_small : account < 2 ^ 31 + 10
  pub change_bit : change < 2
  pub index_small : index < 1000

-- The four bytes of a word, highest first, as a host sends them.
abbrev pub be4 : ℕ → List ℕ → List ℕ
be4 w rest = w / 2 ^ 24 ∷ w / 2 ^ 16 % 256 ∷ w / 2 ^ 8 % 256 ∷ w % 256 ∷ rest

u4be-be4 : (w : ℕ) → u4be (w / 2 ^ 24) (w / 2 ^ 16 % 256) (w / 2 ^ 8 % 256) (w % 256) ≡ w
u4be-be4 w = omega arith

-- A request of five words, whatever stands behind it, and whatever the array held before.
module _ (p0 p1 p2 p3 p4 : ℕ) (b0 : IsU32 p0) (b1 : IsU32 p1) (b2 : IsU32 p2) (b3 : IsU32 p3)
    (b4 : IsU32 p4) (rest : List ℕ) (q0 q1 q2 q3 q4 : ℕ) where
  abbrev request : List ℕ
  request = be4 p0 (be4 p1 (be4 p2 (be4 p3 (be4 p4 rest))))

  abbrev before : List ℕ
  before = q0 ∷ q1 ∷ q2 ∷ q3 ∷ q4 ∷ []

  -- Five 32-bit words, big-endian, that are a served path are stored word for word, whatever the
  -- array held before and whatever follows the words.
  pub get_bip44_path_served :
      IsServed p0 p1 p2 p3 p4 → get_bip44_path request before ≡ ok tt (p0 ∷ p1 ∷ p2 ∷ p3 ∷ p4 ∷ [])
  unfolding get_bip44_path path_loop check_path
  get_bip44_path_served v = ground arith

  -- Five 32-bit words that are not a served path (purpose 44', coin and account hardened, account
  -- below 10, change 0 or 1, index below 1000) are refused with INS_RET_WRONG_DATA, whatever the
  -- array held before and whatever follows the words.
  pub get_bip44_path_refused :
      ¬ IsServed p0 p1 p2 p3 p4 → Throws ins_ret_wrong_data (get_bip44_path request before)
  unfolding get_bip44_path path_loop check_path
  get_bip44_path_refused v = ground arith
