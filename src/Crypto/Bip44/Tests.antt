-- ===== src/Crypto/Bip44/Tests.antt =====
-- The path that the wallet asks for, and one whose index is too large.
use ledger_nano.Base.{ℕ, ◌≡◌, refl, List, [], ◌∷◌, arith}
use ledger_nano.Base.Exec.{ok, Throws}
use ledger_nano.Crypto.Bip44.{
  IsServed, be4, get_bip44_path, ins_ret_wrong_data, get_bip44_path_served, get_bip44_path_refused,
}

abbrev request : ℕ → List ℕ
request index = be4 0x8000002c (be4 0x80001f90 (be4 0x80000000 (be4 0 (be4 index (1 ∷ 2 ∷ [])))))

abbrev zeroes : List ℕ
zeroes = 0 ∷ 0 ∷ 0 ∷ 0 ∷ 0 ∷ []

served : IsServed 0x8000002c 0x80001f90 0x80000000 0 9
served = record {
  purpose_44 = refl;
  coin_hardened = omega arith;
  account_hardened = omega arith;
  account_small = omega arith;
  change_bit = omega arith;
  index_small = omega arith;
}

not-IsServed : ¬ IsServed 0x8000002c 0x80001f90 0x80000000 0 1000
not-IsServed v = absurd (omega (arith, v.index_small))

get_bip44_path_served_example :
    get_bip44_path (request 9) zeroes ≡ ok tt (0x8000002c ∷ 0x80001f90 ∷ 0x80000000 ∷ 0 ∷ 9 ∷ [])
get_bip44_path_served_example =
    get_bip44_path_served 0x8000002c 0x80001f90 0x80000000 0 9 (omega arith) (omega arith)
      (omega arith) (omega arith) (omega arith) (1 ∷ 2 ∷ []) 0 0 0 0 0 served

get_bip44_path_refused_example : Throws ins_ret_wrong_data (get_bip44_path (request 1000) zeroes)
get_bip44_path_refused_example =
    get_bip44_path_refused 0x8000002c 0x80001f90 0x80000000 0 1000 (omega arith) (omega arith)
      (omega arith) (omega arith) (omega arith) (1 ∷ 2 ∷ []) 0 0 0 0 0 not-IsServed
