-- ===== src/Txn/Answers.antt =====
-- One input signed, and signatures returned, on the toy device.
use ledger_nano.Base.{ℕ, ◌≡◌, refl, List, [], ◌∷◌, ◌++◌, arith, replicate}
use ledger_nano.Base.Exec.{throw}
use ledger_nano.Sdk.Toy.{toy, toy_laws}
use ledger_nano.Device.{Device, txn_ret_sigs, txn_partial, txn_finished}
use ledger_nano.Device.Toy.{toy_device}
use ledger_nano.Crypto.Signature.Convert.{sign-tlv}
use ledger_nano.Txn.Sigs.{elem_ret_sigs, elem_compute_sigs}
use ledger_nano.Txn.Signing.{AreSignatures, elem_compute_sigs-signs}
use ledger_nano.Txn.Replied.{answered, elem_ret_sigs-finished, elem_ret_sigs-partial}

abbrev cell : List ℕ
cell = replicate 32 7 ++ (5 ∷ 0 ∷ 0 ∷ 0 ∷ replicate 29 0)

abbrev signature : List ℕ
signature = (replicate 32 1 ++ replicate 32 2) ++ 1 ∷ []

abbrev unused : List (List ℕ)
unused = replicate 16 (replicate 65 0)

abbrev with_entries : ℕ → List (List ℕ) → Device (List ℕ)
with_entries in_num cells = record toy_device {
  bip44_path = 44 ∷ 8000 ∷ 0 ∷ 0 ∷ 9 ∷ [];
  ctx = record toy_device.ctx {
    txn = record toy_device.ctx.txn { in_num = in_num; sig_input = cells };
  };
}

one_signature :
    AreSignatures (toy []) (toy_laws []) 44 8000 0 0 (replicate 32 0) (cell ∷ []) (signature ∷ [])
one_signature = (
  record {
    cell_size = refl;
    size = refl;
    signed =
        sign-tlv (toy []) (44 ∷ 8000 ∷ 0 ∷ 0 ∷ 5 ∷ []) (replicate 32 64) [] (replicate 32 1) []
          (replicate 32 2) refl refl refl;
  },
  tt,
)

elem_compute_sigs-signs_example :
    elem_compute_sigs (toy []) (with_entries 1 (cell ∷ unused))
    ≡ elem_ret_sigs (toy []) (record (with_entries 1 (cell ∷ unused)) {
      ctx = record (with_entries 1 (signature ∷ unused)).ctx { txn_state = txn_ret_sigs };
    })
elem_compute_sigs-signs_example =
    elem_compute_sigs-signs (toy []) (toy_laws []) 44 8000 0 0 (with_entries 1 (cell ∷ unused)) 9
      (cell ∷ []) (signature ∷ []) unused refl refl refl one_signature

abbrev signatures : List (List ℕ)
signatures = replicate 3 signature

elem_ret_sigs-finished_example :
    elem_ret_sigs (toy []) (with_entries 3 (signatures ++ unused))
    ≡ throw txn_finished (answered (toy []) (with_entries 3 (signatures ++ unused)) signatures)
elem_ret_sigs-finished_example =
    elem_ret_sigs-finished (toy []) (with_entries 3 (signatures ++ unused)) [] signatures unused
      refl refl refl (refl, (refl, (refl, tt))) (omega arith) (omega arith) (omega arith) refl

elem_ret_sigs-partial_example :
    elem_ret_sigs (toy []) (with_entries 4 (signatures ++ unused))
    ≡ throw txn_partial (answered (toy []) (with_entries 4 (signatures ++ unused)) signatures)
elem_ret_sigs-partial_example =
    elem_ret_sigs-partial (toy []) (with_entries 4 (signatures ++ unused)) [] signatures unused refl
      refl refl (refl, (refl, (refl, tt))) (omega arith) (omega arith) refl (omega arith)
