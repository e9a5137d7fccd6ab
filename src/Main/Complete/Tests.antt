-- ===== src/Main/Complete/Tests.antt =====
-- The transaction of Txn/Runs approved, and its one signature fetched, on the toy device.
use ledger_nano.Base.{ℕ, ◌≡◌, refl, List, [], ◌∷◌, ◌++◌, some, arith, replicate, map}
use ledger_nano.Base.Exec.{◌>>◌}
use ledger_nano.Sdk.Toy.{toy, toy_laws}
use ledger_nano.Crypto.Signature.Convert.{sign-tlv}
use ledger_nano.Txn.Runs.{
  input, output, first, shown, IsFresh-first, CanRead-shown, one_and_one, Session-shown,
}
use ledger_nano.Txn.Whole.{hashed_txn}
use ledger_nano.Ui.Events.{released_right}
use ledger_nano.Apdu.Button.{transaction_screen_button}
use ledger_nano.Main.Replies.{messages}
use ledger_nano.Main.Batches.{Ask, ask_packet, batches, run_rounds}
use ledger_nano.Main.Complete.{Signs, transaction_screen_button-signatures}
use ledger_nano.System.Invariant.{Invariant}

Invariant-shown : Invariant 286 shown
Invariant-shown = (
  record {
    path_size = refl;
    address_size = refl;
    copy_size = refl;
    line_1_size = refl;
    line_2_size = refl;
    current_size = refl;
    display_size = refl;
    out_size = refl;
    amount_size = refl;
    apdu_size = refl;
    info_size = refl;
  },
  record {
    buffer = refl;
    inner_hash = refl;
    entries = refl;
    cells = CanRead-shown.ready.cells;
    curr_obj = omega arith;
    waits = omega arith;
  },
)

abbrev digest : List ℕ
digest = (toy_laws []).sha256 (hashed_txn (input ∷ []) (output ∷ []))

abbrev signature : List ℕ
signature = (replicate 32 1 ++ replicate 32 2) ++ 1 ∷ []

signs : Signs (toy []) (toy_laws []) 0 0 0 0 digest input signature
signs = record {
  size = refl;
  signed =
      sign-tlv (toy []) (0 ∷ 0 ∷ 0 ∷ 0 ∷ 5 ∷ []) (replicate 32 64) [] (replicate 32 1) []
        (replicate 32 2) refl refl refl;
}

abbrev ask : Ask
ask = record { p2 = 0; lc = 0; body = [] }

transaction_screen_button-signatures_example :
    messages (
      (transaction_screen_button (toy []) released_right
          >> run_rounds (toy []) (map ask_packet (ask ∷ [])))
        shown)
    ≡ some (([] ++ (digest ++ (0x90 ∷ 0 ∷ [])) ∷ []) ++ batches 1 (signature ∷ []))
transaction_screen_button-signatures_example =
    transaction_screen_button-signatures (toy []) (toy_laws []) 286 first shown IsFresh-first
      CanRead-shown Invariant-shown (omega arith) refl refl 0 0 0 0 0 refl (input ∷ [])
      (output ∷ []) one_and_one Session-shown (signature ∷ []) ask [] (signs, tt) (omega arith, tt)
      (omega arith) (omega arith)
