-- ===== src/Main/Tests.antt =====
-- Replies of the main loop, at a concrete device.
use ledger_nano.Base.{ℕ, List, ◌++◌, replicate, ◌≡◌, refl, [], ◌∷◌, some, true, arith}
use ledger_nano.Sdk.Toy.{toy, toy_laws}
use ledger_nano.Device.{Device, txn_ret_sigs}
use ledger_nano.Device.Toy.{toy_device}
use ledger_nano.Base.Exec.{◌>>◌}
use ledger_nano.Ui.Events.{released_left, released_right}
use ledger_nano.Apdu.Button.{transaction_screen_button}
use ledger_nano.Apdu.SignTxn.{handle_sign_txn}
use ledger_nano.Main.Cancel.{transaction_screen_button-cancelled}
use ledger_nano.Txn.Runs.{
  input, output, first, shown, IsFresh-first, CanRead-shown, one_and_one, Session-shown,
}
use ledger_nano.Txn.Whole.{hashed_txn}
use ledger_nano.Main.Approved.{SendsHash, transaction_screen_button-SendsHash}
use ledger_nano.Main.Signatures.{main_round-signatures}
use ledger_nano.Apdu.Exchange.{io_async_exchange_error}
use ledger_nano.Crypto.Bip44.{be4}
use ledger_nano.Main.{cla, main_round}
use ledger_nano.Main.Replies.{messages, io_async_exchange_error-messages}

io_async_exchange_error-messages_example :
    messages (io_async_exchange_error toy_device) ≡ some ((0x06 ∷ 0xb0 ∷ []) ∷ [])
io_async_exchange_error-messages_example = io_async_exchange_error-messages toy_device (omega arith)

abbrev request : ℕ → ℕ → List ℕ
request ins index =
    cla ∷ ins ∷ 0 ∷ 0 ∷ 20 ∷ be4 0x8000002c (be4 0x80001f90 (be4 0x80000000 (be4 0 (be4 index []))))

abbrev returning_device : Device (List ℕ)
returning_device = record toy_device {
  info_text = replicate 16 0;
  ctx = record toy_device.ctx {
    initialized = true;
    txn_state = txn_ret_sigs;
    txn = record toy_device.ctx.txn {
      in_num = 2;
      sig_input = replicate 2 (replicate 65 7) ++ replicate 18 (replicate 65 0);
    };
  };
}

main_round-signatures_example :
    messages (main_round (toy []) (0x80 ∷ 0x10 ∷ 1 ∷ 0 ∷ 0 ∷ []) returning_device)
    ≡ some ((replicate 130 7 ++ (0x90 ∷ 0 ∷ [])) ∷ [])
main_round-signatures_example =
    main_round-signatures (toy []) returning_device 0 0 [] [] (replicate 2 (replicate 65 7))
      (replicate 18 (replicate 65 0)) refl refl refl refl (refl, (refl, tt)) (omega arith)
      (omega arith) refl (omega arith) (omega arith) (omega arith)

transaction_screen_button-cancelled_example :
    messages (
      (transaction_screen_button (toy []) released_left >> handle_sign_txn (toy []) 0 5 4)
        returning_device)
    ≡ some ((0x06 ∷ 0xb0 ∷ []) ∷ (0x06 ∷ 0xb0 ∷ []) ∷ [])
transaction_screen_button-cancelled_example =
    transaction_screen_button-cancelled (toy []) returning_device 5 4 refl (omega arith)
      (omega arith)

transaction_screen_button-SendsHash_example :
    SendsHash
      (toy [])
      shown
      (input ∷ [])
      ((toy_laws []).sha256 (hashed_txn (input ∷ []) (output ∷ [])))
      (transaction_screen_button (toy []) released_right shown)
transaction_screen_button-SendsHash_example =
    transaction_screen_button-SendsHash (toy []) (toy_laws []) first shown IsFresh-first
      CanRead-shown refl refl (omega arith) (omega arith) (omega arith) (input ∷ []) (output ∷ [])
      one_and_one Session-shown
