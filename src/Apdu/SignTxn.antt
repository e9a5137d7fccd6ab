-- ===== src/Apdu/SignTxn.antt =====
-- `handleSignTxn` of src/apdu_handlers.c. `TXN_OUT`, which it tests a `txn_ui_state_t` for, has the
-- number of TXN_APPROVE_OUT.
use mathlib.Core.Bool.{not}
use ledger_nano.Base.{ℕ, Bool, true, false, ◌&&◌, ◌||◌, ltb, ◌==◌, if◌then◌else◌}
use ledger_nano.Base.Exec.{Exec, gets, modify, ◌>>=◌, ◌>>◌}
use ledger_nano.Sdk.{Sdk}
use ledger_nano.Device.{
  Device, state_code, transaction_screen, txn_out, txn_start_out, txn_ret_sigs, txn_compute_sigs,
  txn_partial, txn_finished, txn_error, put_ctx,
}
use ledger_nano.Txn.Loop.{txn_next_elem}
use ledger_nano.Ui.Screens.{
  ux_display, show_message, go_to_transaction_screen, you_received, new_transaction, error_happened,
  success,
}
use ledger_nano.Ui.Approval.{prepare_output_approval}
use ledger_nano.Apdu.Exchange.{io_async_exchange_ok, io_async_exchange_error}

-- `ctx->initialized = initialized`.
unfoldable pub set_initialized : {Sha : Type 0} → Bool → Exec (Device Sha) (Unit {0})
set_initialized b = do c ← gets (λ s. s.ctx); put_ctx (record c { initialized = b })

-- `io_async_exchange_error(); show_message("Error happened")`, behind the reset.
unfoldable pub refuse : {Sha : Type 0} → Exec (Device Sha) (Unit {0})
unfolding set_initialized
refuse = do set_initialized false; io_async_exchange_error; show_message error_happened 15

module _ (sdk : Sdk) where
  open sdk use {Sha256}

  -- `switch (txn_next_elem(ctx))`.
  unfoldable pub sign_txn_reply : ℕ → Exec (Device Sha256) (Unit {0})
  unfolding set_initialized refuse
  sign_txn_reply result =
      if result == txn_error
      then refuse
      else if result == state_code txn_out
      then (do prepare_output_approval sdk; ux_display transaction_screen)
      else if result == txn_partial
      then io_async_exchange_ok
      else if result == txn_finished
      then (do set_initialized false; io_async_exchange_ok; show_message success 8)
      else io_async_exchange_ok

  -- `ctx->txn_state < TXN_START_OUT || …`.
  unfoldable pub reads_at_once : Exec (Device Sha256) Bool
  reads_at_once = gets (λ s.
      let st = state_code s.ctx.txn_state in
      ltb st (state_code txn_start_out)
      || (st == state_code txn_ret_sigs || st == state_code txn_compute_sigs))

  unfoldable pub handle_sign_txn : ℕ → ℕ → ℕ → Exec (Device Sha256) (Unit {0})
  unfolding sign_txn_reply reads_at_once
  handle_sign_txn p1 data_buffer data_length = do
    c ← gets (λ s. s.ctx)
    put_ctx (record c { data_buffer = data_buffer; data_length = data_length })
    modify (λ s. record s { tx = 0 })
    if not c.initialized && p1 == 0
        then go_to_transaction_screen you_received 13 new_transaction 16
        else if c.initialized && p1 == 1
        then (do
          at_once ← reads_at_once
          if at_once
              then (do result ← txn_next_elem sdk; sign_txn_reply result)
              else ux_display transaction_screen)
        else refuse
    modify (λ s. record s { asynch_reply = true })
