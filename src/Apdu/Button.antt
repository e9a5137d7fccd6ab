-- ===== src/Apdu/Button.antt =====
-- `transaction_screen_button` of src/ui/newTransaction.c.
use ledger_nano.Base.{ℕ, ◌+◌, true, false, ◌==◌, if◌then◌else◌, read_bytes, write_bytes}
use ledger_nano.Base.Exec.{Exec, pure, gets, defined, modify, ◌>>=◌, ◌>>◌}
use ledger_nano.Sdk.{Sdk}
use ledger_nano.Device.{
  Device, state_code, txn_out, txn_start_in, txn_compute_sigs, txn_partial, txn_partial_out,
  txn_ready, txn_error, put_ctx,
}
use ledger_nano.Txn.Loop.{txn_next_elem}
use ledger_nano.Ui.Events.{ButtonEvent, released_left, released_right, released_both, other_event}
use ledger_nano.Ui.Screens.{ui_idle, transaction_line, processing_line}
use ledger_nano.Ui.Approval.{prepare_output_approval}
use ledger_nano.Apdu.Exchange.{io_async_exchange_ok, io_async_exchange_error}
use ledger_nano.Apdu.SignTxn.{set_initialized}

module _ (sdk : Sdk) where
  open sdk use {Sha256, sha256_init}

  -- `if (!ctx->initialized)`: a new transaction.
  unfoldable pub start_txn : Exec (Device Sha256) (Unit {0})
  start_txn = do
    c ← gets (λ s. s.ctx)
    if c.initialized
        then pure tt
        else put_ctx (record c {
          hash = sha256_init;
          txn_state = txn_start_in;
          initialized = true;
          offset = 0;
        })

  -- `case TXN_READY`: the hash of the transaction is the answer.
  unfoldable pub reply_inner_hash : Exec (Device Sha256) (Unit {0})
  reply_inner_hash = do
    c ← gets (λ s. s.ctx)
    apdu ← gets (λ s. s.apdu_buffer)
    digest ← defined (read_bytes c.txn.inner_hash 0 32)
    apdu' ← defined (write_bytes apdu 0 digest)
    modify (λ s. record s { apdu_buffer = apdu'; tx = s.tx + 32 })
    put_ctx (record c { txn_state = txn_compute_sigs })
    io_async_exchange_ok

  -- `switch (txn_next_elem(ctx))`, which has no default.
  unfoldable pub approve_reply : ℕ → Exec (Device Sha256) (Unit {0})
  unfolding reply_inner_hash
  approve_reply result =
      if result == txn_partial
      then io_async_exchange_ok
      else if result == state_code txn_out
      then prepare_output_approval sdk
      else if result == txn_partial_out
      then (do prepare_output_approval sdk; io_async_exchange_ok)
      else if result == txn_ready
      then reply_inner_hash
      else if result == txn_error
      then (do set_initialized false; io_async_exchange_error)
      else pure tt

  unfoldable pub approve : Exec (Device Sha256) (Unit {0})
  unfolding start_txn approve_reply
  approve = do
    old_1 ← gets (λ s. s.custom_text_line_1)
    text_1 ← defined (read_bytes transaction_line 0 12)
    new_1 ← defined (write_bytes old_1 0 text_1)
    old_2 ← gets (λ s. s.custom_text_line_2)
    text_2 ← defined (read_bytes processing_line 0 14)
    new_2 ← defined (write_bytes old_2 0 text_2)
    modify (λ s. record s { custom_text_line_1 = new_1; custom_text_line_2 = new_2 })
    start_txn
    result ← txn_next_elem sdk
    approve_reply result

  unfoldable pub transaction_screen_button : ButtonEvent → Exec (Device Sha256) (Unit {0})
  unfolding approve
  transaction_screen_button released_left = do io_async_exchange_error; ui_idle
  transaction_screen_button released_right = approve
  transaction_screen_button released_both = approve
  transaction_screen_button other_event = pure tt
