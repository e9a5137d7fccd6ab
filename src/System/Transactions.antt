-- ===== src/System/Transactions.antt =====
-- The invariant, `handleSignTxn` of src/apdu_handlers.c, and the button of the transaction screen.
use mathlib.Core.Bool.{not}
use ledger_nano.Base.{ℕ, false, ◌&&◌, ◌||◌, ltb, ◌==◌, read_bytes, arith}
use ledger_nano.Base.Exec.{◌>>◌}
use ledger_nano.Base.Post.{if-Post}
use ledger_nano.Sdk.{Sdk, SdkLaws}
use ledger_nano.Device.{
  Device, state_code, txn_out, txn_start_out, txn_ret_sigs, txn_compute_sigs, transaction_screen,
  txn_partial, txn_partial_out, txn_ready, txn_finished, txn_error,
}
use ledger_nano.Txn.Loop.{txn_next_elem}
use ledger_nano.Ui.Screens.{
  ux_display, show_message, ui_idle, you_received, new_transaction, success, transaction_line,
  processing_line,
}
use ledger_nano.Ui.Events.{ButtonEvent, released_left, released_right, released_both, other_event}
use ledger_nano.Ui.Approval.{prepare_output_approval}
use ledger_nano.Apdu.Exchange.{io_async_exchange_ok, io_async_exchange_error}
use ledger_nano.Apdu.SignTxn.{set_initialized, sign_txn_reply, reads_at_once, handle_sign_txn}
use ledger_nano.Apdu.Button.{
  start_txn, reply_inner_hash, approve_reply, approve, transaction_screen_button,
}
use ledger_nano.System.Fits as Fits
use ledger_nano.System.Invariant.{
  Never, Invariant, Keeps, bind-Keeps, any-Keeps, write-Keeps, if-Keeps,
}
use ledger_nano.System.Screens.{
  Keeps-then, io_async_exchange_ok-Keeps, io_async_exchange_error-Keeps, ui_idle-Keeps,
  show_message-Keeps, go_to_transaction_screen-Keeps, prepare_output_approval-Keeps,
}
use ledger_nano.System.Signing.{txn_next_elem-Keeps}
use ledger_nano.System.Handlers.{refuse-Keeps, set_initialized-Keeps}

module _ (sdk : Sdk) (laws : SdkLaws sdk) {room : ℕ} where
  sign_txn_reply-Keeps : (result : ℕ) → Keeps room (sign_txn_reply sdk result)
  unfolding sign_txn_reply ux_display
  sign_txn_reply-Keeps result = if-Keeps room (result == txn_error) _ _ refuse-Keeps (
      if-Keeps room (result == state_code txn_out) _ _
        (Keeps-then (prepare_output_approval sdk) (ux_display transaction_screen)
          (prepare_output_approval-Keeps sdk) (λ s v. v))
        (if-Keeps room (result == txn_partial) _ _ io_async_exchange_ok-Keeps (
          if-Keeps room (result == txn_finished) _ _
            (Keeps-then (set_initialized false >> io_async_exchange_ok) (show_message success 8)
              (Keeps-then (set_initialized false) io_async_exchange_ok (set_initialized-Keeps false)
                io_async_exchange_ok-Keeps)
              (show_message-Keeps success 8))
            io_async_exchange_ok-Keeps)))

  pub handle_sign_txn-Keeps :
      (p1 data_buffer data_length : ℕ) → Keeps room (handle_sign_txn sdk p1 data_buffer data_length)
  unfolding handle_sign_txn reads_at_once ux_display
  handle_sign_txn-Keeps p1 data_buffer data_length s v =
      let begun : Device sdk.Sha256 = record s {
        ctx = record s.ctx { data_buffer = data_buffer; data_length = data_length };
        tx = 0;
      } in
      let w : Invariant room begun = (
        v.0,
        record {
          buffer = v.1.buffer;
          inner_hash = v.1.inner_hash;
          entries = v.1.entries;
          cells = v.1.cells;
          curr_obj = v.1.curr_obj;
          waits = v.1.waits;
        },
      ) in
      bind-Keeps room _ _
        (if-Keeps room (not s.ctx.initialized && p1 == 0) _ _
          (go_to_transaction_screen-Keeps you_received 13 new_transaction 16)
          (if-Keeps room (s.ctx.initialized && p1 == 1) _ _
            (λ t x.
              if-Keeps room
                (ltb (state_code t.ctx.txn_state) (state_code txn_start_out)
                  || (state_code t.ctx.txn_state == state_code txn_ret_sigs
                      || state_code t.ctx.txn_state == state_code txn_compute_sigs))
                _ (ux_display transaction_screen)
                (λ u y.
                  bind-Keeps room (txn_next_elem sdk u) _ (txn_next_elem-Keeps sdk laws u y)
                    sign_txn_reply-Keeps)
                (λ u y. y) t x)
            refuse-Keeps)
          begun w)
        (λ _ t x. x)

module _ (sdk : Sdk) {room : ℕ} where
  start_txn-Keeps : Keeps room (start_txn sdk)
  unfolding start_txn
  start_txn-Keeps s v =
      if-Post (Invariant room) Never s.ctx.initialized _ _ s (λ _. v)
        (λ _. (
          v.0,
          record {
            buffer = v.1.buffer;
            inner_hash = v.1.inner_hash;
            entries = v.1.entries;
            cells = v.1.cells;
            curr_obj = v.1.curr_obj;
            waits = omega arith;
          },
        ))

  reply_inner_hash-Keeps : Keeps room (reply_inner_hash sdk)
  unfolding reply_inner_hash
  reply_inner_hash-Keeps s v = any-Keeps room (read_bytes s.ctx.txn.inner_hash 0 32) _ s (λ digest.
      write-Keeps room s.apdu_buffer 0 digest _ s (λ new e. io_async_exchange_ok-Keeps _ (
        Fits.with_apdu v.0 new e,
        record {
          buffer = v.1.buffer;
          inner_hash = v.1.inner_hash;
          entries = v.1.entries;
          cells = v.1.cells;
          curr_obj = v.1.curr_obj;
          waits = tt;
        },
      )))

  approve_reply-Keeps : (result : ℕ) → Keeps room (approve_reply sdk result)
  unfolding approve_reply
  approve_reply-Keeps result =
      if-Keeps room (result == txn_partial) _ _ io_async_exchange_ok-Keeps (
        if-Keeps room (result == state_code txn_out) _ _ (prepare_output_approval-Keeps sdk) (
          if-Keeps room (result == txn_partial_out) _ _
            (Keeps-then (prepare_output_approval sdk) io_async_exchange_ok
              (prepare_output_approval-Keeps sdk) io_async_exchange_ok-Keeps)
            (if-Keeps room (result == txn_ready) _ _ reply_inner_hash-Keeps (
              if-Keeps room (result == txn_error) _ _
                (Keeps-then (set_initialized false) io_async_exchange_error
                  (set_initialized-Keeps false) io_async_exchange_error-Keeps)
                (λ s v. v)))))

module _ (sdk : Sdk) (laws : SdkLaws sdk) {room : ℕ} where
  approve-Keeps : Keeps room (approve sdk)
  unfolding approve
  approve-Keeps s v = any-Keeps room (read_bytes transaction_line 0 12) _ s (λ text_1.
      write-Keeps room s.custom_text_line_1 0 text_1 _ s (λ new_1 e_1.
        any-Keeps room (read_bytes processing_line 0 14) _ s (λ text_2.
          write-Keeps room s.custom_text_line_2 0 text_2 _ s (λ new_2 e_2.
            Keeps-then (start_txn sdk) _ (start_txn-Keeps sdk)
              (λ t w.
                bind-Keeps room (txn_next_elem sdk t) _ (txn_next_elem-Keeps sdk laws t w)
                  (approve_reply-Keeps sdk))
              _ (Fits.with_lines v.0 new_1 new_2 e_1 e_2, v.1)))))

  pub transaction_screen_button-Keeps :
      (e : ButtonEvent) → Keeps room (transaction_screen_button sdk e)
  unfolding transaction_screen_button
  transaction_screen_button-Keeps released_left =
      Keeps-then io_async_exchange_error ui_idle io_async_exchange_error-Keeps ui_idle-Keeps
  transaction_screen_button-Keeps released_right = approve-Keeps
  transaction_screen_button-Keeps released_both = approve-Keeps
  transaction_screen_button-Keeps other_event = λ s v. v
