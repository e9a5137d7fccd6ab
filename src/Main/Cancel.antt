-- ===== src/Main/Cancel.antt =====
-- The left button on the transaction screen, and the packet after it.
use mathlib.Core.Bool.{not}
use ledger_nano.Base.{
  ℕ, ◌≤◌, ◌≡◌, ap, [], ◌∷◌, ◌++◌, some, true, false, ◌&&◌, ◌==◌, arith, length, take, drop,
  write_bytes_in, read_bytes_in,
}
use ledger_nano.Base.Exec.{ok, ◌>>=◌, ◌>>◌}
use ledger_nano.Sdk.{Sdk}
use ledger_nano.Device.{Device, menu_main, bagl_info_text}
use ledger_nano.Ui.Events.{released_left}
use ledger_nano.Ui.Screens.{show_message, ux_display, ux_menu_display, ui_idle, error_happened}
use ledger_nano.Apdu.Exchange.{io_exchange, io_exchange_with_code, io_async_exchange_error}
use ledger_nano.Apdu.SignTxn.{set_initialized, refuse, handle_sign_txn}
use ledger_nano.Apdu.Button.{transaction_screen_button}
use ledger_nano.Main.Replies.{messages}

module _ {Sha : Type 0} where
  abbrev errored : Device Sha → Device Sha
  errored s = record s {
    apdu_buffer = take 0 s.apdu_buffer ++ ((0x06 ∷ 0xb0 ∷ []) ++ drop 2 s.apdu_buffer);
    sent = s.sent ++ (0x06 ∷ 0xb0 ∷ []) ∷ [];
  }

  io_async_exchange_error-errored :
      (s : Device Sha) → 2 ≤ length s.apdu_buffer → io_async_exchange_error s ≡ ok tt (errored s)
  unfolding io_async_exchange_error io_exchange_with_code io_exchange
  io_async_exchange_error-errored s h = rw (
    ◌>>=◌,
    ◌>>◌,
    write_bytes_in s.apdu_buffer 0 (0x06 ∷ 0xb0 ∷ []) h,
    read_bytes_in ((0x06 ∷ 0xb0 ∷ []) ++ drop 2 s.apdu_buffer) 0 2 (omega arith),
  )

  abbrev warned : Device Sha → Device Sha
  warned s = record s {
    info_text = take 0 s.info_text ++ (take 15 error_happened ++ drop 15 s.info_text);
    screen = bagl_info_text;
  }

  show_message-warned :
      (s : Device Sha)
      → 15 ≤ length s.info_text
      → show_message error_happened 15 s ≡ ok tt (warned s)
  unfolding show_message ux_display
  show_message-warned s h = rw (
    ◌>>=◌,
    ◌>>◌,
    read_bytes_in error_happened 0 15 (omega arith),
    write_bytes_in s.info_text 0 (take 15 error_happened) (omega arith),
  )

module _ (sdk : Sdk) where
  abbrev cancelled : Device sdk.Sha256 → Device sdk.Sha256
  cancelled s = record (errored s) {
    ux_step_count = 0;
    ux_loop_over_curr_element = 0;
    screen = menu_main;
  }

  transaction_screen_button-cancels :
      (s : Device sdk.Sha256)
      → 2 ≤ length s.apdu_buffer
      → transaction_screen_button sdk released_left s ≡ ok tt (cancelled s)
  unfolding transaction_screen_button ui_idle ux_menu_display
  transaction_screen_button-cancels s h = rw (◌>>=◌, ◌>>◌, io_async_exchange_error-errored s h)

  handle_sign_txn-refuses :
      (s : Device sdk.Sha256) (data_buffer data_length : ℕ)
      → s.ctx.initialized ≡ true
      → 2 ≤ length s.apdu_buffer
      → 15 ≤ length s.info_text
      → messages (handle_sign_txn sdk 0 data_buffer data_length s)
        ≡ some (s.sent ++ (0x06 ∷ 0xb0 ∷ []) ∷ [])
  unfolding handle_sign_txn refuse set_initialized
  handle_sign_txn-refuses s data_buffer data_length begun fits room = rw (
    ◌>>=◌,
    ◌>>◌,
    ap (λ b. not b && (0 == 0)) begun,
    ap (λ b. b && (0 == 1)) begun,
    io_async_exchange_error-errored
        (record s {
          tx = 0;
          ctx = record s.ctx {
            data_buffer = data_buffer;
            data_length = data_length;
            initialized = false;
          };
        })
        fits,
    show_message-warned
        (errored (record s {
          tx = 0;
          ctx = record s.ctx {
            data_buffer = data_buffer;
            data_length = data_length;
            initialized = false;
          };
        }))
        room,
  )

  -- Where a transaction is in progress, the left button and then the first packet of another
  -- transaction (p1 = 0) are both answered with the two bytes 06 B0 alone: the button leaves the
  -- transaction in progress. The APDU buffer has two bytes and the array of the message 15.
  pub transaction_screen_button-cancelled :
      (s : Device sdk.Sha256) (data_buffer data_length : ℕ)
      → s.ctx.initialized ≡ true
      → 2 ≤ length s.apdu_buffer
      → 15 ≤ length s.info_text
      → messages (
          (transaction_screen_button sdk released_left
              >> handle_sign_txn sdk 0 data_buffer data_length)
            s)
        ≡ some ((s.sent ++ (0x06 ∷ 0xb0 ∷ []) ∷ []) ++ (0x06 ∷ 0xb0 ∷ []) ∷ [])
  transaction_screen_button-cancelled s data_buffer data_length begun fits room =
      rw (◌>>=◌, ◌>>◌, transaction_screen_button-cancels s fits)
        (handle_sign_txn-refuses (cancelled s) data_buffer data_length begun (omega arith) room)
