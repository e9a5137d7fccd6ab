-- ===== src/System/Screens.antt =====
-- The invariant, the replies of src/apdu_handlers.c and the screens of src/ui.
use ledger_nano.Base.{
  ℕ, ◌+◌, ◌/◌, ◌%◌, ◌^◌, refl, ◌∙◌, List, [], ◌∷◌, ◌++◌, Bool, replicate, read_bytes, ◌==◌,
  if◌then◌else◌, ◌&&◌,
}
use mathlib.Core.Bool.{not}
use Prim.Native.Nat.{min}
use ledger_nano.Base.Exec.{Exec, pure, modify, ◌>>◌}
use ledger_nano.Sdk.{Sdk}
use ledger_nano.Device.{Device}
use ledger_nano.Crypto.Address.{address_to_base58, strlen}
use ledger_nano.Ui.Format.{screen_max_chars, output_display, amount_display}
use ledger_nano.Apdu.Exchange.{
  io_exchange, io_exchange_with_code, io_async_exchange_ok, io_async_exchange_error,
}
use ledger_nano.Ui.Screens.{
  show_message, go_to_transaction_screen, ux_display, ui_idle, ux_menu_display,
}
use ledger_nano.Ui.Events.{
  ButtonEvent, released_left, released_right, released_both, other_event, bagl_ui_address_button,
  bagl_info_text_button, ticker_event,
}
use ledger_nano.Ui.Approval.{prepare_output_approval}
use ledger_nano.System.Fits.{with_apdu, with_info, with_lines, with_texts}
use ledger_nano.System.Invariant.{Keeps, bind-Keeps, any-Keeps, write-Keeps, if-Keeps}

module _ {Sha : Type 0} {room : ℕ} where
  pub Keeps-then :
      {A : Type 0} (m : Exec (Device Sha) (Unit {0})) (n : Exec (Device Sha) A)
      → Keeps room m
      → Keeps room n
      → Keeps room (m >> n)
  Keeps-then m n km kn s v = bind-Keeps room (m s) _ (km s v) (λ _. kn)

  pub io_exchange-Keeps : (tx : ℕ) → Keeps {Sha = Sha} room (io_exchange tx)
  unfolding io_exchange
  io_exchange-Keeps tx s v = any-Keeps room (read_bytes s.apdu_buffer 0 tx) _ s (λ reply. v)

  io_exchange_with_code-Keeps :
      (code tx : ℕ) → Keeps {Sha = Sha} room (io_exchange_with_code code tx)
  unfolding io_exchange_with_code
  io_exchange_with_code-Keeps code tx s v =
      write-Keeps room s.apdu_buffer tx (code / 2 ^ 8 ∷ code % 256 ∷ []) _ s (λ new e.
        io_exchange-Keeps (tx + 2) (record s { apdu_buffer = new }) (with_apdu v.0 new e, v.1))

  pub io_async_exchange_ok-Keeps : Keeps {Sha = Sha} room io_async_exchange_ok
  unfolding io_async_exchange_ok
  io_async_exchange_ok-Keeps s v = io_exchange_with_code-Keeps 0x9000 (s.tx % 2 ^ 16) s v

  pub io_async_exchange_error-Keeps : Keeps {Sha = Sha} room io_async_exchange_error
  unfolding io_async_exchange_error
  io_async_exchange_error-Keeps s v = io_exchange_with_code-Keeps 0x6b0 0 s v

  pub ui_idle-Keeps : Keeps {Sha = Sha} room ui_idle
  unfolding ui_idle ux_menu_display
  ui_idle-Keeps s v = v

  pub show_message-Keeps :
      (text : List ℕ) (size : ℕ) → Keeps {Sha = Sha} room (show_message text size)
  unfolding show_message ux_display
  show_message-Keeps text size s v =
      any-Keeps room (read_bytes text 0 size) _ s
        (λ part. write-Keeps room s.info_text 0 part _ s (λ new e. (with_info v.0 new e, v.1)))

  pub go_to_transaction_screen-Keeps :
      (first : List ℕ) (n : ℕ) (second : List ℕ) (m : ℕ)
      → Keeps {Sha = Sha} room (go_to_transaction_screen first n second m)
  unfolding go_to_transaction_screen ux_display
  go_to_transaction_screen-Keeps first n second m s v =
      any-Keeps room (read_bytes first 0 (min n screen_max_chars)) _ s (λ text_1.
        write-Keeps room s.custom_text_line_1 0 text_1 _ s (λ new_1 e_1.
          any-Keeps room (read_bytes second 0 (min m screen_max_chars)) _ s (λ text_2.
            write-Keeps room s.custom_text_line_2 0 text_2 _ s
              (λ new_2 e_2. (with_lines v.0 new_1 new_2 e_1 e_2, v.1)))))

  pub bagl_ui_address_button-Keeps :
      (e : ButtonEvent) → Keeps {Sha = Sha} room (bagl_ui_address_button e)
  unfolding bagl_ui_address_button ux_menu_display
  bagl_ui_address_button-Keeps released_left s v = v
  bagl_ui_address_button-Keeps released_right s v = v
  bagl_ui_address_button-Keeps released_both s v = v
  bagl_ui_address_button-Keeps other_event s v = v

  pub bagl_info_text_button-Keeps :
      (e : ButtonEvent) → Keeps {Sha = Sha} room (bagl_info_text_button e)
  unfolding bagl_info_text_button
  bagl_info_text_button-Keeps released_left s v = ui_idle-Keeps s v
  bagl_info_text_button-Keeps released_right s v = ui_idle-Keeps s v
  bagl_info_text_button-Keeps released_both s v = ui_idle-Keeps s v
  bagl_info_text_button-Keeps other_event s v = v

  pub ticker_event-Keeps :
      (allowed : Bool) (redisplay : Exec (Device Sha) (Unit {0}))
      → Keeps room redisplay
      → Keeps room (ticker_event allowed redisplay)
  unfolding ticker_event
  ticker_event-Keeps allowed redisplay k s v =
      if-Keeps room (not (s.ux_step_count == 0) && allowed) _ _
        (λ t w.
          bind-Keeps room
            ((if t.ux_loop_over_curr_element == 0
                then modify (λ s. record s { ux_step = (s.ux_step + 1) % 2 ^ 32 % s.ux_step_count })
                else pure tt)
              t)
            _ (if-Keeps room (t.ux_loop_over_curr_element == 0) _ _ (λ u x. x) (λ u x. x) t w)
            (λ _. k))
        (λ t w. w) s v

module _ (sdk : Sdk) {room : ℕ} where
  pub prepare_output_approval-Keeps : Keeps room (prepare_output_approval sdk)
  unfolding prepare_output_approval
  prepare_output_approval-Keeps s v =
      let c = s.ctx in
      write-Keeps room (replicate screen_max_chars 0) 0
        (output_display c.curr_obj c.txn.out_num ++ 0 ∷ []) _ s
        (λ display e_display.
          any-Keeps room (address_to_base58 sdk c.txn.cur_output.address (replicate 36 0)) _ s
            (λ address. any-Keeps room (strlen address) _ s (λ length.
              any-Keeps room (read_bytes address 0 (length + 1)) _ s (λ text.
                write-Keeps room s.out_address 0 text _ s (λ out e_out.
                  write-Keeps room s.amount 0 (amount_display c.txn.cur_output.coin_num ++ 0 ∷ []) _
                    s
                    (λ amount e_amount. (
                      with_texts v.0 display out amount (e_display ∙ refl) e_out e_amount,
                      v.1,
                    )))))))
