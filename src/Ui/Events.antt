-- ===== src/Ui/Events.antt =====
-- What the screens do on an event: `io_event` of src/ui/main_ui.c on a tick,
-- `bagl_ui_address_button` of src/ui/getPublicKey.c and `bagl_info_text_button` of
-- src/ui/info_message.c. The button masks are the SDK's; here an event is one of those that the code
-- tests for, or another.
use mathlib.Core.Bool.{not}
use ledger_nano.Base.{◌+◌, ◌%◌, ◌^◌, Bool, ◌&&◌, ◌==◌, if◌then◌else◌}
use ledger_nano.Base.Exec.{Exec, pure, gets, modify, ◌>>=◌, ◌>>◌}
use ledger_nano.Device.{Device}
use ledger_nano.Ui.Screens.{ui_idle, ux_menu_display}

pub data ButtonEvent : Type 0 where
  released_left : ButtonEvent
  released_right : ButtonEvent
  released_both : ButtonEvent
  other_event : ButtonEvent

module _ {Sha : Type 0} where
  unfoldable pub bagl_ui_address_button : ButtonEvent → Exec (Device Sha) (Unit {0})
  unfolding ux_menu_display
  bagl_ui_address_button released_left = ux_menu_display
  bagl_ui_address_button released_right = pure tt
  bagl_ui_address_button released_both = pure tt
  bagl_ui_address_button other_event = pure tt

  unfoldable pub bagl_info_text_button : ButtonEvent → Exec (Device Sha) (Unit {0})
  unfolding ui_idle
  bagl_info_text_button released_left = ui_idle
  bagl_info_text_button released_right = ui_idle
  bagl_info_text_button released_both = ui_idle
  bagl_info_text_button other_event = pure tt

  -- `SEPROXYHAL_TAG_TICKER_EVENT`: UX_ALLOWED and UX_REDISPLAY are the SDK's. `ux_step` has 32 bits.
  unfoldable pub ticker_event : Bool → Exec (Device Sha) (Unit {0}) → Exec (Device Sha) (Unit {0})
  ticker_event ux_allowed ux_redisplay = do
    count ← gets (λ s. s.ux_step_count)
    if not (count == 0) && ux_allowed
        then (do
          looping ← gets (λ s. s.ux_loop_over_curr_element)
          if looping == 0
              then modify (λ s. record s { ux_step = (s.ux_step + 1) % 2 ^ 32 % s.ux_step_count })
              else pure tt
          ux_redisplay)
        else pure tt
