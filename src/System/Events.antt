-- ===== src/System/Events.antt =====
-- The events that reach the app, in any order: a packet (a round of the loop of src/main.c), a
-- button, the drawing of an element, a tick (`io_event` of src/ui/main_ui.c), and the entry
-- "Address" of the menu. The SDK calls the handlers of the screen that is displayed; the
-- menu's own buttons are the SDK's, and `bagl_info_text` has no preprocessor.
use ledger_nano.Base.{ℕ, ◌≡◌, Bool, List, length, All}
use ledger_nano.Base.Exec.{Exec, ok, pure, gets, ◌>>=◌}
use ledger_nano.Sdk.{Sdk}
use ledger_nano.Device.{
  Device, Screen, menu_main, bagl_ui_address, transaction_screen, bagl_info_text, txn_start_in,
  max_inputs,
}
use ledger_nano.Ui.Events.{ButtonEvent, bagl_ui_address_button, bagl_info_text_button, ticker_event}
use ledger_nano.Ui.Scroll.{
  Element, ui_address_scrolling_text_prepro, transaction_screen_prepro, go_to_address_screen,
}
use ledger_nano.Apdu.Button.{transaction_screen_button}
use ledger_nano.Main.{boot, main_round}
use ledger_nano.System.Invariant.{Fitting}

pub data Event : Type 0 where
  packet : List ℕ → Event
  button : ButtonEvent → Event
  draw : Element → Event
  tick : Bool → Event
  address_entry : Event

module _ (sdk : Sdk) where
  open sdk use {Sha256}

  abbrev pub run_button : Screen → ButtonEvent → Exec (Device Sha256) (Unit {0})
  run_button menu_main e = pure tt
  run_button bagl_ui_address e = bagl_ui_address_button e
  run_button transaction_screen e = transaction_screen_button sdk e
  run_button bagl_info_text e = bagl_info_text_button e

  abbrev pub run_draw : Screen → Element → Exec (Device Sha256) ℕ
  run_draw menu_main e = pure 1
  run_draw bagl_ui_address e = ui_address_scrolling_text_prepro e
  run_draw transaction_screen e = transaction_screen_prepro e
  run_draw bagl_info_text e = pure 1

  abbrev pub run_address_entry : Screen → Exec (Device Sha256) (Unit {0})
  run_address_entry menu_main = go_to_address_screen
  run_address_entry other = pure tt

  unfoldable pub run_event : Event → Exec (Device Sha256) (Unit {0})
  run_event (packet bytes) = main_round sdk bytes
  run_event (button e) = do screen ← gets (λ s. s.screen); run_button screen e
  run_event (draw e) = do screen ← gets (λ s. s.screen); _ ← run_draw screen e; pure tt
  run_event (tick allowed) = ticker_event allowed (pure tt)
  run_event address_entry = do screen ← gets (λ s. s.screen); run_address_entry screen

-- The memory as the program finds it: arrays of their sizes, and the numbers 0.
pub record IsReset {Sha : Type 0} (room : ℕ) (s : Device Sha) : Type 0 where
  pub fits : Fitting room s
  pub buffer : length s.ctx.buffer ≡ 37
  pub inner_hash : length s.ctx.txn.inner_hash ≡ 32
  pub entries : length s.ctx.txn.sig_input ≡ max_inputs
  pub cells : All (λ cell. length cell ≡ 65) s.ctx.txn.sig_input
  pub txn_state : s.ctx.txn_state ≡ txn_start_in
  pub offset : s.ctx.offset ≡ 0
  pub curr_obj : s.ctx.curr_obj ≡ 0

-- The states behind `main` and any events, none of which was undefined in C.
pub data Reach (sdk : Sdk) (room : ℕ) : Device sdk.Sha256 → Type 0 where
  start : {s t : Device sdk.Sha256} → IsReset room s → boot sdk s ≡ ok tt t → Reach sdk room t
  later :
      {s t : Device sdk.Sha256}
      → Reach sdk room s
      → (e : Event) → run_event sdk e s ≡ ok tt t
      → Reach sdk room t
