-- ===== src/Ui/Screens.antt =====
-- The screens: `show_message` of src/ui/info_message.c, `ui_idle` of src/ui/main_ui.c,
-- `go_to_transaction_screen` of src/ui/newTransaction.c. `UX_DISPLAY` and `UX_MENU_DISPLAY` are the
-- SDK's: here they are the choice of a screen.
use Prim.Native.Nat.{min}
use ledger_nano.Base.{ℕ, List, [], ◌∷◌, write_bytes, read_bytes}
use ledger_nano.Base.Int.{pos}
use ledger_nano.Base.Exec.{Exec, gets, defined, modify, ◌>>=◌, ◌>>◌}
use ledger_nano.Device.{Device, Screen, menu_main, transaction_screen, bagl_info_text}
use ledger_nano.Ui.Format.{screen_max_chars}

abbrev pub you_received : List ℕ
you_received =
    b'Y' ∷ b'o' ∷ b'u' ∷ b' ' ∷ b'r' ∷ b'e' ∷ b'c' ∷ b'e' ∷ b'i' ∷ b'v' ∷ b'e' ∷ b'd' ∷ 0 ∷ 0 ∷ []

abbrev pub new_transaction : List ℕ
new_transaction =
    b'n' ∷ b'e' ∷ b'w' ∷ b' ' ∷ b't' ∷ b'r' ∷ b'a' ∷ b'n' ∷ b's' ∷ b'a' ∷ b'c' ∷ b't' ∷ b'i' ∷ b'o'
    ∷ b'n' ∷ 0 ∷ 0 ∷ []

abbrev pub error_happened : List ℕ
error_happened =
    b'E' ∷ b'r' ∷ b'r' ∷ b'o' ∷ b'r' ∷ b' ' ∷ b'h' ∷ b'a' ∷ b'p' ∷ b'p' ∷ b'e' ∷ b'n' ∷ b'e' ∷ b'd'
    ∷ 0 ∷ 0 ∷ []

abbrev pub success : List ℕ
success = b'S' ∷ b'u' ∷ b'c' ∷ b'c' ∷ b'e' ∷ b's' ∷ b's' ∷ 0 ∷ 0 ∷ []

abbrev pub transaction_line : List ℕ
transaction_line =
    b'T' ∷ b'r' ∷ b'a' ∷ b'n' ∷ b's' ∷ b'a' ∷ b'c' ∷ b't' ∷ b'i' ∷ b'o' ∷ b'n' ∷ 0 ∷ 0 ∷ []

abbrev pub processing_line : List ℕ
processing_line =
    b'p' ∷ b'r' ∷ b'o' ∷ b'c' ∷ b'e' ∷ b's' ∷ b's' ∷ b'i' ∷ b'n' ∷ b'g' ∷ b'.' ∷ b'.' ∷ b'.' ∷ 0 ∷ 0
    ∷ []

module _ {Sha : Type 0} where
  unfoldable pub ux_display : Screen → Exec (Device Sha) (Unit {0})
  ux_display screen = modify (λ s. record s { screen = screen })

  -- `UX_MENU_DISPLAY(0, menu_main, NULL)`.
  unfoldable pub ux_menu_display : Exec (Device Sha) (Unit {0})
  ux_menu_display = modify (λ s. record s { screen = menu_main })

  unfoldable pub ui_idle : Exec (Device Sha) (Unit {0})
  unfolding ux_menu_display
  ui_idle = do
    modify (λ s. record s { ux_step_count = 0; ux_loop_over_curr_element = 0 })
    ux_menu_display

  -- `os_memmove(info_text, info_line_text, text_size)`, on a text literal.
  unfoldable pub show_message : List ℕ → ℕ → Exec (Device Sha) (Unit {0})
  unfolding ux_display
  show_message info_line_text text_size = do
    old ← gets (λ s. s.info_text)
    text ← defined (read_bytes info_line_text 0 text_size)
    new ← defined (write_bytes old 0 text)
    modify (λ s. record s { info_text = new })
    ux_display bagl_info_text

  unfoldable pub go_to_transaction_screen : List ℕ → ℕ → List ℕ → ℕ → Exec (Device Sha) (Unit {0})
  unfolding ux_display
  go_to_transaction_screen first_line first_size second_line second_size = do
    old_1 ← gets (λ s. s.custom_text_line_1)
    text_1 ← defined (read_bytes first_line 0 (min first_size screen_max_chars))
    new_1 ← defined (write_bytes old_1 0 text_1)
    old_2 ← gets (λ s. s.custom_text_line_2)
    text_2 ← defined (read_bytes second_line 0 (min second_size screen_max_chars))
    new_2 ← defined (write_bytes old_2 0 text_2)
    modify (λ s. record s {
      custom_text_line_1 = new_1;
      custom_text_line_2 = new_2;
      ux_step = 0;
      ux_step_count = 4;
      current_offset = pos 0;
      direction = pos 1;
    })
    ux_display transaction_screen
