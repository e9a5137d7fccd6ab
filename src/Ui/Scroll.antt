-- ===== src/Ui/Scroll.antt =====
-- The screens with a scrolling text: `transaction_screen` and `transaction_screen_prepro` of
-- src/ui/newTransaction.c, and `bagl_ui_address`, its preprocessor, its button and
-- `go_to_address_screen` of src/ui/getPublicKey.c. The SDK calls the preprocessor for an element
-- before it draws it; a result of 0 (NULL) hides the element.
pub mod Position
pub mod Draw
pub mod Approving
pub mod Showing
pub mod Frame
pub mod Redraw
pub mod Amount
pub mod Opening
pub mod Copying
pub mod Address
pub mod Past
mod Tests
use ledger_nano.Base.{
  ℕ, zero, suc, ◌+◌, ◌-◌, ◌*◌, List, [], ◌∷◌, Option, none, some, Bool, true, false, ◌||◌, ◌==◌,
  leb, if◌then◌else◌,
}
use ledger_nano.Base.Int.{ℤ, pos, negsuc, pos_part, neg_part, ◌+ℤ◌, neg, is_ℤ}
use ledger_nano.Base.Exec.{Exec, pure, gets, defined, modify, ◌>>=◌, ◌>>◌}
use ledger_nano.Device.{Device, state_code, txn_out, bagl_ui_address}
use ledger_nano.Crypto.Signature.{offset_sub}
use ledger_nano.Ui.Format.{screen_max_chars}
use ledger_nano.Ui.Screens.{ux_display, ux_menu_display}
use ledger_nano.Ui.Memory.{
  address_at, address_copy_at, custom_text_line_1_at, custom_text_line_2_at,
  current_output_display_at, out_address_at, amount_at, read_memory, write_memory, strlen_at,
  strcpy,
}

abbrev pub scrolling_text_delay : ℕ
scrolling_text_delay = 300

abbrev pub scrolling_text_big_delay : ℕ
scrolling_text_big_delay = 1200

-- What the preprocessors read of a `bagl_element_t`: `component.userid`, and `text` as an index of
-- the memory, `none` for NULL.
pub record Element : Type 0 where
  pub userid : ℕ
  pub text : Option ℕ

abbrev pub ui_background : Element
ui_background = record { userid = 0; text = none }

-- UI_ICON_LEFT and UI_ICON_RIGHT.
abbrev pub ui_icon : ℕ → Element
ui_icon userid = record { userid = userid; text = none }

-- UI_TEXT and UI_TEXT_CUSTOM_FONT.
abbrev pub ui_text : ℕ → ℕ → Element
ui_text userid text = record { userid = userid; text = some text }

abbrev pub transaction_elements : List Element
transaction_elements =
    ui_background
    ∷ ui_icon 0x01
    ∷ ui_icon 0x02
    ∷ ui_text 0x11 current_output_display_at
    ∷ ui_text 0x83 custom_text_line_2_at
    ∷ ui_text 0x80 custom_text_line_1_at
    ∷ []

abbrev pub address_elements : List Element
address_elements = ui_background ∷ ui_text 0x83 address_copy_at ∷ ui_icon 0x00 ∷ []

-- "Address:" and "SKY:".
abbrev pub address_label : List ℕ
address_label = b'A' ∷ b'd' ∷ b'd' ∷ b'r' ∷ b'e' ∷ b's' ∷ b's' ∷ b':' ∷ 0 ∷ []

abbrev pub sky_label : List ℕ
sky_label = b'S' ∷ b'K' ∷ b'Y' ∷ b':' ∷ 0 ∷ []

-- `base + offset`; `none` points before the memory.
abbrev pub pointer : ℕ → ℤ → Option ℕ
pointer base offset = offset_sub (base + pos_part offset) (neg_part offset)

module _ {Sha : Type 0} where
  unfoldable pub ux_callback_set_interval : ℕ → Exec (Device Sha) (Unit {0})
  ux_callback_set_interval interval = modify (λ s. record s { callback_interval = interval })

  -- `current_offset += direction`.
  unfoldable pub move_on : Exec (Device Sha) (Unit {0})
  move_on = modify (λ s. record s { current_offset = s.current_offset +ℤ s.direction })

  -- `current_offset == -1 || current_offset + SCREEN_MAX_CHARS == strlen(text) + 1`.
  unfoldable pub at_end : ℕ → Exec (Device Sha) Bool
  unfolding strlen_at
  at_end text = do
    offset ← gets (λ s. s.current_offset)
    if is_ℤ offset (negsuc 0)
        then pure true
        else (do n ← strlen_at text; pure (is_ℤ (offset +ℤ pos screen_max_chars) (pos (n + 1))))

  -- `direction *= -1`.
  unfoldable pub turn : Exec (Device Sha) (Unit {0})
  turn = modify (λ s. record s { direction = neg s.direction })

  -- The element 0x80 of the approval.
  unfoldable pub info_line : ℕ → Exec (Device Sha) (Unit {0})
  unfolding write_memory ux_callback_set_interval
  info_line text = do
    write_memory text address_label
    offset ← gets (λ s. s.current_offset)
    if is_ℤ offset (negsuc 0)
        then (do
          write_memory text sky_label
          ux_callback_set_interval (scrolling_text_big_delay * 3))
        else ux_callback_set_interval scrolling_text_delay

  -- Behind `direction *= -1`: the amount, or a longer stop.
  unfoldable pub turned : ℕ → Exec (Device Sha) (Unit {0})
  unfolding strcpy ux_callback_set_interval
  turned text = do
    direction ← gets (λ s. s.direction)
    if is_ℤ direction (pos 1)
        then (do strcpy text amount_at; ux_callback_set_interval (scrolling_text_big_delay * 3))
        else ux_callback_set_interval scrolling_text_big_delay

  -- The part of the address that the screen has room for.
  unfoldable pub draw_window : ℕ → Exec (Device Sha) (Unit {0})
  unfolding read_memory write_memory
  draw_window text = do
    offset ← gets (λ s. s.current_offset)
    from ← defined (pointer out_address_at offset)
    window ← read_memory from (screen_max_chars - 1)
    write_memory text window
    write_memory (text + screen_max_chars) (0 ∷ [])

  unfoldable pub scroll_on : ℕ → Exec (Device Sha) (Unit {0})
  unfolding move_on at_end turn turned ux_callback_set_interval
  scroll_on text = do
    move_on
    end ← at_end out_address_at
    if end then (do turn; turned text) else ux_callback_set_interval scrolling_text_delay

  -- The element 0x83 of the approval.
  unfoldable pub description_line : ℕ → Exec (Device Sha) (Unit {0})
  unfolding draw_window scroll_on
  description_line text = do draw_window text; scroll_on text

  unfoldable pub transaction_screen_prepro : Element → Exec (Device Sha) ℕ
  unfolding info_line description_line ux_callback_set_interval
  transaction_screen_prepro element = do
    state ← gets (λ s. s.ctx.txn_state)
    if state_code state == state_code txn_out
        then (do
          if element.userid == 0x80
              then (do text ← defined element.text; info_line text)
              else pure tt
          if element.userid == 0x83
              then (do text ← defined element.text; description_line text)
              else pure tt
          pure 1)
        else if element.userid == 0x01 || (element.userid == 0x02 || element.userid == 0x11)
        then pure 0
        else (do ux_callback_set_interval scrolling_text_delay; pure 1)

  -- The address from the offset on, cut to the characters of the screen.
  unfoldable pub copy_address : ℕ → Exec (Device Sha) (Unit {0})
  unfolding strcpy write_memory
  copy_address text = do
    offset ← gets (λ s. s.current_offset)
    from ← defined (pointer address_at offset)
    strcpy text from
    write_memory (text + screen_max_chars) (0 ∷ [])

  unfoldable pub scroll_address : Exec (Device Sha) (Unit {0})
  unfolding move_on at_end turn ux_callback_set_interval
  scroll_address = do
    move_on
    end ← at_end address_at
    if end
        then (do turn; ux_callback_set_interval scrolling_text_big_delay)
        else ux_callback_set_interval scrolling_text_delay

  unfoldable pub ui_address_scrolling_text_prepro : Element → Exec (Device Sha) ℕ
  unfolding copy_address scroll_address
  ui_address_scrolling_text_prepro element = do
    if element.userid == 0x83
        then (do text ← defined element.text; copy_address text; scroll_address)
        else pure tt
    pure 1

  unfoldable pub go_to_address_screen : Exec (Device Sha) (Unit {0})
  unfolding ux_display
  go_to_address_screen = do
    modify (λ s. record s {
      ux_step = 0;
      ux_step_count = 4;
      current_offset = pos 0;
      direction = pos 1;
    })
    ux_display bagl_ui_address
