-- ===== src/Ui/Menu.antt =====
-- The menus of src/ui/main_ui.c, tables that the SDK walks: an entry shows another menu or calls a
-- function. UX_MENU_END is the end of the list; an icon is one of src/glyphs.c, and the positions
-- are those of `ux_menu_entry_t`.
use ledger_nano.Base.{ℕ, List, [], ◌∷◌, Option, none, some}
use ledger_nano.Apdu.Keys.{app_version}

pub data Menu : Type 0 where
  main_entries : Menu
  settings_entries : Menu
  about_entries : Menu

-- The functions that an entry calls: the app's own, and the SDK's, which ends the app.
pub data Callback : Type 0 where
  calls_go_to_address_screen : Callback
  calls_os_sched_exit : Callback

pub data Icon : Type 0 where
  icon_back : Icon
  icon_dashboard : Icon

pub record MenuEntry : Type 0 where
  pub menu : Option Menu
  pub callback : Option Callback
  pub userid : ℕ
  pub icon : Option Icon
  pub line_1 : List ℕ
  pub line_2 : Option (List ℕ)
  pub text_x : ℕ
  pub icon_x : ℕ

-- A text line alone.
abbrev menu_line : List ℕ → MenuEntry
menu_line text = record {
  menu = none;
  callback = none;
  userid = 0;
  icon = none;
  line_1 = text;
  line_2 = none;
  text_x = 0;
  icon_x = 0;
}

-- `{menu_main, NULL, 1, &C_nanos_icon_back, "Back", NULL, 61, 40}`.
abbrev menu_back : MenuEntry
menu_back = record (menu_line (b'B' ∷ b'a' ∷ b'c' ∷ b'k' ∷ 0 ∷ [])) {
  menu = some main_entries;
  userid = 1;
  icon = some icon_back;
  text_x = 61;
  icon_x = 40;
}

abbrev pub menu_settings : List MenuEntry
menu_settings =
    record (menu_line (b'A' ∷ b'd' ∷ b'd' ∷ b'r' ∷ b'e' ∷ b's' ∷ b's' ∷ 0 ∷ [])) {
      callback = some calls_go_to_address_screen;
    }
    ∷ menu_back
    ∷ []

abbrev pub menu_about : List MenuEntry
menu_about =
    record (menu_line (b'V' ∷ b'e' ∷ b'r' ∷ b's' ∷ b'i' ∷ b'o' ∷ b'n' ∷ 0 ∷ [])) {
      line_2 = some app_version;
    }
    ∷ menu_back
    ∷ []

-- "Use wallet to", "view accounts"; "Settings"; "About"; "Quit app".
abbrev pub menu_main : List MenuEntry
menu_main =
    record (menu_line (
      b'U' ∷ b's' ∷ b'e' ∷ b' ' ∷ b'w' ∷ b'a' ∷ b'l' ∷ b'l' ∷ b'e' ∷ b't' ∷ b' ' ∷ b't' ∷ b'o' ∷ 0
      ∷ [])) {
        line_2 = some (
            b'v' ∷ b'i' ∷ b'e' ∷ b'w' ∷ b' ' ∷ b'a' ∷ b'c' ∷ b'c' ∷ b'o' ∷ b'u' ∷ b'n' ∷ b't' ∷ b's'
            ∷ 0 ∷ []);
      }
    ∷ record (menu_line (b'S' ∷ b'e' ∷ b't' ∷ b't' ∷ b'i' ∷ b'n' ∷ b'g' ∷ b's' ∷ 0 ∷ [])) {
      menu = some settings_entries;
    }
    ∷ record (menu_line (b'A' ∷ b'b' ∷ b'o' ∷ b'u' ∷ b't' ∷ 0 ∷ [])) { menu = some about_entries }
    ∷ record (menu_line (b'Q' ∷ b'u' ∷ b'i' ∷ b't' ∷ b' ' ∷ b'a' ∷ b'p' ∷ b'p' ∷ 0 ∷ [])) {
      callback = some calls_os_sched_exit;
      icon = some icon_dashboard;
      text_x = 50;
      icon_x = 29;
    }
    ∷ []

abbrev pub menu_entries : Menu → List MenuEntry
menu_entries main_entries = menu_main
menu_entries settings_entries = menu_settings
menu_entries about_entries = menu_about
