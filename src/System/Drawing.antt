-- ===== src/System/Drawing.antt =====
-- The invariant and the preprocessors of src/ui, which write behind their arrays.
use ledger_nano.Base.{
  ℕ, ◌+◌, ◌∙◌, List, [], ◌∷◌, none, Bool, true, false, leb, ◌==◌, ◌||◌, if◌then◌else◌, read_bytes,
  write_bytes, drop,
}
use ledger_nano.Base.Int.{pos, negsuc, ◌+ℤ◌, is_ℤ}
use ledger_nano.Base.Exec.{defined, pure, ◌>>=◌, ◌>>◌}
use ledger_nano.Base.Post.{Yields, SameLength, write_bytes-SameLength, defined-Post}
use ledger_nano.Device.{state_code, txn_out}
use ledger_nano.Crypto.Address.{strlen}
use ledger_nano.Ui.Format.{screen_max_chars}
use ledger_nano.Ui.Screens.{ux_display}
use ledger_nano.Ui.Memory.{
  memory, store, read_memory, write_memory, strlen_at, strcpy, address_at, amount_at,
  out_address_at,
}
use ledger_nano.Ui.Memory.Laws.{length-memory, HasSizes-store}
use ledger_nano.Ui.Scroll.{
  Element, pointer, ux_callback_set_interval, move_on, at_end, turn, info_line, turned, draw_window,
  scroll_on, description_line, transaction_screen_prepro, copy_address, scroll_address,
  ui_address_scrolling_text_prepro, go_to_address_screen, address_label, sky_label,
}
use ledger_nano.System.Invariant.{
  Never, Invariant, Keeps, Fitting-HasSizes, HasSizes-Fitting, bind-Keeps, any-Keeps, access-Keeps,
  if-Keeps,
}
use ledger_nano.System.Screens.{Keeps-then}

guarded :
    (b : Bool) (mem : List ℕ) (at : ℕ) (bs : List ℕ)
    → Yields (SameLength mem) (if b then write_bytes mem at bs else none)
guarded true mem at bs = write_bytes-SameLength mem at bs
guarded false mem at bs = tt

module _ {Sha : Type 0} {room : ℕ} where
  write_memory-Keeps : (at : ℕ) (bs : List ℕ) → Keeps {Sha = Sha} room (write_memory at bs)
  unfolding write_memory store
  write_memory-Keeps at bs s v =
      let sizes = Fitting-HasSizes s v.0 in
      defined-Post (Invariant room) Never (SameLength (memory s))
        (if leb address_at at then write_bytes (memory s) at bs else none) _ s
        (guarded (leb address_at at) (memory s) at bs)
        (λ m e. (
          HasSizes-Fitting (store m s)
              (HasSizes-store m s (e ∙ length-memory s sizes) v.0.path_size) v.0.apdu_size
              v.0.info_size,
          v.1,
        ))

  read_memory-Keeps : (at n : ℕ) → Keeps {Sha = Sha} room (read_memory at n)
  unfolding read_memory
  read_memory-Keeps at n s v = access-Keeps room (read_bytes (memory s) at n) s v

  strlen_at-Keeps : (at : ℕ) → Keeps {Sha = Sha} room (strlen_at at)
  unfolding strlen_at
  strlen_at-Keeps at s v = access-Keeps room (strlen (drop at (memory s))) s v

  strcpy-Keeps : (to from : ℕ) → Keeps {Sha = Sha} room (strcpy to from)
  unfolding strcpy
  strcpy-Keeps to from s v =
      bind-Keeps room (strlen_at from s) _ (strlen_at-Keeps from s v) (λ n t w.
        bind-Keeps room (read_memory from (n + 1) t) _ (read_memory-Keeps from (n + 1) t w)
          (λ bs. write_memory-Keeps to bs))

  at_end-Keeps : (text : ℕ) → Keeps {Sha = Sha} room (at_end text)
  unfolding at_end
  at_end-Keeps text s v =
      if-Keeps room (is_ℤ s.current_offset (negsuc 0)) _ _ (λ t w. w)
        (λ t w. bind-Keeps room (strlen_at text t) _ (strlen_at-Keeps text t w) (λ n u x. x)) s v

  info_line-Keeps : (text : ℕ) → Keeps {Sha = Sha} room (info_line text)
  unfolding info_line ux_callback_set_interval
  info_line-Keeps text s v =
      bind-Keeps room (write_memory text address_label s) _
        (write_memory-Keeps text address_label s v)
        (λ _ t w.
          if-Keeps room (is_ℤ t.current_offset (negsuc 0)) _ _
            (λ u x.
              bind-Keeps room (write_memory text sky_label u) _
                (write_memory-Keeps text sky_label u x) (λ _ z y. y))
            (λ u x. x) t w)

  turned-Keeps : (text : ℕ) → Keeps {Sha = Sha} room (turned text)
  unfolding turned ux_callback_set_interval
  turned-Keeps text s v =
      if-Keeps room (is_ℤ s.direction (pos 1)) _ _
        (λ t w.
          bind-Keeps room (strcpy text amount_at t) _ (strcpy-Keeps text amount_at t w)
            (λ _ u x. x))
        (λ t w. w) s v

  draw_window-Keeps : (text : ℕ) → Keeps {Sha = Sha} room (draw_window text)
  unfolding draw_window
  draw_window-Keeps text s v = any-Keeps room (pointer out_address_at s.current_offset) _ s (λ from.
      bind-Keeps room (read_memory from 15 s) _ (read_memory-Keeps from 15 s v) (λ window t w.
        Keeps-then (write_memory text window) (write_memory (text + screen_max_chars) (0 ∷ []))
          (write_memory-Keeps text window) (write_memory-Keeps (text + screen_max_chars) (0 ∷ [])) t
          w))

  scroll_on-Keeps : (text : ℕ) → Keeps {Sha = Sha} room (scroll_on text)
  unfolding scroll_on move_on turn ux_callback_set_interval
  scroll_on-Keeps text s v =
      let moved = record s { current_offset = s.current_offset +ℤ s.direction } in
      bind-Keeps room (at_end out_address_at moved) _ (at_end-Keeps out_address_at moved v)
        (λ end t w.
          if-Keeps room end _ _ (Keeps-then turn (turned text) (λ u x. x) (turned-Keeps text))
            (λ u x. x) t w)

  description_line-Keeps : (text : ℕ) → Keeps {Sha = Sha} room (description_line text)
  unfolding description_line
  description_line-Keeps text =
      Keeps-then (draw_window text) (scroll_on text) (draw_window-Keeps text) (scroll_on-Keeps text)

  copy_address-Keeps : (text : ℕ) → Keeps {Sha = Sha} room (copy_address text)
  unfolding copy_address
  copy_address-Keeps text s v = any-Keeps room (pointer address_at s.current_offset) _ s (λ from.
      Keeps-then (strcpy text from) (write_memory (text + screen_max_chars) (0 ∷ []))
        (strcpy-Keeps text from) (write_memory-Keeps (text + screen_max_chars) (0 ∷ [])) s v)

  scroll_address-Keeps : Keeps {Sha = Sha} room scroll_address
  unfolding scroll_address move_on turn ux_callback_set_interval
  scroll_address-Keeps s v =
      let moved = record s { current_offset = s.current_offset +ℤ s.direction } in
      bind-Keeps room (at_end address_at moved) _ (at_end-Keeps address_at moved v)
        (λ end t w. if-Keeps room end _ _ (λ u x. x) (λ u x. x) t w)

  pub ui_address_scrolling_text_prepro-Keeps :
      (e : Element) → Keeps {Sha = Sha} room (ui_address_scrolling_text_prepro e)
  unfolding ui_address_scrolling_text_prepro
  ui_address_scrolling_text_prepro-Keeps e s v =
      bind-Keeps room
        ((if e.userid == 0x83
            then (do text ← defined e.text; copy_address text; scroll_address)
            else pure tt)
          s)
        _
        (if-Keeps room (e.userid == 0x83) _ _
          (λ t w. any-Keeps room e.text _ t (λ text.
            Keeps-then (copy_address text) scroll_address (copy_address-Keeps text)
              scroll_address-Keeps t w))
          (λ t w. w) s v)
        (λ _ t w. w)

  pub transaction_screen_prepro-Keeps :
      (e : Element) → Keeps {Sha = Sha} room (transaction_screen_prepro e)
  unfolding transaction_screen_prepro ux_callback_set_interval
  transaction_screen_prepro-Keeps e s v =
      if-Keeps room (state_code s.ctx.txn_state == state_code txn_out) _ _
        (λ t w.
          bind-Keeps room
            ((if e.userid == 0x80 then (do text ← defined e.text; info_line text) else pure tt) t) _
            (if-Keeps room (e.userid == 0x80) _ _
              (λ u x. any-Keeps room e.text _ u (λ text. info_line-Keeps text u x)) (λ u x. x) t w)
            (λ _ z y.
              bind-Keeps room
                ((if e.userid == 0x83
                    then (do text ← defined e.text; description_line text)
                    else pure tt)
                  z)
                _
                (if-Keeps room (e.userid == 0x83) _ _
                  (λ u x. any-Keeps room e.text _ u (λ text. description_line-Keeps text u x))
                  (λ u x. x) z y)
                (λ _ u x. x)))
        (if-Keeps room (e.userid == 0x01 || (e.userid == 0x02 || e.userid == 0x11)) _ _ (λ t w. w)
          (λ t w. w))
        s v

  pub go_to_address_screen-Keeps : Keeps {Sha = Sha} room go_to_address_screen
  unfolding go_to_address_screen ux_display
  go_to_address_screen-Keeps s v = v
