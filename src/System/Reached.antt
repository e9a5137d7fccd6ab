-- ===== src/System/Reached.antt =====
-- The invariant and the states that the app reaches.
use ledger_nano.Base.{ℕ, ◌≡◌, sym, arith}
use mathlib.Core.Path.{subst}
use ledger_nano.Base.Exec.{Outcome, ok, throw, fault, stuck, pure}
use ledger_nano.Base.Post.{Post}
use ledger_nano.Sdk.{Sdk, SdkLaws}
use ledger_nano.Device.{
  Device, Screen, menu_main, bagl_ui_address, transaction_screen, bagl_info_text,
}
use ledger_nano.Ui.Events.{ButtonEvent}
use ledger_nano.Ui.Scroll.{Element}
use ledger_nano.Main.{boot}
use ledger_nano.System.Invariant.{Never, Invariant, Waits, Keeps, bind-Keeps}
use ledger_nano.System.Screens.{
  bagl_ui_address_button-Keeps, bagl_info_text_button-Keeps, ticker_event-Keeps,
}
use ledger_nano.System.Drawing.{
  ui_address_scrolling_text_prepro-Keeps, transaction_screen_prepro-Keeps,
  go_to_address_screen-Keeps,
}
use ledger_nano.System.Transactions.{transaction_screen_button-Keeps}
use ledger_nano.System.Rounds.{main_round-Keeps, boot-Keeps}
use ledger_nano.System.Events.{
  Event, packet, button, draw, tick, address_entry, run_button, run_draw, run_address_entry,
  run_event, IsReset, Reach, start, later,
}

-- The action ends without an exception, unless the code does what C leaves undefined.
abbrev pub Returns : {S A : Type 0} → Outcome S A → Type 0
Returns (ok a s) = Unit
Returns (throw e s) = ⊥
Returns fault = Unit
Returns stuck = ⊥

module _ (sdk : Sdk) (laws : SdkLaws sdk) (room : ℕ) where
  run_button-Keeps : (screen : Screen) (e : ButtonEvent) → Keeps room (run_button sdk screen e)
  run_button-Keeps menu_main e = λ s v. v
  run_button-Keeps bagl_ui_address e = bagl_ui_address_button-Keeps e
  run_button-Keeps transaction_screen e = transaction_screen_button-Keeps sdk laws e
  run_button-Keeps bagl_info_text e = bagl_info_text_button-Keeps e

  run_draw-Keeps : (screen : Screen) (e : Element) → Keeps room (run_draw sdk screen e)
  run_draw-Keeps menu_main e = λ s v. v
  run_draw-Keeps bagl_ui_address e = ui_address_scrolling_text_prepro-Keeps e
  run_draw-Keeps transaction_screen e = transaction_screen_prepro-Keeps e
  run_draw-Keeps bagl_info_text e = λ s v. v

  run_address_entry-Keeps : (screen : Screen) → Keeps room (run_address_entry sdk screen)
  run_address_entry-Keeps menu_main = go_to_address_screen-Keeps
  run_address_entry-Keeps bagl_ui_address = λ s v. v
  run_address_entry-Keeps transaction_screen = λ s v. v
  run_address_entry-Keeps bagl_info_text = λ s v. v

  run_event-Keeps : (e : Event) → Keeps room (run_event sdk e)
  unfolding run_event
  run_event-Keeps (packet bytes) s v = main_round-Keeps sdk laws bytes s v
  run_event-Keeps (button e) s v = run_button-Keeps s.screen e s v
  run_event-Keeps (draw e) s v =
      bind-Keeps room (run_draw sdk s.screen e s) _ (run_draw-Keeps s.screen e s v) (λ _ t w. w)
  run_event-Keeps (tick allowed) s v = ticker_event-Keeps allowed (pure tt) (λ t w. w) s v
  run_event-Keeps address_entry s v = run_address_entry-Keeps s.screen s v

  reset : (s : Device sdk.Sha256) → IsReset room s → Invariant room s
  reset s r = (
    r.fits,
    record {
      buffer = r.buffer;
      inner_hash = r.inner_hash;
      entries = r.entries;
      cells = r.cells;
      curr_obj = omega (arith, r.curr_obj);
      waits = subst (λ st. Waits st s.ctx.offset) (sym r.txn_state) (omega (arith, r.offset));
    },
  )

  returned :
      (o : Outcome (Device sdk.Sha256) (Unit {0})) (t : Device sdk.Sha256)
      → Post (Invariant room) Never o
      → o ≡ ok tt t
      → Invariant room t
  returned o t h e = subst (λ o. Post (Invariant room) Never o) e h

  -- In every state that the app reaches from its start (the arrays of their sizes, txn_state,
  -- offset and curr_obj 0) by packets, buttons, drawings, ticks and the menu entry, in any order,
  -- where no call was undefined in C: every array of global, the APDU buffer and info_text have
  -- the sizes that they were declared with, sig_input has 20 entries of 65 bytes, inner_hash has
  -- 32, curr_obj is a byte, and buffer holds fewer bytes than the element that txn_state waits
  -- for; the SDK's digests are taken to have 32 bytes.
  pub Reach-Invariant : (s : Device sdk.Sha256) → Reach sdk room s → Invariant room s
  Reach-Invariant t (start {s = s} r e) =
      returned (boot sdk s) t (boot-Keeps sdk room s (reset s r)) e
  Reach-Invariant t (later {s = s} r e h) =
      returned (run_event sdk e s) t (run_event-Keeps e s (Reach-Invariant s r)) h

  Post-Returns :
      (o : Outcome (Device sdk.Sha256) (Unit {0})) → Post (Invariant room) Never o → Returns o
  Post-Returns (ok a s) h = tt
  Post-Returns (throw e s) h = h
  Post-Returns fault h = tt
  Post-Returns stuck h = h

  -- In every state that the app reaches in such a way, every packet, button, drawing, tick and
  -- menu entry ends, and no exception leaves it: it returns, unless it does what C leaves
  -- undefined; the SDK's digests are taken to have 32 bytes.
  pub Reach-Returns :
      (s : Device sdk.Sha256) → Reach sdk room s → (e : Event) → Returns (run_event sdk e s)
  Reach-Returns s r e = Post-Returns (run_event sdk e s) (run_event-Keeps e s (Reach-Invariant s r))
