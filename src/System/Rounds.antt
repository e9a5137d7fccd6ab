-- ===== src/System/Rounds.antt =====
-- The invariant, a round of the loop of src/main.c, and `main`.
use ledger_nano.Base.{ℕ, List, length, get_elem?, false, Option, none, some, ◌||◌, ◌==◌}
use ledger_nano.Base.Exec.{Outcome, ok, throw, fault, stuck}
use ledger_nano.Base.Post.{Post, any-Post, if-Post}
use ledger_nano.Sdk.{Sdk, SdkLaws}
use ledger_nano.Device.{Device}
use ledger_nano.Ui.Screens.{ui_idle}
use ledger_nano.Apdu.SignTxn.{handle_sign_txn}
use ledger_nano.System.Fits as Fits
use ledger_nano.System.Invariant.{
  Never, Keeps-Stays, Stays, Invariant, Keeps, write-Keeps, if-Keeps,
}
use ledger_nano.System.Screens.{Keeps-then, io_exchange-Keeps, ui_idle-Keeps}
use ledger_nano.Main.{
  Handler, initialize, boot, run_handler, run_found, dispatch, report, caught, flush, main_round,
  lookup_handler, no_address, cla, get_version, get_public_key, get_signed_public_key, get_address,
  sign_txn, offset_ins, offset_p1, offset_lc, offset_cdata,
}
use ledger_nano.System.Handlers.{
  set_initialized-Keeps, handle_get_version-Stays, handle_get_public_key-Stays,
  handle_get_signed_public_key-Stays, handle_get_address-Stays,
}
use ledger_nano.System.Transactions.{handle_sign_txn-Keeps}

module _ (sdk : Sdk) (room : ℕ) where
  report-Keeps : (e : ℕ) → Keeps room (report sdk e)
  unfolding report
  report-Keeps e s v =
      write-Keeps room s.apdu_buffer s.tx _ _ s (λ new same. (Fits.with_apdu v.0 new same, v.1))

  flush-Keeps : Keeps room (flush sdk)
  unfolding flush
  flush-Keeps s v =
      if-Keeps room (s.asynch_reply || s.tx == 0) _ _ (λ t w. w) (io_exchange-Keeps s.tx)
        (record s { tx = 0 }) v

  caught-Keeps :
      (o : Outcome (Device sdk.Sha256) (Unit {0}))
      → Post (Invariant room) (Invariant room) o
      → Post (Invariant room) Never (caught sdk o)
  caught-Keeps (ok u s) v = v
  caught-Keeps (throw e s) v = report-Keeps e s v
  caught-Keeps fault v = tt
  caught-Keeps stuck v = v

  initialize-Keeps : Keeps room (initialize sdk)
  unfolding initialize
  initialize-Keeps s v = write-Keeps room s.address 0 no_address _ s (λ new e.
      set_initialized-Keeps false (record s { address = new }) (Fits.with_address v.0 new e, v.1))

  pub boot-Keeps : Keeps room (boot sdk)
  unfolding boot
  boot-Keeps = Keeps-then ui_idle (initialize sdk) ui_idle-Keeps initialize-Keeps

module _ (sdk : Sdk) (laws : SdkLaws sdk) {room : ℕ} where
  run_handler-Stays : (h : Handler) (p1 lc : ℕ) → Stays room (run_handler sdk h p1 lc)
  unfolding run_handler
  run_handler-Stays get_version p1 lc = handle_get_version-Stays
  run_handler-Stays get_public_key p1 lc = handle_get_public_key-Stays sdk offset_cdata
  run_handler-Stays get_signed_public_key p1 lc =
      handle_get_signed_public_key-Stays sdk offset_cdata
  run_handler-Stays get_address p1 lc = handle_get_address-Stays sdk offset_cdata
  run_handler-Stays sign_txn p1 lc =
      Keeps-Stays (handle_sign_txn sdk p1 offset_cdata lc)
        (handle_sign_txn-Keeps sdk laws p1 offset_cdata lc)

  run_found-Stays : (h : Option Handler) (p1 lc : ℕ) → Stays room (run_found sdk h p1 lc)
  run_found-Stays none p1 lc = λ s v. v
  run_found-Stays (some h) p1 lc = run_handler-Stays h p1 lc

  dispatch-Stays : (rx : ℕ) → Stays room (dispatch sdk rx)
  unfolding dispatch
  dispatch-Stays rx s v =
      any-Post (Invariant room) (Invariant room) (get_elem? s.apdu_buffer 0) _
        (record s { asynch_reply = false })
        (λ first.
          any-Post (Invariant room) (Invariant room) (get_elem? s.apdu_buffer offset_ins) _
            (record s { asynch_reply = false })
            (λ ins.
              any-Post (Invariant room) (Invariant room) (get_elem? s.apdu_buffer offset_p1) _
                (record s { asynch_reply = false })
                (λ p1.
                  any-Post (Invariant room) (Invariant room) (get_elem? s.apdu_buffer offset_lc) _
                    (record s { asynch_reply = false })
                    (λ lc.
                      if-Post (Invariant room) (Invariant room) (rx == 0) _ _ _ (λ _. v)
                        (λ _.
                          if-Post (Invariant room) (Invariant room) (first == cla) _ _ _
                            (λ _.
                              run_found-Stays (lookup_handler ins) p1 lc
                                (record s { asynch_reply = false }) v)
                            (λ _. v))))))

  pub main_round-Keeps : (packet : List ℕ) → Keeps room (main_round sdk packet)
  unfolding main_round
  main_round-Keeps packet s v = write-Keeps room s.apdu_buffer 0 packet _ s (λ new e.
      Keeps-then (λ t. caught sdk (dispatch sdk (length packet) t)) (flush sdk)
        (λ t w.
          caught-Keeps sdk room (dispatch sdk (length packet) t)
            (dispatch-Stays (length packet) t w))
        (flush-Keeps sdk room) (record s { apdu_buffer = new; tx = 0 })
        (Fits.with_apdu v.0 new e, v.1))
