-- ===== src/System/Tests.antt =====
-- A reachable state of the toy device: the app starts, and the first packet of a transaction comes.
use ledger_nano.Base.{ℕ, refl, List, [], ◌∷◌, ◌++◌, true, replicate, take, read_bytes, write_bytes}
use ledger_nano.Sdk.Toy.{toy, toy_laws}
use ledger_nano.Device.{Device, transaction_screen}
use ledger_nano.Device.Toy.{toy_device}
use ledger_nano.Ui.Screens.{you_received, new_transaction}
use ledger_nano.Ui.Events.{released_right}
use ledger_nano.Main.{boot, main_round, no_address, dispatch, lookup_handler, run_handler, flush}
use ledger_nano.Apdu.SignTxn.{handle_sign_txn}
use ledger_nano.Ui.Screens.{go_to_transaction_screen}
use ledger_nano.System.Invariant.{Invariant}
use ledger_nano.System.Events.{packet, button, run_event, IsReset, Reach, start, later}
use ledger_nano.System.Reached.{Returns, Reach-Invariant, Reach-Returns}

abbrev reset_device : Device (List ℕ)
reset_device = record toy_device { info_text = replicate 16 0 }

toy-IsReset : IsReset 260 reset_device
toy-IsReset = record {
  fits = record {
    path_size = refl;
    address_size = refl;
    copy_size = refl;
    line_1_size = refl;
    line_2_size = refl;
    current_size = refl;
    display_size = refl;
    out_size = refl;
    amount_size = refl;
    apdu_size = refl;
    info_size = refl;
  };
  buffer = refl;
  inner_hash = refl;
  entries = refl;
  cells = (
    refl,
    (
      refl,
      (
        refl,
        (
          refl,
          (
            refl,
            (
              refl,
              (
                refl,
                (
                  refl,
                  (
                    refl,
                    (
                      refl,
                      (
                        refl,
                        (refl, (refl, (refl, (refl, (refl, (refl, (refl, (refl, (refl, tt))))))))),
                      ),
                    ),
                  ),
                ),
              ),
            ),
          ),
        ),
      ),
    ),
  );
  txn_state = refl;
  offset = refl;
  curr_obj = refl;
}

abbrev booted : Device (List ℕ)
booted = record reset_device { address = no_address ++ replicate 11 0 }

booted-Reach : Reach (toy []) 260 booted
unfolding boot write_bytes
booted-Reach = start toy-IsReset refl

abbrev first_packet : List ℕ
first_packet = 0x80 ∷ 0x10 ∷ 0 ∷ 0 ∷ 4 ∷ 1 ∷ 0 ∷ 0 ∷ 0 ∷ []

abbrev asked : Device (List ℕ)
asked = record booted {
  apdu_buffer = first_packet ++ replicate 251 0;
  ctx = record booted.ctx { data_length = 4 };
  custom_text_line_1 = you_received ++ replicate 2 0;
  custom_text_line_2 = take 16 new_transaction;
  ux_step_count = 4;
  screen = transaction_screen;
  asynch_reply = true;
}

asked-Reach : Reach (toy []) 260 asked
unfolding run_event main_round dispatch lookup_handler run_handler handle_sign_txn
    go_to_transaction_screen flush write_bytes read_bytes
asked-Reach = later booted-Reach (packet first_packet) refl

Reach-Invariant_example : Invariant 260 asked
Reach-Invariant_example = Reach-Invariant (toy []) (toy_laws []) 260 asked asked-Reach

Reach-Returns_example : Returns (run_event (toy []) (button released_right) asked)
Reach-Returns_example =
    Reach-Returns (toy []) (toy_laws []) 260 asked asked-Reach (button released_right)
