-- ===== src/Main/Delivered/Tests.antt =====
-- Four inputs signed, and their signatures returned in two answers, on the toy device.
use ledger_nano.Base.{ℕ, ◌≡◌, refl, true, List, [], ◌∷◌, ◌++◌, some, arith, replicate, map}
use ledger_nano.Sdk.Toy.{toy, toy_laws}
use ledger_nano.Device.{Device, txn_compute_sigs}
use ledger_nano.Device.Toy.{toy_device}
use ledger_nano.Crypto.Signature.Convert.{sign-tlv}
use ledger_nano.Txn.Signing.{IsSignature}
use ledger_nano.Main.Replies.{messages}
use ledger_nano.Main.Batches.{Ask, ask_packet, batches, run_rounds}
use ledger_nano.Main.Delivered.{Approved, run_rounds-signatures}

abbrev cell : List ℕ
cell = replicate 32 7 ++ (5 ∷ 0 ∷ 0 ∷ 0 ∷ replicate 29 0)

abbrev signature : List ℕ
signature = (replicate 32 1 ++ replicate 32 2) ++ 1 ∷ []

abbrev unused : List (List ℕ)
unused = replicate 16 (replicate 65 0)

abbrev approved : Device (List ℕ)
approved = record toy_device {
  bip44_path = 44 ∷ 8000 ∷ 0 ∷ 0 ∷ 9 ∷ [];
  info_text = replicate 16 0;
  ctx = record toy_device.ctx {
    initialized = true;
    txn_state = txn_compute_sigs;
    txn = record toy_device.ctx.txn { in_num = 4; sig_input = replicate 4 cell ++ unused };
  };
}

signs : IsSignature (toy []) (toy_laws []) 44 8000 0 0 (replicate 32 0) cell signature
signs = record {
  cell_size = refl;
  size = refl;
  signed =
      sign-tlv (toy []) (44 ∷ 8000 ∷ 0 ∷ 0 ∷ 5 ∷ []) (replicate 32 64) [] (replicate 32 1) []
        (replicate 32 2) refl refl refl;
}

approved-Approved :
    Approved
      (toy [])
      (toy_laws [])
      44
      8000
      0
      0
      9
      (replicate 4 cell)
      (replicate 4 signature)
      unused
      approved
approved-Approved = record {
  begun = refl;
  state = refl;
  path = refl;
  number = refl;
  few = omega arith;
  entries = refl;
  signatures = (signs, (signs, (signs, (signs, tt))));
  room = omega arith;
  message = omega arith;
}

abbrev ask : Ask
ask = record { p2 = 0; lc = 0; body = [] }

run_rounds-signatures_example :
    messages (run_rounds (toy []) (map ask_packet (ask ∷ ask ∷ [])) approved)
    ≡ some (batches 2 (replicate 4 signature))
run_rounds-signatures_example =
    run_rounds-signatures (toy []) (toy_laws []) 44 8000 0 0 9 (replicate 4 cell)
      (replicate 4 signature) unused ask (ask ∷ []) approved approved-Approved
      (omega arith, (omega arith, tt)) (omega arith) (omega arith)
