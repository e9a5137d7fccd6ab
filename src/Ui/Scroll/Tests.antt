-- ===== src/Ui/Scroll/Tests.antt =====
-- An address of sixteen letters and an amount of one coin on the approval screen.
use ledger_nano.Base.{
  ℕ, zero, suc, ◌≡◌, refl, List, [], ◌∷◌, ◌++◌, arith, replicate, All, IsByte, ◌+◌, ◌*◌, ◌≤◌,
  length,
}
use ledger_nano.Base.Int.{pos}
use ledger_nano.Base.Exec.{fault}
use ledger_nano.Device.{Device, txn_out}
use ledger_nano.Device.Toy.{toy_device}
use ledger_nano.Crypto.Address.Text.{IsShown, address_bytes}
use ledger_nano.Ui.Memory.{memory}
use ledger_nano.Ui.Memory.Laws.{HasSizes}
use ledger_nano.Sdk.Toy.{toy, toy_laws}
use ledger_nano.Ui.Scroll.Copying.{OnAddress}
use ledger_nano.Ui.Scroll.Address.{Scrolled, ui_address_scrolling_text_prepro-Scrolled}
use ledger_nano.Ui.Scroll.Past.{Past, RunsOn, draw_lines, draw_lines-overrun}
use ledger_nano.Ui.Scroll.Opening.{Opened, prepare_output_approval-Opened}
use ledger_nano.Ui.Scroll.Position.{Position}
use ledger_nano.Ui.Scroll.Approving.{Approving}
use ledger_nano.Ui.Scroll.Redraw.{Redrawn, draw_elements-Redrawn}
use ledger_nano.Ui.Scroll.Amount.{ShowsAmount, redraw-ShowsAmount}

abbrev letters : List ℕ
letters = replicate 16 b'A'

abbrev one_coin : List ℕ
one_coin = b'1' ∷ b'.' ∷ []

abbrev asking : Device (List ℕ)
asking = record toy_device {
  out_address = letters ++ replicate 20 0;
  amount = one_coin ++ replicate 14 0;
  ctx = record toy_device.ctx { txn_state = txn_out };
}

shown : (n : ℕ) → IsShown (replicate n b'A')
shown zero = tt
shown (suc n) = (omega arith, shown n)

letters-IsShown : IsShown letters
letters-IsShown = shown 16

Approving-asking : Approving letters one_coin (pos 0) (pos 1) asking
unfolding memory
Approving-asking = record {
  sizes = record {
    words = refl;
    address = refl;
    address_copy = refl;
    line_1 = refl;
    line_2 = refl;
    current_output = refl;
    display = refl;
    out_address = refl;
    amount = refl;
  };
  approves = refl;
  address = record {
    rest = replicate 19 0 ++ (one_coin ++ replicate 14 0);
    holds = refl;
    shown = letters-IsShown;
  };
  long = omega arith;
  fits = omega arith;
  coins = record { rest = replicate 13 0; holds = refl; shown = (omega arith, (omega arith, tt)) };
  coins_fit = omega arith;
  line_end = refl;
  display_end = refl;
  offset = refl;
  direction = refl;
  position = Position.forth 0 (omega arith);
}

draw_elements-Redrawn_example : Redrawn letters one_coin (pos 0) (pos 1) asking
draw_elements-Redrawn_example =
    draw_elements-Redrawn letters one_coin (pos 0) (pos 1) asking Approving-asking

redraw-ShowsAmount_example : (k : ℕ) × (k + 28 ≤ 2 * length letters) × ShowsAmount one_coin k asking
redraw-ShowsAmount_example =
    redraw-ShowsAmount letters one_coin (pos 0) (pos 1) asking Approving-asking

abbrev output_hash : List ℕ
output_hash = replicate 20 3

abbrev reading : Device (List ℕ)
reading = record toy_device {
  ctx = record toy_device.ctx {
    txn_state = txn_out;
    txn = record toy_device.ctx.txn {
      cur_output = record { address = 0 ∷ output_hash; coin_num = 1_000_000; hour_num = 0 };
    };
  };
}

sizes-reading : HasSizes reading
sizes-reading = record {
  words = refl;
  address = refl;
  address_copy = refl;
  line_1 = refl;
  line_2 = refl;
  current_output = refl;
  display = refl;
  out_address = refl;
  amount = refl;
}

bytes : (n : ℕ) → All IsByte (replicate n 3)
bytes zero = tt
bytes (suc n) = (omega arith, bytes n)

prepare_output_approval-Opened_example :
    Opened
      (toy [])
      (toy_laws [])
      (address_bytes (toy_laws []) output_hash 0)
      1_000_000
      (pos 0)
      (pos 1)
      reading
prepare_output_approval-Opened_example =
    prepare_output_approval-Opened (toy []) (toy_laws []) reading output_hash 0 sizes-reading refl
      refl refl refl refl refl (bytes 20) (omega arith)

abbrev showing : Device (List ℕ)
showing = record toy_device { address = letters ++ replicate 20 0 }

OnAddress-showing : OnAddress letters (pos 0) (pos 1) showing
unfolding memory
OnAddress-showing = record {
  sizes = record {
    words = refl;
    address = refl;
    address_copy = refl;
    line_1 = refl;
    line_2 = refl;
    current_output = refl;
    display = refl;
    out_address = refl;
    amount = refl;
  };
  address = record { rest = replicate 139 0; holds = refl; shown = letters-IsShown };
  long = omega arith;
  fits = omega arith;
  front = refl;
  offset = refl;
  direction = refl;
  position = Position.forth 0 (omega arith);
}

ui_address_scrolling_text_prepro-Scrolled_example : Scrolled letters (pos 0) (pos 1) showing
ui_address_scrolling_text_prepro-Scrolled_example =
    ui_address_scrolling_text_prepro-Scrolled letters (pos 0) (pos 1) showing OnAddress-showing

-- The offset is that of an address of 35 characters at its right end.
abbrev overrunning : Device (List ℕ)
overrunning = record asking { current_offset = pos 20 }

Past-overrunning : Past letters 20 overrunning
unfolding memory
Past-overrunning = record {
  sizes = record {
    words = refl;
    address = refl;
    address_copy = refl;
    line_1 = refl;
    line_2 = refl;
    current_output = refl;
    display = refl;
    out_address = refl;
    amount = refl;
  };
  address = Approving-asking.address;
  offset = refl;
  direction = refl;
  past = omega arith;
}

draw_lines-overrun_example : RunsOn letters 20 7 overrunning × (draw_lines 19 overrunning ≡ fault)
draw_lines-overrun_example = draw_lines-overrun 7 11 letters 20 overrunning Past-overrunning refl
