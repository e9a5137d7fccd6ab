-- ===== src/Device/Toy.antt =====
-- A concrete device, idle, for the tests; its hash context is that of the toy SDK.
use ledger_nano.Base.{ℕ, List, [], ◌++◌, false, replicate, length}
use ledger_nano.Base.Int.{pos}
use ledger_nano.Device.{Device, txn_start_in, menu_main, max_inputs}

abbrev pub toy_device : Device (List ℕ)
toy_device = record {
  bip44_path = replicate 5 0;
  address = replicate 36 0;
  address_copy = replicate 16 0;
  custom_text_line_1 = replicate 16 0;
  custom_text_line_2 = replicate 16 0;
  current_output = replicate 4 0;
  current_output_display = replicate 16 0;
  out_address = replicate 36 0;
  amount = replicate 16 0;
  ctx = record {
    initialized = false;
    hash = [];
    txn_state = txn_start_in;
    txn = record {
      inner_hash = replicate 32 0;
      in_num = 0;
      sig_input = replicate max_inputs (replicate 65 0);
      out_num = 0;
      cur_output = record { address = replicate 21 0; coin_num = 0; hour_num = 0 };
    };
    buffer = replicate 37 0;
    offset = 0;
    curr_obj = 0;
    data_buffer = 5;
    data_length = 0;
  };
  apdu_buffer = replicate 260 0;
  tx = 0;
  asynch_reply = false;
  info_text = replicate 16 0;
  screen = menu_main;
  ux_step = 0;
  ux_step_count = 0;
  ux_loop_over_curr_element = 0;
  current_offset = pos 0;
  direction = pos 1;
  callback_interval = 0;
  sent = [];
}

-- A packet in the APDU buffer, behind its header.
abbrev pub receive : List ℕ → Device (List ℕ) → Device (List ℕ)
receive body s = record s {
  apdu_buffer = (replicate 5 0 ++ body) ++ replicate 200 0;
  ctx = record s.ctx { data_buffer = 5; data_length = length body };
}
