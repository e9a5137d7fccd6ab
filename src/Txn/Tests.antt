-- ===== src/Txn/Tests.antt =====
-- The reader at work on the toy device: an input that comes in two packets.
use ledger_nano.Base.{
  ℕ, zero, suc, ◌≡◌, refl, inl, inr, List, [], ◌∷◌, ◌++◌, arith, length, replicate, All, read_bytes,
  write_bytes,
}
use ledger_nano.Base.Exec.{ok, fault}
use ledger_nano.Sdk.Toy.{toy}
use ledger_nano.Device.{Device, txn_in, txn_partial, max_inputs}
use ledger_nano.Device.Toy.{toy_device, receive}
use ledger_nano.Txn.Buffer.{save_data_to_buffer, save_and_throw}
use ledger_nano.Txn.Loop.{elem, next_elem, txn_loop, txn_next_elem}
use ledger_nano.Txn.Elements.{elem_start_in, elem_in}
use ledger_nano.Txn.Stream.{stream}
use ledger_nano.Txn.Reader.{progress}
use ledger_nano.Txn.Scan.{scan}
use ledger_nano.Txn.Step.{Refines}
use ledger_nano.Txn.Call.{CanRead, txn_next_elem-scan}
use ledger_nano.Txn.Sigs.{elem_compute_sigs}
use ledger_nano.Txn.Returned.{Ends, elem_compute_sigs-Ends}
use ledger_nano.Txn.Limits.{elem_in_overrun}
use ledger_nano.Txn.Lost.{KeepsPacketAlone, elem-KeepsPacketAlone}
use ledger_nano.Txn.Packets.{txn_next_elem-append}

-- Half of the number of inputs, which is 1.
abbrev first_packet : List ℕ
first_packet = 1 ∷ 0 ∷ []

-- The other half, and the input.
abbrev second_packet : List ℕ
second_packet = 0 ∷ 0 ∷ replicate 36 7

abbrev at_first : Device (List ℕ)
at_first = receive first_packet toy_device

-- What the first call leaves.
abbrev between : Device (List ℕ)
between = record at_first {
  ctx = record at_first.ctx {
    buffer = 1 ∷ 0 ∷ replicate 35 0;
    offset = 2;
    data_buffer = 7;
    data_length = 0;
  };
}

abbrev at_second : Device (List ℕ)
at_second = receive second_packet between

all_cells : (n : ℕ) → All (λ cell. length {A = ℕ} cell ≡ 65) (replicate n (replicate 65 0))
all_cells zero = tt
all_cells (suc n) = (refl, all_cells n)

CanRead-first : CanRead at_first
CanRead-first = record {
  sound = record {
    buffer_size = refl;
    in_apdu = omega arith;
    short = omega arith;
    part = omega arith;
  };
  ready = record { fits = inl (omega arith); entries = refl; cells = all_cells max_inputs };
  safe = inl refl;
  part = omega arith;
}

CanRead-second : CanRead at_second
CanRead-second = record {
  sound = record {
    buffer_size = refl;
    in_apdu = omega arith;
    short = omega arith;
    part = omega arith;
  };
  ready = record {
    fits = inr (omega arith, omega arith);
    entries = refl;
    cells = all_cells max_inputs;
  };
  safe = inr (omega arith);
  part = omega arith;
}

first_call : txn_next_elem (toy []) at_first ≡ ok txn_partial between
unfolding txn_next_elem txn_loop next_elem elem elem_start_in save_and_throw save_data_to_buffer
    read_bytes write_bytes
first_call = refl

txn_next_elem-scan_example :
    Refines at_second
      (scan (toy []) (progress at_second) (stream at_second))
      (txn_next_elem (toy []) at_second)
txn_next_elem-scan_example = txn_next_elem-scan (toy []) at_second CanRead-second

txn_next_elem-append_example :
    Refines at_second
      (scan (toy []) (progress at_first) (first_packet ++ second_packet))
      (txn_next_elem (toy []) at_second)
txn_next_elem-append_example =
    txn_next_elem-append (toy []) at_first between at_second second_packet CanRead-first
      CanRead-second first_call refl refl

-- Two inputs to sign.
abbrev signing : Device (List ℕ)
signing = record toy_device {
  ctx = record toy_device.ctx { txn = record toy_device.ctx.txn { in_num = 2 } };
}

elem_compute_sigs-Ends_example : Ends (elem_compute_sigs (toy []) signing)
elem_compute_sigs-Ends_example = elem_compute_sigs-Ends (toy []) signing

-- The 21st input.
abbrev one_too_many : Device (List ℕ)
one_too_many = receive (replicate 36 7) (record toy_device {
  ctx = record toy_device.ctx { curr_obj = 20; txn = record toy_device.ctx.txn { in_num = 21 } };
})

elem_in_overrun_example : elem_in (toy []) one_too_many ≡ fault
elem_in_overrun_example =
    elem_in_overrun (toy []) one_too_many
      (record {
        buffer_size = refl;
        in_apdu = omega arith;
        short = omega arith;
        part = omega arith;
      })
      (omega arith) (omega arith)

-- An input whose first and second packets have three bytes each.
abbrev second_part : Device (List ℕ)
second_part = receive (replicate 3 7) (record toy_device {
  ctx = record toy_device.ctx {
    txn_state = txn_in;
    offset = 3;
    buffer = 1 ∷ 2 ∷ 3 ∷ replicate 34 0;
  };
})

elem-KeepsPacketAlone_example : KeepsPacketAlone second_part (elem (toy []) txn_in second_part)
elem-KeepsPacketAlone_example =
    elem-KeepsPacketAlone (toy []) txn_in second_part
      (record {
        buffer_size = refl;
        in_apdu = omega arith;
        short = omega arith;
        part = omega arith;
      })
      (omega arith)
