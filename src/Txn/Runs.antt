-- ===== src/Txn/Runs.antt =====
-- A transaction of one input and one output, in one packet, on the toy device.
use ledger_nano.Base.{
  ℕ, zero, suc, true, ◌≡◌, refl, inl, inr, List, [], ◌∷◌, ◌++◌, arith, length, replicate, All,
  read_bytes, write_bytes,
}
use mathlib.Core.Path.{subst}
use ledger_nano.Base.Exec.{ok}
use ledger_nano.Sdk.Toy.{toy, toy_laws}
use ledger_nano.Device.{Device, txn_out, txn_partial_out, txn_ready}
use ledger_nano.Device.Toy.{toy_device, receive}
use ledger_nano.Txn.Buffer.{
  save_data_to_buffer, save_and_throw, read_data_to_buffer, hash_buffer, hash_buffer_last,
}
use ledger_nano.Txn.Elements.{elem_start_in, elem_in, elem_start_out, elem_out, finish_out}
use ledger_nano.Txn.Loop.{elem, next_elem, txn_loop, txn_next_elem}
use ledger_nano.Txn.Stream.{stream}
use ledger_nano.Txn.Reader.{progress}
use ledger_nano.Txn.Scan.{scanned}
use ledger_nano.Txn.Call.{CanRead}
use ledger_nano.Txn.Serial.{
  Input, Output, low_bytes, to_le, serialized_input, serialized_output, txn_in_out,
}
use ledger_nano.Txn.Shown.{ShowsOutput}
use ledger_nano.Txn.Whole.{IsTxn, IsFresh, ReadTxn}
use ledger_nano.Txn.Session.{Session, Session-ReadTxn, Session-ShowsOutput}

abbrev pub input : Input
input = record { uxid = replicate 32 7; address_index = 5 }

abbrev pub output : Output
output = record { addr = replicate 21 3; amount = 3; fee = 4 }

abbrev output_bytes : List ℕ
output_bytes =
    replicate 21 3 ++ (3 ∷ 0 ∷ 0 ∷ 0 ∷ 0 ∷ 0 ∷ 0 ∷ 0 ∷ 4 ∷ 0 ∷ 0 ∷ 0 ∷ 0 ∷ 0 ∷ 0 ∷ 0 ∷ [])

abbrev packet : List ℕ
packet = 1 ∷ 0 ∷ 0 ∷ 0 ∷ (replicate 32 7 ++ (5 ∷ 0 ∷ 0 ∷ 0 ∷ 1 ∷ 0 ∷ 0 ∷ 0 ∷ output_bytes))

packet_txn : packet ≡ txn_in_out (input ∷ []) (output ∷ [])
unfolding txn_in_out serialized_input serialized_output to_le low_bytes
packet_txn = refl

abbrev pub first : Device (List ℕ)
first = receive packet (record toy_device { ctx = record toy_device.ctx { initialized = true } })

-- What the first call leaves.
abbrev pub shown : Device (List ℕ)
shown = record first {
  ctx = record first.ctx {
    hash = 1 ∷ 0 ∷ 0 ∷ 0 ∷ (replicate 32 7 ++ (1 ∷ 0 ∷ 0 ∷ 0 ∷ output_bytes));
    txn_state = txn_out;
    txn = record {
      inner_hash = replicate 32 77;
      in_num = 1;
      sig_input =
          (replicate 32 7 ++ (5 ∷ 0 ∷ 0 ∷ 0 ∷ replicate 29 0)) ∷ replicate 19 (replicate 65 0);
      out_num = 1;
      cur_output = record { address = replicate 21 3; coin_num = 3; hour_num = 4 };
    };
    buffer = output_bytes;
    offset = 0;
    curr_obj = 1;
    data_buffer = 86;
    data_length = 0;
  };
}

first_call : txn_next_elem (toy []) first ≡ ok txn_partial_out shown
unfolding txn_next_elem txn_loop next_elem elem elem_start_in elem_in elem_start_out elem_out
    finish_out save_and_throw save_data_to_buffer read_data_to_buffer hash_buffer hash_buffer_last
    read_bytes write_bytes
first_call = refl

cells : (n : ℕ) → All (λ cell. length {A = ℕ} cell ≡ 65) (replicate n (replicate 65 0))
cells zero = tt
cells (suc n) = (refl, cells n)

CanRead-first : CanRead first
CanRead-first = record {
  sound = record {
    buffer_size = refl;
    in_apdu = omega arith;
    short = omega arith;
    part = omega arith;
  };
  ready = record { fits = inr (omega arith, omega arith); entries = refl; cells = cells 20 };
  safe = inl refl;
  part = omega arith;
}

pub CanRead-shown : CanRead shown
CanRead-shown = record {
  sound = record {
    buffer_size = refl;
    in_apdu = omega arith;
    short = omega arith;
    part = omega arith;
  };
  ready = record { fits = tt; entries = refl; cells = (refl, cells 19) };
  safe = inl refl;
  part = omega arith;
}

pub IsFresh-first : IsFresh (toy []) (toy_laws []) (progress first)
IsFresh-first = record { at_start = refl; no_hash = refl; entries = refl }

pub one_and_one : IsTxn (input ∷ []) (output ∷ [])
one_and_one = record {
  some_input = omega arith;
  few_inputs = omega arith;
  some_output = omega arith;
  few_outputs = omega arith;
  all_inputs = (record { uxid_size = refl; index_fits = omega arith }, tt);
  all_outputs =
      (record { addr_size = refl; amount_fits = omega arith; fee_fits = omega arith }, tt);
}

Session-begin : Session (toy []) first 0 packet first
Session-begin = Session.begin

Session-ShowsOutput_example :
    ShowsOutput
      (toy [])
      (toy_laws [])
      output
      1
      (scanned (toy []) txn_partial_out (progress shown) (stream shown))
Session-ShowsOutput_example =
    Session-ShowsOutput (toy []) (toy_laws []) first first IsFresh-first CanRead-first (input ∷ [])
      [] output [] packet [] shown txn_partial_out one_and_one packet_txn Session-begin first_call
      (inl refl)

pub Session-shown : Session (toy []) first 1 (txn_in_out (input ∷ []) (output ∷ [])) shown
Session-shown =
    subst (λ xs. Session (toy []) first 1 xs shown) packet_txn
      (Session.show 0 txn_partial_out packet first shown Session-begin CanRead-first first_call
        (inl refl))

Session-ReadTxn_example :
    (u : Device (List ℕ)) × (txn_next_elem (toy []) shown ≡ ok txn_ready u)
    × ReadTxn
        (toy [])
        (toy_laws [])
        (input ∷ [])
        (output ∷ [])
        []
        (scanned (toy []) txn_ready (progress u) (stream u))
Session-ReadTxn_example =
    Session-ReadTxn (toy []) (toy_laws []) first shown IsFresh-first CanRead-shown (input ∷ [])
      (output ∷ []) one_and_one Session-shown
