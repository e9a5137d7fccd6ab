-- ===== src/Txn/Reader.antt =====
-- The reader of a transaction over one stream of bytes: what each element does, with the packets
-- and the buffer left out.
use ledger_nano.Base.{ℕ, List, [], ◌++◌, ◌==◌, if◌then◌else◌, get_or, set, take, drop, u4le_at}
use ledger_nano.Sdk.{Sdk}
use ledger_nano.Device.{
  Device, Txn, TxnOutput, TxnState, txn_start_in, txn_in, txn_start_out, txn_out,
}
use ledger_nano.Txn.Buffer.{u8le_at, next_obj}

pub record Progress (Sha : Type 0) : Type 0 where
  pub hash : Sha
  pub txn_state : TxnState
  pub txn : Txn
  pub curr_obj : ℕ

abbrev pub progress : {Sha : Type 0} → Device Sha → Progress Sha
progress s = record {
  hash = s.ctx.hash;
  txn_state = s.ctx.txn_state;
  txn = s.ctx.txn;
  curr_obj = s.ctx.curr_obj;
}

-- The bytes of the element that a state waits for.
abbrev pub elem_size : TxnState → ℕ
elem_size txn_start_in = 4
elem_size txn_in = 36
elem_size txn_start_out = 4
elem_size txn_out = 37
elem_size other = 0

abbrev pub output_of : List ℕ → TxnOutput
output_of e = record { address = take 21 e; coin_num = u8le_at e 21; hour_num = u8le_at e 29 }

module _ (sdk : Sdk) where
  open sdk use {Sha256, hash_more, hash_last}

  abbrev pub read_in_num : Progress Sha256 → List ℕ → Progress Sha256
  read_in_num p e = record {
    hash = hash_more p.hash e;
    txn_state = txn_in;
    txn = record p.txn { in_num = u4le_at e 0 };
    curr_obj = 0;
  }

  -- The 36 bytes of an input go to the front of its entry; its index is not hashed.
  abbrev pub read_input : Progress Sha256 → List ℕ → Progress Sha256
  read_input p e = record {
    hash = hash_more p.hash (take 32 e);
    txn_state = if next_obj p.curr_obj == p.txn.in_num then txn_start_out else txn_in;
    txn = record p.txn {
      sig_input =
          set p.txn.sig_input p.curr_obj (e ++ drop 36 (get_or p.txn.sig_input p.curr_obj []));
    };
    curr_obj = next_obj p.curr_obj;
  }

  abbrev pub read_out_num : Progress Sha256 → List ℕ → Progress Sha256
  read_out_num p e = record {
    hash = hash_more p.hash e;
    txn_state = txn_out;
    txn = record p.txn { out_num = u4le_at e 0 };
    curr_obj = 0;
  }

  -- The last output ends the hash.
  abbrev pub read_output : Progress Sha256 → List ℕ → Progress Sha256
  read_output p e =
      let last = hash_last p.hash e in
      let ends = next_obj p.curr_obj == p.txn.out_num in
      record {
        hash = if ends then last.0 else hash_more p.hash e;
        txn_state = p.txn_state;
        txn = record p.txn {
          cur_output = output_of e;
          inner_hash = if ends then last.1 else p.txn.inner_hash;
        };
        curr_obj = next_obj p.curr_obj;
      }
