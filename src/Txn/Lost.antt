-- ===== src/Txn/Lost.antt =====
-- `save_data_to_buffer` of src/skycoin-api/txn.c, where `buffer` holds bytes of an earlier packet.
use mathlib.Core.List.{append-nil}
use ledger_nano.Base.{
  ℕ, ◌+◌, ◌≤◌, ◌<◌, ◌≡◌, refl, ◌∙◌, false, arith, lt→ltb, ◌==◌, ltb, if◌then◌else◌,
}
use ledger_nano.Base.Exec.{Exec, Outcome, throw, ◌>>=◌}
use ledger_nano.Sdk.{Sdk}
use ledger_nano.Device.{
  Device, TxnState, txn_start_in, txn_in, txn_start_out, txn_out, txn_compute_sigs, txn_ret_sigs,
  txn_partial,
}
use ledger_nano.Txn.Buffer.{save_data_to_buffer, save_and_throw}
use ledger_nano.Txn.Elements.{elem_start_in, elem_in, elem_start_out, elem_out}
use ledger_nano.Txn.Loop.{elem}
use ledger_nano.Txn.Stream.{IsSound, Saves, save_data_to_buffer-Saves, packet, stream}

-- The state waits for more bytes than there are at hand.
abbrev pub IsShort : {Sha : Type 0} → TxnState → Device Sha → Type 0
IsShort txn_start_in s = s.ctx.offset + s.ctx.data_length < 4
IsShort txn_in s = s.ctx.offset + s.ctx.data_length < 36
IsShort txn_start_out s = s.ctx.data_length < 4
IsShort txn_out s =
    ((s.ctx.curr_obj == s.ctx.txn.out_num) ≡ false) × (s.ctx.offset + s.ctx.data_length < 37)
IsShort txn_compute_sigs s = ⊥
IsShort txn_ret_sigs s = ⊥

-- More is asked for, and of the bytes at hand those of the packet alone are left.
pub record KeepsPacketAlone {Sha : Type 0} (s : Device Sha)
    (result : Outcome (Device Sha) (Unit {0})) : Type 0 where
  pub after : Device Sha
  pub returns : result ≡ throw txn_partial after
  pub left : stream after ≡ packet s

module _ {Sha : Type 0} (s : Device Sha) (v : IsSound s) where
  saved : s.ctx.data_length ≤ 36 → KeepsPacketAlone s (save_and_throw txn_partial s)
  unfolding save_and_throw
  saved small = record {
    after = record s {
      ctx = record s.ctx {
        buffer = r.buffer;
        offset = s.ctx.data_length;
        data_buffer = s.ctx.data_buffer + s.ctx.data_length;
        data_length = 0;
      };
    };
    returns = rw (◌>>=◌, r.returns) refl;
    left = append-nil _ ∙ r.kept;
  }
    where
      r : Saves s (save_data_to_buffer s)
      r = save_data_to_buffer-Saves s v small

  short :
      (have n : ℕ) (rest : Exec (Device Sha) (Unit {0}))
      → have < n
      → s.ctx.data_length ≤ have
      → n ≤ 37
      → KeepsPacketAlone s ((if ltb have n then save_and_throw txn_partial else rest) s)
  short have n rest less part few = rw (lt→ltb have n less) (saved (omega arith))

module _ (sdk : Sdk) where
  -- Where a reading state has fewer bytes at hand than its element (TXN_START_OUT: than four in
  -- the packet alone; TXN_OUT: with an output to come), in a device whose packet and buffers are
  -- within their arrays, its case throws TXN_PARTIAL, and the bytes left are those of the packet
  -- alone: what buffer held of earlier packets is lost.
  pub elem-KeepsPacketAlone :
      (st : TxnState) (s : Device sdk.Sha256)
      → IsSound s
      → IsShort st s
      → KeepsPacketAlone s (elem sdk st s)
  unfolding elem elem_start_in elem_in elem_start_out elem_out
  elem-KeepsPacketAlone txn_start_in s v h =
      short s v (s.ctx.offset + s.ctx.data_length) 4 _ h (omega arith) (omega arith)
  elem-KeepsPacketAlone txn_in s v h =
      short s v (s.ctx.offset + s.ctx.data_length) 36 _ h (omega arith) (omega arith)
  elem-KeepsPacketAlone txn_start_out s v h =
      short s v s.ctx.data_length 4 _ h (omega arith) (omega arith)
  elem-KeepsPacketAlone txn_out s v h =
      rw h.0 (short s v (s.ctx.offset + s.ctx.data_length) 37 _ h.1 (omega arith) (omega arith))
  elem-KeepsPacketAlone txn_compute_sigs s v h = absurd h
  elem-KeepsPacketAlone txn_ret_sigs s v h = absurd h
