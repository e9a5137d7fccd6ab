-- ===== src/Txn/Elements.antt =====
-- `__txn_next_elem` of src/skycoin-api/txn.c: the cases that read the elements of a transaction.
use mathlib.Core.Bool.{not}
use ledger_nano.Base.{
  ◌+◌, ◌&&◌, ltb, ◌==◌, if◌then◌else◌, get_elem?, set, read_bytes, write_bytes, u4le_at,
}
use ledger_nano.Base.Exec.{Exec, raise, gets, defined, ◌>>=◌, ◌>>◌}
use ledger_nano.Sdk.{Sdk}
use ledger_nano.Device.{
  Device, txn_in, txn_start_out, txn_out, txn_compute_sigs, state_code, txn_partial,
  txn_partial_out, txn_approve_out, txn_ready, put_ctx,
}
use ledger_nano.Txn.Buffer.{
  u8le_at, next_obj, read_data_to_buffer, save_and_throw, hash_buffer, hash_buffer_last,
}

module _ (sdk : Sdk) where
  open sdk use {Sha256}

  -- `case TXN_START_IN`.
  unfoldable pub elem_start_in : Exec (Device Sha256) (Unit {0})
  elem_start_in = do
    c ← gets (λ s. s.ctx)
    if ltb (c.offset + c.data_length) 4 then save_and_throw txn_partial else do
      read_data_to_buffer 4
      hash_buffer sdk 4
      d ← gets (λ s. s.ctx)
      put_ctx (record d {
        txn = record d.txn { in_num = u4le_at d.buffer 0 };
        txn_state = txn_in;
        curr_obj = 0;
      })

  -- `case TXN_IN`.
  unfoldable pub elem_in : Exec (Device Sha256) (Unit {0})
  elem_in = do
    c ← gets (λ s. s.ctx)
    if ltb (c.offset + c.data_length) 36 then save_and_throw txn_partial else do
      read_data_to_buffer 36
      hash_buffer sdk 32
      d ← gets (λ s. s.ctx)
      input ← defined (read_bytes d.buffer 0 36)
      cell ← defined (get_elem? d.txn.sig_input d.curr_obj)
      cell' ← defined (write_bytes cell 0 input)
      put_ctx (record d {
        txn = record d.txn { sig_input = set d.txn.sig_input d.curr_obj cell' };
        curr_obj = next_obj d.curr_obj;
        txn_state = if next_obj d.curr_obj == d.txn.in_num then txn_start_out else txn_in;
      })

  -- `case TXN_START_OUT`.
  unfoldable pub elem_start_out : Exec (Device Sha256) (Unit {0})
  elem_start_out = do
    c ← gets (λ s. s.ctx)
    if ltb c.data_length 4 then save_and_throw txn_partial else do
      read_data_to_buffer 4
      hash_buffer sdk 4
      d ← gets (λ s. s.ctx)
      put_ctx (record d {
        txn = record d.txn { out_num = u4le_at d.buffer 0 };
        txn_state = txn_out;
        curr_obj = 0;
      })

  -- The end of `case TXN_OUT`, from the hash on.
  unfoldable pub finish_out : Exec (Device Sha256) (Unit {0})
  finish_out = do
    c ← gets (λ s. s.ctx)
    if c.curr_obj == c.txn.out_num then hash_buffer_last sdk 37 else hash_buffer sdk 37
    d ← gets (λ s. s.ctx)
    if ltb (d.offset + d.data_length) 37 && not (state_code d.txn_state == txn_ready)
        then save_and_throw txn_partial_out
        else raise txn_approve_out

  -- `case TXN_OUT`. TXN_READY, which is assigned to `txn_state`, has the number of
  -- TXN_COMPUTE_SIGS.
  unfoldable pub elem_out : Exec (Device Sha256) (Unit {0})
  elem_out = do
    c ← gets (λ s. s.ctx)
    if c.curr_obj == c.txn.out_num
        then (do put_ctx (record c { txn_state = txn_compute_sigs; curr_obj = 0 }); raise txn_ready)
        else if ltb (c.offset + c.data_length) 37
        then save_and_throw txn_partial
        else do
          read_data_to_buffer 37
          d ← gets (λ s. s.ctx)
          address ← defined (read_bytes d.buffer 0 21)
          put_ctx (record d {
            txn = record d.txn {
              cur_output = record {
                address = address;
                coin_num = u8le_at d.buffer 21;
                hour_num = u8le_at d.buffer 29;
              };
            };
            curr_obj = next_obj d.curr_obj;
          })
          finish_out
