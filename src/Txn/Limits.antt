-- ===== src/Txn/Limits.antt =====
-- Inputs beyond the table `sig_input` of src/skycoin-api/txn.c.
use ledger_nano.Base.{◌+◌, ◌≤◌, ◌≡◌, arith, le→ltb, length, get_elem?_out}
use ledger_nano.Base.Exec.{fault, ◌>>=◌}
use ledger_nano.Sdk.{Sdk}
use ledger_nano.Device.{Device}
use ledger_nano.Txn.Buffer.{read_data_to_buffer, hash_buffer}
use ledger_nano.Txn.Elements.{elem_in}
use ledger_nano.Txn.Stream.{IsSound, Reads, read_data_to_buffer-Reads}
use ledger_nano.Txn.Advance.{front_read}

-- TXN_IN with an input at hand, in a device whose packet and buffers are within their arrays,
-- accesses sig_input out of bounds when curr_obj is not below its number of entries: the input is
-- not refused.
pub elem_in_overrun :
    (sdk : Sdk) (s : Device sdk.Sha256)
    → IsSound s
    → 36 ≤ s.ctx.offset + s.ctx.data_length
    → length s.ctx.txn.sig_input ≤ s.ctx.curr_obj
    → elem_in sdk s ≡ fault
unfolding elem_in hash_buffer
elem_in_overrun sdk s v enough beyond = rw (
  le→ltb (s.ctx.offset + s.ctx.data_length) 36 enough,
  ◌>>=◌,
  r.returns,
  hash_buffer,
  front_read r.buffer 32 (omega arith) r.size,
  front_read r.buffer 36 (omega arith) r.size,
  get_elem?_out s.ctx.txn.sig_input s.ctx.curr_obj beyond,
)
  where
    r : Reads 36 s (read_data_to_buffer 36 s)
    r = read_data_to_buffer-Reads 36 s v (omega arith) v.part enough
