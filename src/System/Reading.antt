-- ===== src/System/Reading.antt =====
-- The invariant and the cases of `__txn_next_elem` (src/skycoin-api/txn.c) that read elements, with
-- the bytes of the packet that they leave.
use ledger_nano.Base.{
  ℕ, ◌+◌, ◌≤◌, ◌<◌, ◌≡◌, sym, ◌∙◌, List, length, set, get_elem?, All, ltb, if◌then◌else◌,
  read_bytes, arith, ltb→lt, ltb→le, length-set,
}
use ledger_nano.Base.Post.{All-get_elem?, All-set}
use mathlib.Core.Path.{subst}
use ledger_nano.Base.Exec.{Exec, ◌>>◌}
use ledger_nano.Base.Post.{Post, bind-Post, any-Post, defined-Post, write-Post, if-Post}
use ledger_nano.Sdk.{Sdk}
use ledger_nano.Device.{
  Device, TxnOutput, TxnState, max_inputs, txn_start_in, txn_in, txn_start_out, txn_out,
  txn_partial,
}
use ledger_nano.Txn.Buffer.{next_obj, read_data_to_buffer, save_and_throw, hash_buffer}
use ledger_nano.Txn.Elements.{elem_start_in, elem_in, elem_start_out}
use ledger_nano.System.Invariant.{Invariant, Tracked, Waits}
use ledger_nano.System.Buffers.{
  Fed, Taken, Waits-zero, save_and_throw-Post, read_data_to_buffer-Fed, hash_buffer-Fed,
}

module _ (sdk : Sdk) (room : ℕ) where
  -- An element is read and hashed, and `rest` goes on from there.
  read_and_hash-Post :
      (n k : ℕ) (rest : Exec (Device sdk.Sha256) (Unit {0})) (s : Device sdk.Sha256)
      → Invariant room s
      → s.ctx.offset < n
      → n ≤ s.ctx.offset + s.ctx.data_length
      → ((t : Device sdk.Sha256)
          → Fed room s.ctx.data_length s.ctx.txn_state t
          → Post (Taken room s.ctx.data_length) (Invariant room) (rest t))
      → Post
          (Taken room s.ctx.data_length)
          (Invariant room)
          ((read_data_to_buffer n >> (hash_buffer sdk k >> rest)) s)
  read_and_hash-Post n k rest s v missing enough next =
      bind-Post (Taken room s.ctx.data_length) (Invariant room)
        (Fed room s.ctx.data_length s.ctx.txn_state) (read_data_to_buffer n s) _
        (read_data_to_buffer-Fed room n s v missing enough)
        (λ _ t fed.
          bind-Post (Taken room s.ctx.data_length) (Invariant room)
            (Fed room s.ctx.data_length s.ctx.txn_state) (hash_buffer sdk k t) _
            (hash_buffer-Fed sdk room k s.ctx.data_length s.ctx.txn_state t fed) (λ _. next))

  -- A state that waits for `n` bytes saves what is at hand, if that is less.
  pub short-Post :
      (st : TxnState) (n e : ℕ) (rest : Exec (Device sdk.Sha256) (Unit {0})) (s : Device sdk.Sha256)
      (have : ℕ)
      → Invariant room s
      → s.ctx.txn_state ≡ st
      → ((k : ℕ) → k < n → Waits st k)
      → n ≤ 37
      → s.ctx.data_length ≤ have
      → (n ≤ have → Post (Taken room s.ctx.data_length) (Invariant room) (rest s))
      → Post
          (Taken room s.ctx.data_length)
          (Invariant room)
          ((if ltb have n then save_and_throw e else rest) s)
  short-Post st n e rest s have v at waits small most next =
      if-Post (Taken room s.ctx.data_length) (Invariant room) (ltb have n) _ _ s
        (λ short.
          let low : s.ctx.data_length < n = omega (arith, ltb→lt have n short) in
          save_and_throw-Post room (Taken room s.ctx.data_length) e s v (omega arith)
            (subst (λ st. Waits st s.ctx.data_length) (sym at) (waits s.ctx.data_length low)))
        (λ enough. next (ltb→le have n enough))

  pub waiting :
      (st : TxnState) (s : Device sdk.Sha256)
      → Invariant room s
      → s.ctx.txn_state ≡ st
      → Waits st s.ctx.offset
  waiting st s v at = subst (λ st. Waits st s.ctx.offset) at v.1.waits

  -- Behind an element, with the counter `k` and the state `st`.
  advanced :
      (left k : ℕ) (was st : TxnState) (s : Device sdk.Sha256) (cells : List (List ℕ))
      → Fed room left was s
      → k < 256
      → length cells ≡ max_inputs
      → All (λ cell. length cell ≡ 65) cells
      → (in_num out_num : ℕ) → (output : TxnOutput)
      → Tracked (record s.ctx {
        txn = record s.ctx.txn {
          in_num = in_num;
          sig_input = cells;
          out_num = out_num;
          cur_output = output;
        };
        txn_state = st;
        curr_obj = k;
      })
  advanced left k was st s cells fed low size all in_num out_num output = record {
    buffer = fed.keeps.1.buffer;
    inner_hash = fed.keeps.1.inner_hash;
    entries = size;
    cells = all;
    curr_obj = low;
    waits = subst (λ n. Waits st n) (sym fed.empty) (Waits-zero st);
  }

  pub elem_start_in-Post :
      (s : Device sdk.Sha256)
      → Invariant room s
      → s.ctx.txn_state ≡ txn_start_in
      → Post (Taken room s.ctx.data_length) (Invariant room) (elem_start_in sdk s)
  unfolding elem_start_in
  elem_start_in-Post s v at =
      short-Post txn_start_in 4 txn_partial _ s (s.ctx.offset + s.ctx.data_length) v at (λ k h. h)
        (omega arith) (omega arith)
        (λ enough. read_and_hash-Post 4 4 _ s v (waiting txn_start_in s v at) enough (λ t fed. (
          (
            fed.keeps.0,
            advanced s.ctx.data_length 0 s.ctx.txn_state txn_in t t.ctx.txn.sig_input fed
                (omega arith) fed.keeps.1.entries fed.keeps.1.cells _ t.ctx.txn.out_num
                t.ctx.txn.cur_output,
          ),
          fed.shorter,
        )))

  pub elem_start_out-Post :
      (s : Device sdk.Sha256)
      → Invariant room s
      → s.ctx.txn_state ≡ txn_start_out
      → Post (Taken room s.ctx.data_length) (Invariant room) (elem_start_out sdk s)
  unfolding elem_start_out
  elem_start_out-Post s v at =
      short-Post txn_start_out 4 txn_partial _ s s.ctx.data_length v at (λ k h. h) (omega arith)
        (omega arith)
        (λ enough.
          read_and_hash-Post 4 4 _ s v (waiting txn_start_out s v at) (omega arith) (λ t fed. (
            (
              fed.keeps.0,
              advanced s.ctx.data_length 0 s.ctx.txn_state txn_out t t.ctx.txn.sig_input fed
                  (omega arith) fed.keeps.1.entries fed.keeps.1.cells t.ctx.txn.in_num _
                  t.ctx.txn.cur_output,
            ),
            fed.shorter,
          )))

  pub elem_in-Post :
      (s : Device sdk.Sha256)
      → Invariant room s
      → s.ctx.txn_state ≡ txn_in
      → Post (Taken room s.ctx.data_length) (Invariant room) (elem_in sdk s)
  unfolding elem_in
  elem_in-Post s v at =
      short-Post txn_in 36 txn_partial _ s (s.ctx.offset + s.ctx.data_length) v at (λ k h. h)
        (omega arith) (omega arith)
        (λ enough. read_and_hash-Post 36 32 _ s v (waiting txn_in s v at) enough (λ t fed.
          any-Post (Taken room s.ctx.data_length) (Invariant room) (read_bytes t.ctx.buffer 0 36) _
            t
            (λ input.
              defined-Post (Taken room s.ctx.data_length) (Invariant room)
                (λ cell. length cell ≡ 65) (get_elem? t.ctx.txn.sig_input t.ctx.curr_obj) _ t
                (All-get_elem? (λ cell. length cell ≡ 65) t.ctx.txn.sig_input t.ctx.curr_obj
                  fed.keeps.1.cells)
                (λ cell size.
                  write-Post (Taken room s.ctx.data_length) (Invariant room) cell 0 input _ t
                    (λ new same. (
                      (
                        fed.keeps.0,
                        advanced s.ctx.data_length (next_obj t.ctx.curr_obj) s.ctx.txn_state _ t
                            (set t.ctx.txn.sig_input t.ctx.curr_obj new) fed (omega arith)
                            (length-set t.ctx.txn.sig_input t.ctx.curr_obj new
                              ∙ fed.keeps.1.entries)
                            (All-set (λ cell. length cell ≡ 65) t.ctx.txn.sig_input t.ctx.curr_obj
                              new fed.keeps.1.cells (same ∙ size))
                            t.ctx.txn.in_num t.ctx.txn.out_num t.ctx.txn.cur_output,
                      ),
                      fed.shorter,
                    ))))))
