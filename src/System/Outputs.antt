-- ===== src/System/Outputs.antt =====
-- The invariant and the case TXN_OUT of `__txn_next_elem` (src/skycoin-api/txn.c).
use ledger_nano.Base.{
  ℕ, ◌+◌, ◌<◌, ◌≡◌, sym, ◌∙◌, Bool, true, ltb, ◌==◌, ◌&&◌, if◌then◌else◌, read_bytes, arith,
}
use mathlib.Core.Bool.{not}
use mathlib.Core.Path.{subst}
use ledger_nano.Base.Post.{Post, bind-Post, any-Post, if-Post}
use ledger_nano.Sdk.{Sdk, SdkLaws}
use ledger_nano.Device.{Device, txn_out, state_code, txn_partial, txn_partial_out, txn_ready}
use ledger_nano.Txn.Buffer.{read_data_to_buffer, hash_buffer, hash_buffer_last}
use ledger_nano.Txn.Elements.{elem_out, finish_out}
use ledger_nano.System.Invariant.{Invariant, Waits}
use ledger_nano.System.Buffers.{
  Fed, Taken, save_and_throw-Post, read_data_to_buffer-Fed, hash_buffer-Fed, hash_buffer_last-Fed,
}
use ledger_nano.System.Reading.{short-Post, waiting}

module _ (sdk : Sdk) (laws : SdkLaws sdk) (room : ℕ) where
  finish_out-Post :
      (P : Device sdk.Sha256 → Type 0) (left : ℕ) (s : Device sdk.Sha256)
      → Fed room left txn_out s
      → Post P (Invariant room) (finish_out sdk s)
  unfolding finish_out
  finish_out-Post P left s fed =
      bind-Post P (Invariant room) (Fed room left txn_out)
        ((if s.ctx.curr_obj == s.ctx.txn.out_num
            then hash_buffer_last sdk 37
            else hash_buffer sdk 37)
          s)
        _
        (if-Post (Fed room left txn_out) (Invariant room) (s.ctx.curr_obj == s.ctx.txn.out_num) _ _
          s (λ _. hash_buffer_last-Fed sdk room laws 37 left txn_out s fed)
          (λ _. hash_buffer-Fed sdk room 37 left txn_out s fed))
        (λ _ t fed'.
          if-Post P (Invariant room)
            (ltb (t.ctx.offset + t.ctx.data_length) 37
              && not (state_code t.ctx.txn_state == txn_ready))
            _ _ t
            (λ short.
              let low : t.ctx.data_length < 37 = partial t.ctx.offset t.ctx.data_length _ short in
              save_and_throw-Post room P txn_partial_out t fed'.keeps (omega arith)
                (subst (λ st. Waits st t.ctx.data_length) (sym fed'.state) low))
            (λ _. fed'.keeps))
    where
      partial : (a b : ℕ) (c : Bool) → (ltb (a + b) 37 && c) ≡ true → b < 37
      partial a b c h = ground arith

  pub elem_out-Post :
      (s : Device sdk.Sha256)
      → Invariant room s
      → s.ctx.txn_state ≡ txn_out
      → Post (Taken room s.ctx.data_length) (Invariant room) (elem_out sdk s)
  unfolding elem_out
  elem_out-Post s v at =
      if-Post (Taken room s.ctx.data_length) (Invariant room) (s.ctx.curr_obj == s.ctx.txn.out_num)
        _ _ s
        (λ _. (
          v.0,
          record {
            buffer = v.1.buffer;
            inner_hash = v.1.inner_hash;
            entries = v.1.entries;
            cells = v.1.cells;
            curr_obj = omega arith;
            waits = tt;
          },
        ))
        (λ _.
          short-Post sdk room txn_out 37 txn_partial _ s (s.ctx.offset + s.ctx.data_length) v at
            (λ k h. h) (omega arith) (omega arith)
            (λ enough.
              bind-Post (Taken room s.ctx.data_length) (Invariant room)
                (Fed room s.ctx.data_length s.ctx.txn_state) (read_data_to_buffer 37 s) _
                (read_data_to_buffer-Fed room 37 s v (waiting sdk room txn_out s v at) enough)
                (λ _ t fed.
                  any-Post (Taken room s.ctx.data_length) (Invariant room)
                    (read_bytes t.ctx.buffer 0 21) _ t
                    (λ address.
                      finish_out-Post (Taken room s.ctx.data_length) s.ctx.data_length _ (record {
                        keeps = (
                          fed.keeps.0,
                          record {
                            buffer = fed.keeps.1.buffer;
                            inner_hash = fed.keeps.1.inner_hash;
                            entries = fed.keeps.1.entries;
                            cells = fed.keeps.1.cells;
                            curr_obj = omega arith;
                            waits = fed.keeps.1.waits;
                          },
                        );
                        shorter = fed.shorter;
                        empty = fed.empty;
                        state = fed.state ∙ at;
                      })))))
