-- ===== src/System/Signing.antt =====
-- The invariant, the cases of `__txn_next_elem` (src/skycoin-api/txn.c) that sign, and
-- `txn_next_elem`.
use ledger_nano.Base.{
  ℕ, zero, suc, ◌+◌, ◌*◌, ◌<◌, ◌≡◌, refl, ◌∙◌, length, set, get_elem?, ltb, ◌==◌, read_bytes,
  u4le_at, arith, ltb→le, length-set,
}
use ledger_nano.Base.Exec.{Outcome, ok, throw, fault, stuck}
use ledger_nano.Base.Post.{
  Post, bind-Post, any-Post, defined-Post, write-Post, if-Post, All-get_elem?, All-set,
}
use ledger_nano.Sdk.{Sdk, SdkLaws}
use ledger_nano.Device.{
  Device, TxnState, txn_start_in, txn_in, txn_start_out, txn_out, txn_compute_sigs, txn_ret_sigs,
}
use ledger_nano.Crypto.Signature.{sign}
use ledger_nano.Txn.Sigs.{sign_input, sign_loop, ret_loop, elem_ret_sigs, elem_compute_sigs}
use ledger_nano.Txn.Loop.{elem, next_elem, txn_loop, txn_next_elem}
use ledger_nano.System.Fits.{with_apdu, with_path}
use ledger_nano.System.Invariant.{
  Never, Keeps-Stays, Invariant, Keeps, bind-Keeps, any-Keeps, write-Keeps,
}
use ledger_nano.System.Buffers.{Taken}
use ledger_nano.System.Reading.{elem_start_in-Post, elem_in-Post, elem_start_out-Post}
use ledger_nano.System.Outputs.{elem_out-Post}

module _ (sdk : Sdk) {room : ℕ} where
  sign_input-Keeps : (i : ℕ) → Keeps room (sign_input sdk i)
  unfolding sign_input
  sign_input-Keeps i s v =
      defined-Post (Invariant room) Never (λ cell. length cell ≡ 65)
        (get_elem? s.ctx.txn.sig_input i) _ s
        (All-get_elem? (λ cell. length cell ≡ 65) s.ctx.txn.sig_input i v.1.cells)
        (λ cell size. any-Keeps room (read_bytes cell 0 32) _ s (λ input.
          any-Keeps room (read_bytes cell 32 4) _ s (λ index.
            any-Keeps room (sign sdk _ _) _ s (λ signature.
              write-Keeps room cell 0 signature _ s (λ new same. (
                with_path v.0 (set s.bip44_path 4 (u4le_at index 0))
                    (length-set s.bip44_path 4 (u4le_at index 0)),
                record {
                  buffer = v.1.buffer;
                  inner_hash = v.1.inner_hash;
                  entries = length-set s.ctx.txn.sig_input i new ∙ v.1.entries;
                  cells =
                      All-set (λ cell. length cell ≡ 65) s.ctx.txn.sig_input i new v.1.cells
                        (same ∙ size);
                  curr_obj = omega arith;
                  waits = v.1.waits;
                },
              ))))))

  sign_loop-Keeps : (left i : ℕ) → Keeps room (sign_loop sdk left i)
  unfolding sign_loop
  sign_loop-Keeps zero i s v = v
  sign_loop-Keeps (suc left) i s v =
      bind-Keeps room (sign_input sdk i s) _ (sign_input-Keeps i s v)
        (λ _. sign_loop-Keeps left (i + 1))

  ret_loop-Stays :
      (fuel : ℕ) (s : Device sdk.Sha256)
      → 255 < s.tx + 65 * fuel
      → 0 < fuel
      → Invariant room s
      → Post (Invariant room) (Invariant room) (ret_loop sdk fuel s)
  unfolding ret_loop
  ret_loop-Stays zero s enough pos v = absurd (omega arith)
  ret_loop-Stays (suc fuel) s enough pos v =
      if-Post (Invariant room) (Invariant room) (s.ctx.curr_obj == s.ctx.txn.in_num) _ _ s (λ _. v)
        (λ _.
          if-Post (Invariant room) (Invariant room) (ltb 255 (s.tx + 65)) _ _ s (λ _. v)
            (λ fits.
              any-Post (Invariant room) (Invariant room)
                (get_elem? s.ctx.txn.sig_input s.ctx.curr_obj) _ s
                (λ signature.
                  write-Post (Invariant room) (Invariant room) s.apdu_buffer s.tx signature _ s
                    (λ new same.
                      ret_loop-Stays fuel _ (omega arith)
                        (omega (arith, ltb→le 255 (s.tx + 65) fits))
                        (
                          with_apdu v.0 new same,
                          record {
                            buffer = v.1.buffer;
                            inner_hash = v.1.inner_hash;
                            entries = v.1.entries;
                            cells = v.1.cells;
                            curr_obj = omega arith;
                            waits = v.1.waits;
                          },
                        )))))

  elem_ret_sigs-Post :
      (P : Device sdk.Sha256 → Type 0) (s : Device sdk.Sha256)
      → Invariant room s
      → Post P (Invariant room) (elem_ret_sigs sdk s)
  unfolding elem_ret_sigs
  elem_ret_sigs-Post P s v =
      bind-Post P (Invariant room) (Invariant room) (ret_loop sdk 5 s) _
        (ret_loop-Stays 5 s (omega arith) (omega arith) v)
        (λ _ t w. (
          w.0,
          record {
            buffer = w.1.buffer;
            inner_hash = w.1.inner_hash;
            entries = w.1.entries;
            cells = w.1.cells;
            curr_obj = w.1.curr_obj;
            waits = w.1.waits;
          },
        ))

  elem_compute_sigs-Post :
      (P : Device sdk.Sha256 → Type 0) (s : Device sdk.Sha256)
      → Invariant room s
      → Post P (Invariant room) (elem_compute_sigs sdk s)
  unfolding elem_compute_sigs
  elem_compute_sigs-Post P s v = any-Post P (Invariant room) (get_elem? s.bip44_path 4) _ s (λ old.
      bind-Post P (Invariant room) (Invariant room) (sign_loop sdk s.ctx.txn.in_num 0 s) _
        (Keeps-Stays (sign_loop sdk s.ctx.txn.in_num 0) (sign_loop-Keeps s.ctx.txn.in_num 0) s v)
        (λ _ t w. elem_ret_sigs-Post P _ (
          with_path w.0 (set t.bip44_path 4 old) (length-set t.bip44_path 4 old),
          record {
            buffer = w.1.buffer;
            inner_hash = w.1.inner_hash;
            entries = w.1.entries;
            cells = w.1.cells;
            curr_obj = omega arith;
            waits = tt;
          },
        )))

module _ (sdk : Sdk) (laws : SdkLaws sdk) {room : ℕ} where
  elem-Post :
      (st : TxnState) (s : Device sdk.Sha256)
      → Invariant room s
      → s.ctx.txn_state ≡ st
      → Post (Taken room s.ctx.data_length) (Invariant room) (elem sdk st s)
  unfolding elem
  elem-Post txn_start_in s v at = elem_start_in-Post sdk room s v at
  elem-Post txn_in s v at = elem_in-Post sdk room s v at
  elem-Post txn_start_out s v at = elem_start_out-Post sdk room s v at
  elem-Post txn_out s v at = elem_out-Post sdk laws room s v at
  elem-Post txn_compute_sigs s v at = elem_compute_sigs-Post sdk (Taken room s.ctx.data_length) s v
  elem-Post txn_ret_sigs s v at = elem_ret_sigs-Post sdk (Taken room s.ctx.data_length) s v

  next_elem-Post :
      (s : Device sdk.Sha256)
      → Invariant room s
      → Post (Taken room s.ctx.data_length) (Invariant room) (next_elem sdk s)
  unfolding next_elem
  next_elem-Post s v = elem-Post s.ctx.txn_state s v refl

  txn_loop-Keeps :
      (fuel : ℕ) (s : Device sdk.Sha256)
      → Invariant room s
      → s.ctx.data_length < fuel
      → Post (Invariant room) Never (txn_loop sdk fuel s)
  unfolding txn_loop
  txn_loop-Keeps zero s v enough = absurd (omega arith)
  txn_loop-Keeps (suc fuel) s v enough =
      after (λ t h. txn_loop-Keeps fuel t h.0 (omega (arith, h.1))) (next_elem sdk s)
        (next_elem-Post s v)
    where
      after :
          ((t : Device sdk.Sha256)
            → Taken room s.ctx.data_length t
            → Post (Invariant room) Never (txn_loop sdk fuel t))
          → (o : Outcome (Device sdk.Sha256) (Unit {0}))
          → Post (Taken room s.ctx.data_length) (Invariant room) o
          → Post (Invariant room) Never (elim o [
            | ok _ s' ↦ txn_loop sdk fuel s'
            | throw e s' ↦ ok e s'
            | fault ↦ fault
            | stuck ↦ stuck
          ])
      after again (ok _ t) h = again t h
      after again (throw e t) h = h
      after again fault h = tt
      after again stuck h = h

  -- However the reader stands, a call of `txn_next_elem` ends.
  pub txn_next_elem-Keeps : Keeps room (txn_next_elem sdk)
  unfolding txn_next_elem
  txn_next_elem-Keeps s v = txn_loop-Keeps (s.ctx.data_length + 1) s v (omega arith)
