-- ===== src/Txn/Call.antt =====
-- A whole call of `txn_next_elem`, by induction on its rounds.
use mathlib.Core.Path.{subst}
use ledger_nano.Base.{
  ℕ, zero, suc, ◌+◌, ◌<◌, ◌≡◌, refl, sym, inl, List, arith, length, take, drop, length-drop,
}
use ledger_nano.Sdk.{Sdk}
use ledger_nano.Device.{
  Device, TxnState, txn_start_in, txn_in, txn_start_out, txn_out, txn_compute_sigs, txn_ret_sigs,
}
use ledger_nano.Txn.Loop.{elem, next_elem, txn_loop, txn_next_elem}
use ledger_nano.Txn.Stream.{stream, IsSound}
use ledger_nano.Txn.Reader.{Progress, progress, elem_size, read_in_num, read_input, read_out_num}
use ledger_nano.Txn.Advance.{
  Advances, elem_start_in-Advances, elem_in-Advances, elem_start_out-Advances,
}
use ledger_nano.Txn.Scan.{scan_loop, scan_loop-suc, scan_at, scan}
use ledger_nano.Txn.Ready.{
  Fits, IsReady, cell_of_input, read_in_num-IsReady, read_input-IsReady, read_out_num-IsReady,
}
use ledger_nano.Txn.Step.{Refines, IsSafe, elem_at}
use ledger_nano.Txn.Refine.{refine_elem, refine_out, start_in_Waits, in_Waits, start_out_Waits}

-- What the loop needs of the device at the start of a round.
pub record CanRead {Sha : Type 0} (s : Device Sha) : Type 0 where
  pub sound : IsSound s
  pub ready : IsReady (progress s) (stream s)
  pub safe : IsSafe s
  pub part : s.ctx.offset < elem_size s.ctx.txn_state

module _ (sdk : Sdk) where
  -- After an element the device can read on.
  Advances-CanRead :
      (n : ℕ) (next : Progress sdk.Sha256 → List ℕ → Progress sdk.Sha256) (s : Device sdk.Sha256)
      → (a : Advances n next s (next_elem sdk s))
      → IsReady (next (progress s) (take n (stream s))) (drop n (stream s))
      → CanRead a.after
  Advances-CanRead n next s a r = record {
    sound = a.sound;
    ready = ready;
    safe = inl a.nothing_held;
    part = some_size a.after.ctx.txn_state ready.fits;
  }
    where
      ready : IsReady (progress a.after) (stream a.after)
      ready =
          subst (λ xs. IsReady (progress a.after) xs) (sym a.rest)
            (subst (λ p. IsReady p (drop n (stream s))) (sym a.read) r)

      some_size :
          (st : TxnState)
          → Fits st (progress a.after) (stream a.after)
          → a.after.ctx.offset < elem_size st
      some_size txn_start_in f = omega (arith, a.nothing_held)
      some_size txn_in f = omega (arith, a.nothing_held)
      some_size txn_start_out f = omega (arith, a.nothing_held)
      some_size txn_out f = omega (arith, a.nothing_held)
      some_size txn_compute_sigs f = absurd f
      some_size txn_ret_sigs f = absurd f

  refine_at :
      (fuel g : ℕ) (s : Device sdk.Sha256)
      → CanRead s
      → s.ctx.data_length < suc fuel
      → length (stream s) < suc g
      → ((t : Device sdk.Sha256)
          → CanRead t
          → t.ctx.data_length < fuel
          → length (stream t) < g
          → Refines t (scan_loop sdk g (progress t) (stream t)) (txn_loop sdk fuel t))
      → (st : TxnState) → s.ctx.txn_state ≡ st
      → Refines s
          (scan_at sdk st (progress s) (stream s) (scan_loop sdk g))
          (txn_loop sdk (suc fuel) s)
  unfolding elem
  refine_at fuel g s c hf hg ih txn_start_in at =
      let part : s.ctx.offset < 4 = subst (λ st. s.ctx.offset < elem_size st) at c.part in
      refine_elem sdk 4 (read_in_num sdk) fuel g s c.sound (start_in_Waits sdk s c.sound c.safe at)
        (λ enough.
          subst (λ o. Advances 4 (read_in_num sdk) s o) (sym (elem_at sdk s txn_start_in at))
            (elem_start_in-Advances sdk s c.sound (omega arith) enough))
        (λ a enough.
          ih a.after
            (Advances-CanRead 4 (read_in_num sdk) s a
              (read_in_num-IsReady sdk (progress s) (stream s) c.ready at enough))
            (omega (arith, a.shorter)) (rw a.rest (omega (arith, length-drop 4 (stream s)))))
  refine_at fuel g s c hf hg ih txn_in at =
      let part : s.ctx.offset < 36 = subst (λ st. s.ctx.offset < elem_size st) at c.part in
      let (in_range, l_65) = cell_of_input sdk (progress s) (stream s) c.ready at in
      refine_elem sdk 36 (read_input sdk) fuel g s c.sound (in_Waits sdk s c.sound c.safe at)
        (λ enough.
          subst (λ o. Advances 36 (read_input sdk) s o) (sym (elem_at sdk s txn_in at))
            (elem_in-Advances sdk s c.sound (omega arith) enough in_range l_65))
        (λ a enough.
          ih a.after
            (Advances-CanRead 36 (read_input sdk) s a
              (read_input-IsReady sdk (progress s) (stream s) c.ready at enough))
            (omega (arith, a.shorter)) (rw a.rest (omega (arith, length-drop 36 (stream s)))))
  refine_at fuel g s c hf hg ih txn_start_out at =
      let part : s.ctx.offset < 4 = subst (λ st. s.ctx.offset < elem_size st) at c.part in
      refine_elem sdk 4 (read_out_num sdk) fuel g s c.sound
        (start_out_Waits sdk s c.sound c.safe at)
        (λ enough.
          subst (λ o. Advances 4 (read_out_num sdk) s o) (sym (elem_at sdk s txn_start_out at))
            (elem_start_out-Advances sdk s c.sound (omega arith) (omega (arith, c.safe))))
        (λ a enough.
          ih a.after
            (Advances-CanRead 4 (read_out_num sdk) s a
              (read_out_num-IsReady sdk (progress s) (stream s) c.ready))
            (omega (arith, a.shorter)) (rw a.rest (omega (arith, length-drop 4 (stream s)))))
  refine_at fuel g s c hf hg ih txn_out at = refine_out sdk fuel g s c.sound c.safe at
  refine_at fuel g s c hf hg ih txn_compute_sigs at =
      absurd (subst (λ st. Fits st (progress s) (stream s)) at c.ready.fits)
  refine_at fuel g s c hf hg ih txn_ret_sigs at =
      absurd (subst (λ st. Fits st (progress s) (stream s)) at c.ready.fits)

  refine_loop :
      (fuel g : ℕ) (s : Device sdk.Sha256)
      → CanRead s
      → s.ctx.data_length < fuel
      → length (stream s) < g
      → Refines s (scan_loop sdk g (progress s) (stream s)) (txn_loop sdk fuel s)
  refine_loop zero g s c hf hg = absurd (omega arith)
  refine_loop (suc fuel) zero s c hf hg = absurd (omega arith)
  refine_loop (suc fuel) (suc g) s c hf hg =
      rw (scan_loop-suc sdk g (progress s) (stream s)) (
        refine_at fuel g s c hf hg (λ t d tf tg. refine_loop fuel g t d tf tg) s.ctx.txn_state refl)

  -- On every device that can read on (packet and buffers within their arrays, 1 to 20 inputs
  -- announced, nothing held that save_data_to_buffer would overwrite), txn_next_elem returns
  -- without a fault; its code, the transaction read so far and the bytes left over are those of
  -- the packet-free reader scan on the bytes held followed by the packet, and nothing else on the
  -- device changes.
  pub txn_next_elem-scan :
      (s : Device sdk.Sha256)
      → CanRead s
      → Refines s (scan sdk (progress s) (stream s)) (txn_next_elem sdk s)
  unfolding txn_next_elem scan
  txn_next_elem-scan s c =
      refine_loop (s.ctx.data_length + 1) (length (stream s) + 1) s c (omega arith) (omega arith)
