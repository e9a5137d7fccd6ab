-- ===== src/Txn/Refine.antt =====
-- `txn_next_elem` on the device does what `scan` does on the stream.
use mathlib.Core.Path.{subst}
use ledger_nano.Base.{
  ℕ, suc, ◌+◌, ◌≤◌, ◌<◌, ◌≡◌, ◌≢◌, refl, ◌∙◌, inl, inr, true, false, List, arith, ltb, ltb→lt,
  ltb→le, lt→ltb, ◌==◌, ne→==, if◌then◌else◌, length, take, drop, length-drop, Bool-cases,
}
use ledger_nano.Base.Exec.{throw, ◌>>=◌}
use ledger_nano.Sdk.{Sdk}
use ledger_nano.Device.{
  Device, txn_start_in, txn_in, txn_start_out, txn_out, txn_compute_sigs, txn_partial,
  txn_partial_out, txn_approve_out, txn_ready,
}
use ledger_nano.Txn.Elements.{elem_start_in, elem_in, elem_start_out, elem_out}
use ledger_nano.Txn.Loop.{elem, next_elem, txn_loop}
use ledger_nano.Txn.Stream.{stream, IsSound}
use ledger_nano.Txn.Reader.{Progress, progress, read_output}
use ledger_nano.Txn.Advance.{Advances}
use ledger_nano.Txn.Outputs.{Shown, elem_out_approve, elem_out_partial}
use ledger_nano.Txn.Scan.{scan_output, scan_loop}
use ledger_nano.Txn.Step.{
  Refines, IsSafe, Waits, save-Waits, length-stream, elem_at, loop_throw, loop_ok, Refines-frame,
}

module _ (sdk : Sdk) where
  -- An element: with too few bytes the call ends, and else it goes on behind the element.
  pub refine_elem :
      (n : ℕ) (next : Progress sdk.Sha256 → List ℕ → Progress sdk.Sha256) (fuel g : ℕ)
      (s : Device sdk.Sha256)
      → IsSound s
      → (s.ctx.offset + s.ctx.data_length < n → Waits s (next_elem sdk s))
      → (n ≤ s.ctx.offset + s.ctx.data_length → Advances n next s (next_elem sdk s))
      → ((a : Advances n next s (next_elem sdk s))
          → n ≤ length (stream s)
          → Refines a.after
              (scan_loop sdk g (progress a.after) (stream a.after))
              (txn_loop sdk fuel a.after))
      → Refines s
          (if ltb (length (stream s)) n
            then record { code = txn_partial; reached = progress s; rest = stream s }
            else scan_loop sdk g (next (progress s) (take n (stream s))) (drop n (stream s)))
          (txn_loop sdk (suc fuel) s)
  refine_elem n next fuel g s v short long ih = elim (Bool-cases (ltb (length (stream s)) n)) [
    | inl few ↦
        let w = short (omega (arith, ltb→lt (length (stream s)) n few, length-stream s v)) in
        rw few record {
          after = w.after;
          returns = loop_throw sdk fuel s w.after txn_partial w.returns;
          reached = w.reached;
          rest = w.rest;
          sound = w.sound;
          frame = w.frame;
          started = w.started;
        }
    | inr many ↦
        let a = long (omega (arith, ltb→le (length (stream s)) n many, length-stream s v)) in
        let q = ih a (ltb→le (length (stream s)) n many) in
        rw (many, loop_ok sdk fuel s a.after a.returns)
          (Refines-frame sdk s a.after _ a.frame a.started (
            subst
              (λ p.
                Refines a.after (scan_loop sdk g p (drop n (stream s))) (txn_loop sdk fuel a.after))
              a.read
              (subst
                (λ xs.
                  Refines a.after (scan_loop sdk g (progress a.after) xs)
                    (txn_loop sdk fuel a.after))
                a.rest q)))
  ]

  module _ (s : Device sdk.Sha256) (v : IsSound s) (safe : IsSafe s) where
    pub start_in_Waits :
        s.ctx.txn_state ≡ txn_start_in
        → s.ctx.offset + s.ctx.data_length < 4
        → Waits s (next_elem sdk s)
    unfolding elem elem_start_in
    start_in_Waits at few =
        rw (elem_at sdk s txn_start_in at, lt→ltb (s.ctx.offset + s.ctx.data_length) 4 few, ◌>>=◌)
          (save-Waits s v (omega (arith, safe)) (omega arith))

    pub in_Waits :
        s.ctx.txn_state ≡ txn_in → s.ctx.offset + s.ctx.data_length < 36 → Waits s (next_elem sdk s)
    unfolding elem elem_in
    in_Waits at few =
        rw (elem_at sdk s txn_in at, lt→ltb (s.ctx.offset + s.ctx.data_length) 36 few, ◌>>=◌)
          (save-Waits s v (omega (arith, safe)) (omega arith))

    pub start_out_Waits :
        s.ctx.txn_state ≡ txn_start_out
        → s.ctx.offset + s.ctx.data_length < 4
        → Waits s (next_elem sdk s)
    unfolding elem elem_start_out
    start_out_Waits at few =
        rw (elem_at sdk s txn_start_out at, lt→ltb s.ctx.data_length 4 (omega arith), ◌>>=◌)
          (save-Waits s v (omega (arith, safe)) (omega arith))

    out_Waits :
        s.ctx.txn_state ≡ txn_out
        → s.ctx.curr_obj ≢ s.ctx.txn.out_num
        → s.ctx.offset + s.ctx.data_length < 37
        → Waits s (next_elem sdk s)
    unfolding elem elem_out
    out_Waits at ne few =
        rw
          (
            elem_at sdk s txn_out at,
            ne→== s.ctx.curr_obj s.ctx.txn.out_num ne,
            lt→ltb (s.ctx.offset + s.ctx.data_length) 37 few,
            ◌>>=◌,
          )
          (save-Waits s v (omega (arith, safe)) (omega arith))

  -- TXN_OUT ends the call on every branch.
  pub refine_out :
      (fuel g : ℕ) (s : Device sdk.Sha256)
      → IsSound s
      → IsSafe s
      → s.ctx.txn_state ≡ txn_out
      → Refines s (scan_output sdk (progress s) (stream s)) (txn_loop sdk (suc fuel) s)
  refine_out fuel g s v safe at = elim (Bool-cases (s.ctx.curr_obj == s.ctx.txn.out_num)) [
    | inl all ↦ rw all record {
      after = record s { ctx = record s.ctx { txn_state = txn_compute_sigs; curr_obj = 0 } };
      returns = loop_throw sdk fuel s _ txn_ready (out_ready all);
      reached = refl;
      rest = refl;
      sound = record {
        buffer_size = v.buffer_size;
        in_apdu = v.in_apdu;
        short = v.short;
        part = v.part;
      };
      frame = refl;
      started = refl;
    }
    | inr more ↦ rw more (elim (Bool-cases (ltb (length (stream s)) 37)) [
      | inl few ↦
          let w =
            out_Waits s v safe at (apart more)
              (omega (arith, ltb→lt (length (stream s)) 37 few, length-stream s v)) in
          rw few record {
            after = w.after;
            returns = loop_throw sdk fuel s w.after txn_partial w.returns;
            reached = w.reached;
            rest = w.rest;
            sound = w.sound;
            frame = w.frame;
            started = w.started;
          }
      | inr many ↦
          rw many
            (shown more (omega (arith, ltb→le (length (stream s)) 37 many, length-stream s v)))
    ])
  ]
    where
      apart : (s.ctx.curr_obj == s.ctx.txn.out_num) ≡ false → s.ctx.curr_obj ≢ s.ctx.txn.out_num
      apart h e = ground arith

      out_ready :
          (s.ctx.curr_obj == s.ctx.txn.out_num) ≡ true
          → next_elem sdk s
            ≡ throw txn_ready
                (record s { ctx = record s.ctx { txn_state = txn_compute_sigs; curr_obj = 0 } })
      out_ready all = elem_at sdk s txn_out at ∙ unfold elem elem_out in rw (all, ◌>>=◌)

      from :
          (code : ℕ)
          → Shown sdk code s (elem_out sdk s)
          → Refines s
              (record {
                code = code;
                reached = read_output sdk (progress s) (take 37 (stream s));
                rest = drop 37 (stream s);
              })
              (txn_loop sdk (suc fuel) s)
      from code o = record {
        after = o.after;
        returns =
            loop_throw sdk fuel s o.after code
              (elem_at sdk s txn_out at ∙ unfold elem in o.returns);
        reached = o.read;
        rest = o.rest;
        sound = o.sound;
        frame = o.frame;
        started = o.started;
      }

      shown :
          (s.ctx.curr_obj == s.ctx.txn.out_num) ≡ false
          → 37 ≤ s.ctx.offset + s.ctx.data_length
          → Refines s
              (record {
                code =
                    if ltb (length (drop 37 (stream s))) 37
                    then txn_partial_out
                    else txn_approve_out;
                reached = read_output sdk (progress s) (take 37 (stream s));
                rest = drop 37 (stream s);
              })
              (txn_loop sdk (suc fuel) s)
      shown more enough = elim (Bool-cases (ltb (length (drop 37 (stream s))) 37)) [
        | inl few ↦ rw few (
            from txn_partial_out (
              elem_out_partial sdk s v at (apart more) enough (
                omega (
                  arith,
                  ltb→lt (length (drop 37 (stream s))) 37 few,
                  length-drop 37 (stream s),
                  length-stream s v,
                ))))
        | inr many ↦ rw many (
            from txn_approve_out (
              elem_out_approve sdk s v at (apart more) enough (
                omega (
                  arith,
                  ltb→le (length (drop 37 (stream s))) 37 many,
                  length-drop 37 (stream s),
                  length-stream s v,
                ))))
      ]
