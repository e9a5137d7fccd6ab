-- ===== src/Txn/Step.antt =====
-- What it means that a call of `txn_next_elem` does on the device what `scan` does on the stream.
use mathlib.Core.List.{append-nil}
use ledger_nano.Base.{
  ℕ, suc, ◌+◌, ◌≤◌, ◌≡◌, refl, sym, ap, ◌∙◌, ◌⊎◌, ◌++◌, arith, length, take, drop, length-append,
  length-take, length-drop,
}
use ledger_nano.Base.Exec.{Outcome, ok, throw, ◌>>=◌}
use ledger_nano.Sdk.{Sdk}
use ledger_nano.Device.{Device, TxnState, txn_partial}
use ledger_nano.Txn.Buffer.{save_data_to_buffer, save_and_throw}
use ledger_nano.Txn.Loop.{elem, next_elem, txn_loop}
use ledger_nano.Txn.Stream.{packet, stream, IsSound, Saves, save_data_to_buffer-Saves}
use ledger_nano.Txn.Reader.{progress}
use ledger_nano.Txn.Scan.{Scanned}

-- A call of the reader that does what `r` says, to the transaction alone.
pub record Refines {Sha : Type 0} (s : Device Sha) (r : Scanned Sha)
    (result : Outcome (Device Sha) ℕ) : Type 0 where
  pub after : Device Sha
  pub returns : result ≡ ok r.code after
  pub reached : progress after ≡ r.reached
  pub rest : stream after ≡ r.rest
  pub sound : IsSound after
  pub frame : after ≡ record s { ctx = after.ctx }
  pub started : after.ctx.initialized ≡ s.ctx.initialized

-- `save_data_to_buffer` overwrites what the buffer held: nothing is lost if it held nothing, or if
-- the packet is long enough that the buffer is not kept.
abbrev pub IsSafe : {Sha : Type 0} → Device Sha → Type 0
IsSafe s = (s.ctx.offset ≡ 0) ⊎ (37 ≤ s.ctx.data_length)

pub record Waits {Sha : Type 0} (s : Device Sha) (result : Outcome (Device Sha) (Unit {0}))
    : Type 0 where
  pub after : Device Sha
  pub returns : result ≡ throw txn_partial after
  pub reached : progress after ≡ progress s
  pub rest : stream after ≡ stream s
  pub sound : IsSound after
  pub frame : after ≡ record s { ctx = after.ctx }
  pub started : after.ctx.initialized ≡ s.ctx.initialized

pub save-Waits :
    {Sha : Type 0} (s : Device Sha)
    → IsSound s
    → s.ctx.offset ≡ 0
    → s.ctx.data_length ≤ 36
    → Waits s (save_and_throw txn_partial s)
unfolding save_and_throw
save-Waits s v o small = record {
  after = record s {
    ctx = record s.ctx {
      buffer = kept.buffer;
      offset = s.ctx.data_length;
      data_buffer = s.ctx.data_buffer + s.ctx.data_length;
      data_length = 0;
    };
  };
  returns = rw (◌>>=◌, kept.returns);
  reached = refl;
  rest = append-nil _ ∙ kept.kept ∙ ap (λ (n : ℕ). take n s.ctx.buffer ++ packet s) (sym o);
  sound = record {
    buffer_size = kept.size;
    in_apdu = omega (arith, v.in_apdu);
    short = omega arith;
    part = omega arith;
  };
  frame = refl;
  started = refl;
}
  where
    kept : Saves s (save_data_to_buffer s)
    kept = save_data_to_buffer-Saves s v small

pub length-stream :
    {Sha : Type 0} (s : Device Sha)
    → IsSound s
    → length (stream s) ≡ s.ctx.offset + s.ctx.data_length
length-stream s v = omega (
  arith,
  length-append (take s.ctx.offset s.ctx.buffer) (packet s),
  length-take s.ctx.offset s.ctx.buffer,
  length-take s.ctx.data_length (drop s.ctx.data_buffer s.apdu_buffer),
  length-drop s.ctx.data_buffer s.apdu_buffer,
  v.buffer_size,
  v.part,
  v.in_apdu,
)

module _ (sdk : Sdk) where
  pub elem_at :
      (s : Device sdk.Sha256) (st : TxnState)
      → s.ctx.txn_state ≡ st
      → next_elem sdk s ≡ elem sdk st s
  unfolding next_elem
  elem_at s st e = ap (λ t. elem sdk t s) e

  -- An exception ends the call.
  pub loop_throw :
      (fuel : ℕ) (s after : Device sdk.Sha256) (code : ℕ)
      → next_elem sdk s ≡ throw code after
      → txn_loop sdk (suc fuel) s ≡ ok code after
  unfolding txn_loop
  loop_throw fuel s after code e = rw (txn_loop, e)

  pub loop_ok :
      (fuel : ℕ) (s after : Device sdk.Sha256)
      → next_elem sdk s ≡ ok tt after
      → txn_loop sdk (suc fuel) s ≡ txn_loop sdk fuel after
  unfolding txn_loop
  loop_ok fuel s after e = rw (txn_loop, e)

  pub Refines-frame :
      (s t : Device sdk.Sha256) (r : Scanned sdk.Sha256) {result : Outcome (Device sdk.Sha256) ℕ}
      → t ≡ record s { ctx = t.ctx }
      → t.ctx.initialized ≡ s.ctx.initialized
      → Refines t r result
      → Refines s r result
  Refines-frame s t r f i q = record {
    after = q.after;
    returns = q.returns;
    reached = q.reached;
    rest = q.rest;
    sound = q.sound;
    frame = q.frame ∙ ap (λ (d : Device sdk.Sha256). record d { ctx = q.after.ctx }) f;
    started = q.started ∙ i;
  }
