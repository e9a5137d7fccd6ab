-- ===== src/Txn/Outputs.antt =====
-- TXN_OUT: an output is read and hashed, and thrown to the screen.
use mathlib.Core.Bool.{not}
use mathlib.Core.List.{append-nil}
use ledger_nano.Base.{
  ℕ, ◌+◌, ◌-◌, ◌≤◌, ◌<◌, ◌≡◌, ◌≢◌, refl, ap, ◌∙◌, inl, inr, Bool, true, List, arith, le→ltb, lt→ltb,
  ◌==◌, ne→==, if◌then◌else◌, take, drop, take-take, Bool-cases,
}
use ledger_nano.Base.Exec.{Outcome, ok, throw, ◌>>=◌}
use ledger_nano.Sdk.{Sdk}
use ledger_nano.Device.{Device, txn_out, state_code, txn_partial_out, txn_approve_out, txn_ready}
use ledger_nano.Txn.Buffer.{
  read_data_to_buffer, save_data_to_buffer, save_and_throw, hash_buffer, hash_buffer_last, next_obj,
  u8le_at,
}
use ledger_nano.Txn.Elements.{elem_out, finish_out}
use ledger_nano.Txn.Stream.{
  stream, IsSound, Reads, Saves, read_data_to_buffer-Reads, save_data_to_buffer-Saves,
}
use ledger_nano.Txn.Reader.{progress, output_of, read_output}
use ledger_nano.Txn.Advance.{front_read, u4le_at-take}

-- An output was read, and `code` is thrown.
pub record Shown (sdk : Sdk) (code : ℕ) (s : Device sdk.Sha256)
    (result : Outcome (Device sdk.Sha256) (Unit {0})) : Type 0 where
  pub after : Device sdk.Sha256
  pub returns : result ≡ throw code after
  pub read : progress after ≡ read_output sdk (progress s) (take 37 (stream s))
  pub rest : stream after ≡ drop 37 (stream s)
  pub sound : IsSound after
  pub frame : after ≡ record s { ctx = after.ctx }
  pub started : after.ctx.initialized ≡ s.ctx.initialized

u8le_at-take : (off : ℕ) (buf : List ℕ) → off + 8 ≤ 37 → u8le_at buf off ≡ u8le_at (take 37 buf) off
u8le_at-take off buf h =
    rw (u4le_at-take 37 (off + 4) buf (omega arith), u4le_at-take 37 off buf (omega arith))

output_of-take : (buf : List ℕ) → output_of buf ≡ output_of (take 37 buf)
output_of-take buf = rw (
  u8le_at-take 21 buf (omega arith),
  u8le_at-take 29 buf (omega arith),
  ← take-take 21 37 buf (omega arith),
)

module _ (sdk : Sdk) (s : Device sdk.Sha256) (v : IsSound s) (at_out : s.ctx.txn_state ≡ txn_out)
    (more : s.ctx.curr_obj ≢ s.ctx.txn.out_num)
    (enough : 37 ≤ s.ctx.offset + s.ctx.data_length) where
  r : Reads 37 s (read_data_to_buffer 37 s)
  r = read_data_to_buffer-Reads 37 s v (omega arith) (omega (arith, v.part)) enough

  abbrev ends : Bool
  ends = next_obj s.ctx.curr_obj == s.ctx.txn.out_num

  -- The device before the hash.
  abbrev stored : Device sdk.Sha256
  stored = record s {
    ctx = record s.ctx {
      buffer = r.buffer;
      offset = 0;
      data_buffer = s.ctx.data_buffer + (37 - s.ctx.offset);
      data_length = s.ctx.data_length - (37 - s.ctx.offset);
      txn = record s.ctx.txn { cur_output = output_of r.buffer };
      curr_obj = next_obj s.ctx.curr_obj;
    };
  }

  -- And after it.
  abbrev hashed : Device sdk.Sha256
  hashed = record stored {
    ctx = record stored.ctx {
      hash =
          if ends
          then (sdk.hash_last s.ctx.hash (take 37 r.buffer)).0
          else sdk.hash_more s.ctx.hash (take 37 r.buffer);
      txn = record stored.ctx.txn {
        inner_hash =
            if ends then (sdk.hash_last s.ctx.hash (take 37 r.buffer)).1 else s.ctx.txn.inner_hash;
      };
    };
  }

  hash_step : (if ends then hash_buffer_last sdk 37 else hash_buffer sdk 37) stored ≡ ok tt hashed
  unfolding hash_buffer hash_buffer_last
  hash_step = elim (Bool-cases ends) [
    | inl e ↦ rw (e, front_read r.buffer 37 (omega arith) r.size)
    | inr e ↦ rw (e, front_read r.buffer 37 (omega arith) r.size)
  ]

  reaches : elem_out sdk s ≡ finish_out sdk stored
  unfolding elem_out
  reaches = rw (
    ne→== s.ctx.curr_obj s.ctx.txn.out_num more,
    le→ltb (s.ctx.offset + s.ctx.data_length) 37 enough,
    ◌>>=◌,
    r.returns,
    front_read r.buffer 21 (omega arith) r.size,
  )

  waiting : not (state_code s.ctx.txn_state == txn_ready) ≡ true
  waiting = ap (λ t. not (state_code t == txn_ready)) at_out

  hashed_read : progress hashed ≡ read_output sdk (progress s) (take 37 (stream s))
  hashed_read = rw (output_of-take r.buffer, r.element)

  hashed-IsSound : IsSound hashed
  hashed-IsSound = record {
    buffer_size = r.size;
    in_apdu = omega (arith, v.in_apdu);
    short = omega (arith, v.short);
    part = omega arith;
  }

  -- With a whole output left in the packet the user is asked at once.
  pub elem_out_approve :
      74 ≤ s.ctx.offset + s.ctx.data_length → Shown sdk txn_approve_out s (elem_out sdk s)
  elem_out_approve left = record {
    after = hashed;
    returns =
        reaches
        ∙ unfold finish_out in
          rw (
            hash_step,
            ◌>>=◌,
            le→ltb (0 + (s.ctx.data_length - (37 - s.ctx.offset))) 37 (omega arith),
          );
    read = hashed_read;
    rest = r.rest;
    sound = hashed-IsSound;
    frame = refl;
    started = refl;
  }

  -- With less, the rest is kept and the next packet is asked for.
  pub elem_out_partial :
      s.ctx.offset + s.ctx.data_length < 74 → Shown sdk txn_partial_out s (elem_out sdk s)
  elem_out_partial left = record {
    after = record hashed {
      ctx = record hashed.ctx {
        buffer = kept.buffer;
        offset = hashed.ctx.data_length;
        data_buffer = hashed.ctx.data_buffer + hashed.ctx.data_length;
        data_length = 0;
      };
    };
    returns =
        reaches
        ∙ unfold finish_out save_and_throw in
          rw (
            hash_step,
            ◌>>=◌,
            lt→ltb (0 + (s.ctx.data_length - (37 - s.ctx.offset))) 37 (omega arith),
            waiting,
            kept.returns,
          );
    read = hashed_read;
    rest = append-nil _ ∙ kept.kept ∙ r.rest;
    sound = record {
      buffer_size = kept.size;
      in_apdu = omega (arith, v.in_apdu);
      short = omega arith;
      part = omega arith;
    };
    frame = refl;
    started = refl;
  }
    where
      kept : Saves hashed (save_data_to_buffer hashed)
      kept = save_data_to_buffer-Saves hashed hashed-IsSound (omega arith)
