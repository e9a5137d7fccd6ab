-- ===== src/Txn/Advance.antt =====
-- Each case that reads an element does to the device what the reader does to its progress.
use ledger_nano.Base.{
  ℕ, ◌+◌, ◌-◌, ◌≤◌, ◌<◌, ◌≡◌, refl, sym, ap, ◌∙◌, some, List, [], ◌++◌, arith, le→ltb, ◌==◌,
  if◌then◌else◌, length, get_or, set, take, take-take, length-take, drop, read_bytes, read_bytes_in,
  u4le_at, get_or-take, get_elem?-eq-get_or, write_bytes, write_bytes_in,
}
use ledger_nano.Base.Exec.{Outcome, ok, ◌>>=◌}
use ledger_nano.Sdk.{Sdk}
use ledger_nano.Device.{Device, txn_in, txn_start_out, txn_out}
use ledger_nano.Txn.Buffer.{read_data_to_buffer, hash_buffer, next_obj}
use ledger_nano.Txn.Elements.{elem_start_in, elem_in, elem_start_out}
use ledger_nano.Txn.Stream.{stream, IsSound, Reads, read_data_to_buffer-Reads}
use ledger_nano.Txn.Reader.{Progress, progress, read_in_num, read_input, read_out_num}

pub record Advances {Sha : Type 0} (n : ℕ) (next : Progress Sha → List ℕ → Progress Sha)
    (s : Device Sha) (result : Outcome (Device Sha) (Unit {0})) : Type 0 where
  pub after : Device Sha
  pub returns : result ≡ ok tt after
  pub read : progress after ≡ next (progress s) (take n (stream s))
  pub rest : stream after ≡ drop n (stream s)
  pub sound : IsSound after
  pub nothing_held : after.ctx.offset ≡ 0
  pub shorter : after.ctx.data_length + (n - s.ctx.offset) ≡ s.ctx.data_length
  pub frame : after ≡ record s { ctx = after.ctx }
  pub started : after.ctx.initialized ≡ s.ctx.initialized

pub u4le_at-take :
    (n off : ℕ) (buf : List ℕ) → off + 4 ≤ n → u4le_at buf off ≡ u4le_at (take n buf) off
u4le_at-take n off buf h = sym (
    rw (
      get_or-take n off buf 0 (omega arith),
      get_or-take n (off + 1) buf 0 (omega arith),
      get_or-take n (off + 2) buf 0 (omega arith),
      get_or-take n (off + 3) buf 0 (omega arith),
    ))

pub front_read :
    (buf : List ℕ) (n : ℕ) → n ≤ 37 → length buf ≡ 37 → read_bytes buf 0 n ≡ some (take n buf)
front_read buf n h l = read_bytes_in buf 0 n (omega arith)

module _ (sdk : Sdk) (s : Device sdk.Sha256) (v : IsSound s) where
  -- TXN_START_IN with four bytes at hand reads the number of inputs.
  pub elem_start_in-Advances :
      s.ctx.offset ≤ 3
      → 4 ≤ s.ctx.offset + s.ctx.data_length
      → Advances 4 (read_in_num sdk) s (elem_start_in sdk s)
  unfolding elem_start_in hash_buffer
  elem_start_in-Advances o enough = record {
    after = record s {
      ctx = record s.ctx {
        buffer = r.buffer;
        offset = 0;
        data_buffer = s.ctx.data_buffer + (4 - s.ctx.offset);
        data_length = s.ctx.data_length - (4 - s.ctx.offset);
        hash = sdk.hash_more s.ctx.hash (take 4 r.buffer);
        txn = record s.ctx.txn { in_num = u4le_at r.buffer 0 };
        txn_state = txn_in;
        curr_obj = 0;
      };
    };
    returns = rw (
      le→ltb (s.ctx.offset + s.ctx.data_length) 4 enough,
      ◌>>=◌,
      r.returns,
      hash_buffer,
      front_read r.buffer 4 (omega arith) r.size,
    );
    read = rw (u4le_at-take 4 0 r.buffer (omega arith), r.element);
    rest = r.rest;
    sound = record {
      buffer_size = r.size;
      in_apdu = omega (arith, v.in_apdu);
      short = omega (arith, v.short);
      part = omega arith;
    };
    nothing_held = refl;
    shorter = omega arith;
    frame = refl;
    started = refl;
  }
    where
      r : Reads 4 s (read_data_to_buffer 4 s)
      r = read_data_to_buffer-Reads 4 s v (omega arith) (omega arith) enough

  -- TXN_START_OUT looks at the new packet alone: with four bytes in it the number of outputs is
  -- read.
  pub elem_start_out-Advances :
      s.ctx.offset ≤ 3
      → 4 ≤ s.ctx.data_length
      → Advances 4 (read_out_num sdk) s (elem_start_out sdk s)
  unfolding elem_start_out hash_buffer
  elem_start_out-Advances o enough = record {
    after = record s {
      ctx = record s.ctx {
        buffer = r.buffer;
        offset = 0;
        data_buffer = s.ctx.data_buffer + (4 - s.ctx.offset);
        data_length = s.ctx.data_length - (4 - s.ctx.offset);
        hash = sdk.hash_more s.ctx.hash (take 4 r.buffer);
        txn = record s.ctx.txn { out_num = u4le_at r.buffer 0 };
        txn_state = txn_out;
        curr_obj = 0;
      };
    };
    returns = rw (
      le→ltb s.ctx.data_length 4 enough,
      ◌>>=◌,
      r.returns,
      hash_buffer,
      front_read r.buffer 4 (omega arith) r.size,
    );
    read = rw (u4le_at-take 4 0 r.buffer (omega arith), r.element);
    rest = r.rest;
    sound = record {
      buffer_size = r.size;
      in_apdu = omega (arith, v.in_apdu);
      short = omega (arith, v.short);
      part = omega arith;
    };
    nothing_held = refl;
    shorter = omega arith;
    frame = refl;
    started = refl;
  }
    where
      r : Reads 4 s (read_data_to_buffer 4 s)
      r = read_data_to_buffer-Reads 4 s v (omega arith) (omega arith) (omega arith)

  stored :
      (buffer : List ℕ)
      → length buffer ≡ 37
      → s.ctx.curr_obj < length s.ctx.txn.sig_input
      → length (get_or s.ctx.txn.sig_input s.ctx.curr_obj []) ≡ 65
      → let cell = get_or s.ctx.txn.sig_input s.ctx.curr_obj [] in
        write_bytes cell 0 (take 36 buffer) ≡ some (take 36 buffer ++ drop 36 cell)
  stored buffer l in_range l_65 =
      let cell : List ℕ = get_or s.ctx.txn.sig_input s.ctx.curr_obj [] in
      let n : length (take 36 buffer) ≡ 36 = omega (arith, length-take 36 buffer) in
      let e : 0 + length (take 36 buffer) ≡ 36 = omega arith in
      write_bytes_in cell 0 (take 36 buffer) (omega arith)
      ∙ ap (λ (k : ℕ). some (take 36 buffer ++ drop k cell)) e

  -- TXN_IN with an input at hand stores it in the entry of its number, if there is one.
  pub elem_in-Advances :
      s.ctx.offset ≤ 35
      → 36 ≤ s.ctx.offset + s.ctx.data_length
      → s.ctx.curr_obj < length s.ctx.txn.sig_input
      → length (get_or s.ctx.txn.sig_input s.ctx.curr_obj []) ≡ 65
      → Advances 36 (read_input sdk) s (elem_in sdk s)
  unfolding elem_in hash_buffer
  elem_in-Advances o enough in_range l_65 = record {
    after = record s {
      ctx = record s.ctx {
        buffer = r.buffer;
        offset = 0;
        data_buffer = s.ctx.data_buffer + (36 - s.ctx.offset);
        data_length = s.ctx.data_length - (36 - s.ctx.offset);
        hash = sdk.hash_more s.ctx.hash (take 32 r.buffer);
        txn = record s.ctx.txn {
          sig_input =
              set s.ctx.txn.sig_input s.ctx.curr_obj
                (take 36 r.buffer ++ drop 36 (get_or s.ctx.txn.sig_input s.ctx.curr_obj []));
        };
        txn_state = if next_obj s.ctx.curr_obj == s.ctx.txn.in_num then txn_start_out else txn_in;
        curr_obj = next_obj s.ctx.curr_obj;
      };
    };
    returns = rw (
      le→ltb (s.ctx.offset + s.ctx.data_length) 36 enough,
      ◌>>=◌,
      r.returns,
      hash_buffer,
      front_read r.buffer 32 (omega arith) r.size,
      front_read r.buffer 36 (omega arith) r.size,
      get_elem?-eq-get_or s.ctx.txn.sig_input s.ctx.curr_obj [] in_range,
      stored r.buffer r.size in_range l_65,
    );
    read = rw (← take-take 32 36 r.buffer (omega arith), r.element);
    rest = r.rest;
    sound = record {
      buffer_size = r.size;
      in_apdu = omega (arith, v.in_apdu);
      short = omega (arith, v.short);
      part = omega arith;
    };
    nothing_held = refl;
    shorter = omega arith;
    frame = refl;
    started = refl;
  }
    where
      r : Reads 36 s (read_data_to_buffer 36 s)
      r = read_data_to_buffer-Reads 36 s v (omega arith) (omega arith) enough
