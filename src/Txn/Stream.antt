-- ===== src/Txn/Stream.antt =====
-- What the buffer and the packet hold together: the bytes that the reader has not used yet.
use mathlib.Core.List.{append_assoc}
use native.Mathlib.Nat.{mod-eq_of_lt}
use ledger_nano.Base.{
  ℕ, ◌+◌, ◌-◌, ◌%◌, ◌^◌, ◌≤◌, ◌<◌, ◌≡◌, sym, ap, ◌∙◌, List, ◌++◌, arith, le→leb, length, take, drop,
  read_bytes_in, write_bytes_in, length-append, length-take, length-drop, length-patch, take-append,
  take-append_more, drop-append_more, take-take, drop-take, drop-drop,
}
use ledger_nano.Base.Exec.{Outcome, ok, ◌>>=◌}
use ledger_nano.Device.{Device}
use ledger_nano.Txn.Buffer.{save_data_to_buffer, read_data_to_buffer}

module _ {Sha : Type 0} where
  abbrev pub packet : Device Sha → List ℕ
  packet s = take s.ctx.data_length (drop s.ctx.data_buffer s.apdu_buffer)

  abbrev pub held : Device Sha → List ℕ
  held s = take s.ctx.offset s.ctx.buffer

  abbrev pub stream : Device Sha → List ℕ
  stream s = held s ++ packet s

  -- The packet lies in the APDU buffer, and what is held in `buffer`.
  pub record IsSound (s : Device Sha) : Type 0 where
    pub buffer_size : length s.ctx.buffer ≡ 37
    pub in_apdu : s.ctx.data_buffer + s.ctx.data_length ≤ length s.apdu_buffer
    pub short : s.ctx.data_length < 2 ^ 16
    pub part : s.ctx.offset ≤ 36

  -- An element of `n` bytes is read: it stands at the front of `buffer`.
  pub record Reads (n : ℕ) (s : Device Sha) (result : Outcome (Device Sha) (Unit {0}))
      : Type 0 where
    pub buffer : List ℕ
    pub returns :
        result
        ≡ ok tt (record s {
          ctx = record s.ctx {
            buffer = buffer;
            offset = 0;
            data_buffer = s.ctx.data_buffer + (n - s.ctx.offset);
            data_length = s.ctx.data_length - (n - s.ctx.offset);
          };
        })
    pub size : length buffer ≡ 37
    pub element : take n buffer ≡ take n (stream s)
    pub rest :
        take
          (s.ctx.data_length - (n - s.ctx.offset))
          (drop (s.ctx.data_buffer + (n - s.ctx.offset)) s.apdu_buffer)
        ≡ drop n (stream s)

  module _ (n : ℕ) (s : Device Sha) (v : IsSound s) (fits : n ≤ 37) (o : s.ctx.offset ≤ n)
      (enough : n ≤ s.ctx.offset + s.ctx.data_length) where
    abbrev size : ℕ
    size = n - s.ctx.offset

    abbrev chunk : List ℕ
    chunk = take size (drop s.ctx.data_buffer s.apdu_buffer)

    length-held : length (held s) ≡ s.ctx.offset
    length-held = omega (arith, length-take s.ctx.offset s.ctx.buffer, v.buffer_size, v.part)

    length-chunk : length chunk ≡ size
    length-chunk = omega (
      arith,
      length-take size (drop s.ctx.data_buffer s.apdu_buffer),
      length-drop s.ctx.data_buffer s.apdu_buffer,
      v.in_apdu,
    )

    abbrev filled : List ℕ
    filled = held s ++ (chunk ++ drop (s.ctx.offset + length chunk) s.ctx.buffer)

    wrapped : (s.ctx.data_length + 2 ^ 16 - size) % 2 ^ 16 ≡ s.ctx.data_length - size
    wrapped = omega (arith, v.short)

    element_read : take n filled ≡ take n (stream s)
    element_read =
        rw (← append_assoc (held s) chunk (drop (s.ctx.offset + length chunk) s.ctx.buffer)) (
          take-append n (held s ++ chunk) _
            (omega (arith, length-append (held s) chunk, length-held, length-chunk)))
        ∙ ap (λ t. held s ++ t)
            (sym (
              take-take size s.ctx.data_length (drop s.ctx.data_buffer s.apdu_buffer)
                (omega arith)))
        ∙ sym (take-append_more n size (held s) (packet s) (omega (arith, length-held)))

    rest_read :
        take (s.ctx.data_length - size) (drop (s.ctx.data_buffer + size) s.apdu_buffer)
        ≡ drop n (stream s)
    rest_read =
        ap (λ t. take (s.ctx.data_length - size) t)
          (sym (drop-drop size s.ctx.data_buffer s.apdu_buffer))
        ∙ sym (
            drop-take size s.ctx.data_length (s.ctx.data_length - size)
              (drop s.ctx.data_buffer s.apdu_buffer) (omega arith))
        ∙ sym (drop-append_more n size (held s) (packet s) (omega (arith, length-held)))

    -- `read_data_to_buffer` takes the next `n` bytes of the stream.
    pub read_data_to_buffer-Reads : Reads n s (read_data_to_buffer n s)
    unfolding read_data_to_buffer
    read_data_to_buffer-Reads = record {
      buffer = filled;
      returns = rw (
        le→leb s.ctx.offset n o,
        ◌>>=◌,
        read_bytes_in s.apdu_buffer s.ctx.data_buffer size (omega (arith, v.in_apdu)),
        write_bytes_in s.ctx.buffer s.ctx.offset chunk (omega (arith, length-chunk, v.buffer_size)),
        wrapped,
      );
      size =
          length-patch s.ctx.buffer s.ctx.offset chunk (omega (arith, length-chunk, v.buffer_size))
          ∙ v.buffer_size;
      element = element_read;
      rest = rest_read;
    }

  -- `save_data_to_buffer` with less than a buffer of data: it keeps the packet, and only that.
  pub record Saves (s : Device Sha) (result : Outcome (Device Sha) (Unit {0})) : Type 0 where
    pub buffer : List ℕ
    pub returns :
        result
        ≡ ok tt (record s {
          ctx = record s.ctx {
            buffer = buffer;
            offset = s.ctx.data_length;
            data_buffer = s.ctx.data_buffer + s.ctx.data_length;
            data_length = 0;
          };
        })
    pub size : length buffer ≡ 37
    pub kept : take s.ctx.data_length buffer ≡ packet s

  module _ (s : Device Sha) (v : IsSound s) (small : s.ctx.data_length ≤ 36) where
    length-packet : length (packet s) ≡ s.ctx.data_length
    length-packet = omega (
      arith,
      length-take s.ctx.data_length (drop s.ctx.data_buffer s.apdu_buffer),
      length-drop s.ctx.data_buffer s.apdu_buffer,
      v.in_apdu,
    )

    pub save_data_to_buffer-Saves : Saves s (save_data_to_buffer s)
    unfolding save_data_to_buffer
    save_data_to_buffer-Saves = record {
      buffer = take 0 s.ctx.buffer ++ (packet s ++ drop (0 + length (packet s)) s.ctx.buffer);
      returns = rw (
        read_bytes_in s.apdu_buffer s.ctx.data_buffer s.ctx.data_length v.in_apdu,
        ◌>>=◌,
        write_bytes_in s.ctx.buffer 0 (packet s) (omega (arith, length-packet, v.buffer_size)),
        mod-eq_of_lt byte,
      );
      size =
          length-patch s.ctx.buffer 0 (packet s) (omega (arith, length-packet, v.buffer_size))
          ∙ v.buffer_size;
      kept = take-append s.ctx.data_length (packet s) _ (sym length-packet);
    }
      where
        byte : s.ctx.data_length < 256
        byte = omega arith
