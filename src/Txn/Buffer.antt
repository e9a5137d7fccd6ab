-- ===== src/Txn/Buffer.antt =====
-- src/skycoin-api/txn.c: the buffer that carries an element from one packet to the next, and the
-- hash that is fed from it.
use ledger_nano.Base.{
  ℕ, ◌+◌, ◌-◌, ◌*◌, ◌%◌, ◌^◌, Option, none, some, List, leb, if◌then◌else◌, read_bytes, write_bytes,
  u4le_at,
}
use ledger_nano.Base.Exec.{Exec, raise, gets, defined, ◌>>=◌, ◌>>◌}
use ledger_nano.Sdk.{Sdk}
use ledger_nano.Device.{Device, put_ctx}

abbrev pub sig_len : ℕ
sig_len = 65

-- `U8LE(buf, off)`.
abbrev pub u8le_at : List ℕ → ℕ → ℕ
u8le_at buf off = u4le_at buf (off + 4) * 2 ^ 32 + u4le_at buf off

-- A difference of sizes; `none` would be a copy of nearly 2 ^ 32 bytes.
abbrev pub size_sub : ℕ → ℕ → Option ℕ
size_sub a b = if leb b a then some (a - b) else none

-- `curr_obj` is an `unsigned char`.
abbrev pub next_obj : ℕ → ℕ
next_obj n = (n + 1) % 256

module _ {Sha : Type 0} where
  unfoldable pub save_data_to_buffer : Exec (Device Sha) (Unit {0})
  save_data_to_buffer = do
    c ← gets (λ s. s.ctx)
    apdu ← gets (λ s. s.apdu_buffer)
    chunk ← defined (read_bytes apdu c.data_buffer c.data_length)
    buffer ← defined (write_bytes c.buffer 0 chunk)
    put_ctx (record c {
      buffer = buffer;
      offset = c.data_length % 256;
      data_buffer = c.data_buffer + c.data_length;
      data_length = 0;
    })

  unfoldable pub read_data_to_buffer : ℕ → Exec (Device Sha) (Unit {0})
  read_data_to_buffer buffer_size = do
    c ← gets (λ s. s.ctx)
    apdu ← gets (λ s. s.apdu_buffer)
    size ← defined (size_sub buffer_size c.offset)
    chunk ← defined (read_bytes apdu c.data_buffer size)
    buffer ← defined (write_bytes c.buffer c.offset chunk)
    put_ctx (record c {
      buffer = buffer;
      offset = 0;
      data_buffer = c.data_buffer + size;
      data_length = (c.data_length + 2 ^ 16 - size) % 2 ^ 16;
    })

  -- `save_data_to_buffer(); THROW(e);`
  unfoldable pub save_and_throw : ℕ → Exec (Device Sha) (Unit {0})
  save_and_throw e = do save_data_to_buffer; raise e

module _ (sdk : Sdk) where
  open sdk use {Sha256, sha256_init, hash_more, hash_last}

  -- `cx_hash(&ctx->hash.header, 0, ctx->buffer, n, NULL)`.
  unfoldable pub hash_buffer : ℕ → Exec (Device Sha256) (Unit {0})
  hash_buffer n = do
    c ← gets (λ s. s.ctx)
    bytes ← defined (read_bytes c.buffer 0 n)
    put_ctx (record c { hash = hash_more c.hash bytes })

  -- `cx_hash(&ctx->hash.header, CX_LAST, ctx->buffer, n, ctx->txn.inner_hash)`.
  unfoldable pub hash_buffer_last : ℕ → Exec (Device Sha256) (Unit {0})
  hash_buffer_last n = do
    c ← gets (λ s. s.ctx)
    bytes ← defined (read_bytes c.buffer 0 n)
    let (hash', digest) = hash_last c.hash bytes
    put_ctx (record c { hash = hash'; txn = record c.txn { inner_hash = digest } })
