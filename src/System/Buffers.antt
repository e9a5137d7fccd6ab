-- ===== src/System/Buffers.antt =====
-- The invariant and the two copies into `buffer` (src/skycoin-api/txn.c), with the hash that is fed
-- from it.
use ledger_nano.Base.{
  ℕ, ◌+◌, ◌%◌, ◌≤◌, ◌<◌, ◌≡◌, refl, ◌∙◌, inl, inr, Bool-cases, leb, read_bytes, arith, leb→le,
}
use mathlib.Core.Path.{subst}
use ledger_nano.Base.Post.{Post, Yields, bind-Post, any-Post, defined-Post, write-Post}
use ledger_nano.Sdk.{Sdk, SdkLaws}
use ledger_nano.Device.{
  Device, TxnState, txn_start_in, txn_in, txn_start_out, txn_out, txn_compute_sigs, txn_ret_sigs,
}
use ledger_nano.Txn.Buffer.{
  save_data_to_buffer, read_data_to_buffer, save_and_throw, hash_buffer, hash_buffer_last, size_sub,
}
use ledger_nano.System.Invariant.{Invariant, Waits}

pub Waits-zero : (st : TxnState) → Waits st 0
Waits-zero txn_start_in = omega arith
Waits-zero txn_in = omega arith
Waits-zero txn_start_out = omega arith
Waits-zero txn_out = omega arith
Waits-zero txn_compute_sigs = tt
Waits-zero txn_ret_sigs = tt

size_sub-Yields : (a b : ℕ) → Yields (λ size. size + b ≡ a) (size_sub a b)
size_sub-Yields a b = elim (Bool-cases (leb b a)) [
  | inl h ↦ rw h (omega (arith, leb→le b a h))
  | inr h ↦ rw h tt
]

module _ {Sha : Type 0} (room : ℕ) where
  -- An element was read: the buffer is empty, and fewer bytes of the packet are left.
  pub record Fed (left : ℕ) (st : TxnState) (s : Device Sha) : Type 0 where
    pub keeps : Invariant room s
    pub shorter : s.ctx.data_length < left
    pub empty : s.ctx.offset ≡ 0
    pub state : s.ctx.txn_state ≡ st

  abbrev pub Taken : ℕ → Device Sha → Type 0
  Taken left s = Invariant room s × (s.ctx.data_length < left)

  save_data_to_buffer-Post :
      (s : Device Sha)
      → Invariant room s
      → s.ctx.data_length < 256
      → Waits s.ctx.txn_state s.ctx.data_length
      → Post (Invariant room) (Invariant room) (save_data_to_buffer s)
  unfolding save_data_to_buffer
  save_data_to_buffer-Post s v low w =
      any-Post (Invariant room) (Invariant room)
        (read_bytes s.apdu_buffer s.ctx.data_buffer s.ctx.data_length) _ s
        (λ chunk. write-Post (Invariant room) (Invariant room) s.ctx.buffer 0 chunk _ s (λ new same.
          (
            v.0,
            record {
              buffer = same ∙ v.1.buffer;
              inner_hash = v.1.inner_hash;
              entries = v.1.entries;
              cells = v.1.cells;
              curr_obj = v.1.curr_obj;
              waits =
                  let m : s.ctx.data_length ≡ s.ctx.data_length % 256 = omega arith in
                  subst (λ n. Waits s.ctx.txn_state n) m w;
            },
          )))

  pub save_and_throw-Post :
      (P : Device Sha → Type 0) (e : ℕ) (s : Device Sha)
      → Invariant room s
      → s.ctx.data_length < 256
      → Waits s.ctx.txn_state s.ctx.data_length
      → Post P (Invariant room) (save_and_throw e s)
  unfolding save_and_throw
  save_and_throw-Post P e s v low w =
      bind-Post P (Invariant room) (Invariant room) (save_data_to_buffer s) _
        (save_data_to_buffer-Post s v low w) (λ _ t x. x)

  pub read_data_to_buffer-Fed :
      (n : ℕ) (s : Device Sha)
      → Invariant room s
      → s.ctx.offset < n
      → n ≤ s.ctx.offset + s.ctx.data_length
      → Post (Fed s.ctx.data_length s.ctx.txn_state) (Invariant room) (read_data_to_buffer n s)
  unfolding read_data_to_buffer
  read_data_to_buffer-Fed n s v some_missing enough =
      defined-Post (Fed s.ctx.data_length s.ctx.txn_state) (Invariant room)
        (λ size. size + s.ctx.offset ≡ n) (size_sub n s.ctx.offset) _ s
        (size_sub-Yields n s.ctx.offset)
        (λ size e.
          any-Post (Fed s.ctx.data_length s.ctx.txn_state) (Invariant room)
            (read_bytes s.apdu_buffer s.ctx.data_buffer size) _ s
            (λ chunk.
              write-Post (Fed s.ctx.data_length s.ctx.txn_state) (Invariant room) s.ctx.buffer
                s.ctx.offset chunk _ s
                (λ new same. record {
                  keeps = (
                    v.0,
                    record {
                      buffer = same ∙ v.1.buffer;
                      inner_hash = v.1.inner_hash;
                      entries = v.1.entries;
                      cells = v.1.cells;
                      curr_obj = v.1.curr_obj;
                      waits = Waits-zero s.ctx.txn_state;
                    },
                  );
                  shorter = omega arith;
                  empty = refl;
                  state = refl;
                })))

module _ (sdk : Sdk) (room : ℕ) where
  pub hash_buffer-Fed :
      (n left : ℕ) (st : TxnState) (s : Device sdk.Sha256)
      → Fed room left st s
      → Post (Fed room left st) (Invariant room) (hash_buffer sdk n s)
  unfolding hash_buffer
  hash_buffer-Fed n left st s v =
      any-Post (Fed room left st) (Invariant room) (read_bytes s.ctx.buffer 0 n) _ s (λ bytes.
        record {
          keeps = (
            v.keeps.0,
            record {
              buffer = v.keeps.1.buffer;
              inner_hash = v.keeps.1.inner_hash;
              entries = v.keeps.1.entries;
              cells = v.keeps.1.cells;
              curr_obj = v.keeps.1.curr_obj;
              waits = v.keeps.1.waits;
            },
          );
          shorter = v.shorter;
          empty = v.empty;
          state = v.state;
        })

  pub hash_buffer_last-Fed :
      (laws : SdkLaws sdk) (n left : ℕ) (st : TxnState) (s : Device sdk.Sha256)
      → Fed room left st s
      → Post (Fed room left st) (Invariant room) (hash_buffer_last sdk n s)
  unfolding hash_buffer_last
  hash_buffer_last-Fed laws n left st s v =
      any-Post (Fed room left st) (Invariant room) (read_bytes s.ctx.buffer 0 n) _ s (λ bytes.
        record {
          keeps = (
            v.keeps.0,
            record {
              buffer = v.keeps.1.buffer;
              inner_hash = laws.last_size s.ctx.hash bytes;
              entries = v.keeps.1.entries;
              cells = v.keeps.1.cells;
              curr_obj = v.keeps.1.curr_obj;
              waits = v.keeps.1.waits;
            },
          );
          shorter = v.shorter;
          empty = v.empty;
          state = v.state;
        })
