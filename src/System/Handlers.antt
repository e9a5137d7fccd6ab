-- ===== src/System/Handlers.antt =====
-- The invariant and the handlers of src/apdu_handlers.c that answer in one packet.
use ledger_nano.Base.{ℕ, ◌≡◌, sym, ◌∙◌, List, length, Bool, false, read_bytes, drop}
use ledger_nano.Base.Exec.{Outcome, ok, throw, fault, stuck, ◌>>◌}
use ledger_nano.Base.Post.{Post, bind-Post, any-Post, defined-Post, write-Post}
use ledger_nano.Sdk.{Sdk}
use ledger_nano.Crypto.Bip44.{get_bip44_path}
use ledger_nano.Crypto.Bip44.Sizes.{get_bip44_path-Post}
use ledger_nano.Crypto.Address.{
  derive_keypair, compress_public_key, generate_address, strlen, sha256_of,
}
use ledger_nano.Crypto.Address.Sizes.{generate_address-Yields}
use ledger_nano.Crypto.Signature.{sign}
use ledger_nano.Ui.Screens.{show_message, error_happened}
use ledger_nano.Apdu.Exchange.{io_async_exchange_error}
use ledger_nano.Apdu.Keys.{
  pk_len, with_path, read_path, answer, handle_get_version, handle_get_public_key,
  handle_get_signed_public_key, handle_get_address,
}
use ledger_nano.Apdu.SignTxn.{set_initialized, refuse}
use ledger_nano.System.Fits as Fits
use ledger_nano.System.Invariant.{Stays, Invariant, Keeps}
use ledger_nano.System.Screens.{Keeps-then, io_async_exchange_error-Keeps, show_message-Keeps}

module _ {Sha : Type 0} {room : ℕ} where
  read_path-Stays : (data_buffer : ℕ) → Stays {Sha = Sha} room (read_path data_buffer)
  unfolding read_path
  read_path-Stays data_buffer s v =
      stored (get_bip44_path (drop data_buffer s.apdu_buffer) s.bip44_path)
        (get_bip44_path-Post 5 (drop data_buffer s.apdu_buffer) s.bip44_path v.0.path_size)
    where
      stored :
          (o : Outcome (List ℕ) (Unit {0}))
          → Post (λ p. length p ≡ 5) (λ p. length p ≡ 5) o
          → Post (Invariant room) (Invariant room) (with_path s o)
      stored (ok u p) e = (Fits.with_path v.0 p (e ∙ sym v.0.path_size), v.1)
      stored (throw c p) e = (Fits.with_path v.0 p (e ∙ sym v.0.path_size), v.1)
      stored fault e = tt
      stored stuck e = e

  answer-Stays : (bytes : List ℕ) (n : ℕ) → Stays {Sha = Sha} room (answer bytes n)
  unfolding answer
  answer-Stays bytes n s v =
      any-Post (Invariant room) (Invariant room) (read_bytes bytes 0 n) _ s (λ part.
        write-Post (Invariant room) (Invariant room) s.apdu_buffer 0 part _ s
          (λ new e. (Fits.with_apdu v.0 new e, v.1)))

  pub handle_get_version-Stays : Stays {Sha = Sha} room handle_get_version
  unfolding handle_get_version
  handle_get_version-Stays s v = answer-Stays _ 3 s v

  pub set_initialized-Keeps : (b : Bool) → Keeps {Sha = Sha} room (set_initialized b)
  unfolding set_initialized
  set_initialized-Keeps b s v = (
    v.0,
    record {
      buffer = v.1.buffer;
      inner_hash = v.1.inner_hash;
      entries = v.1.entries;
      cells = v.1.cells;
      curr_obj = v.1.curr_obj;
      waits = v.1.waits;
    },
  )

  pub refuse-Keeps : Keeps {Sha = Sha} room refuse
  unfolding refuse
  refuse-Keeps =
      Keeps-then (set_initialized false >> io_async_exchange_error) (show_message error_happened 15)
        (Keeps-then (set_initialized false) io_async_exchange_error (set_initialized-Keeps false)
          io_async_exchange_error-Keeps)
        (show_message-Keeps error_happened 15)

module _ (sdk : Sdk) {room : ℕ} where
  pub handle_get_public_key-Stays :
      (data_buffer : ℕ) → Stays room (handle_get_public_key sdk data_buffer)
  unfolding handle_get_public_key
  handle_get_public_key-Stays data_buffer s v =
      bind-Post (Invariant room) (Invariant room) (Invariant room) (read_path data_buffer s) _
        (read_path-Stays data_buffer s v)
        (λ _ t w. answer-Stays (derive_keypair sdk t.bip44_path).1 pk_len t w)

  pub handle_get_signed_public_key-Stays :
      (data_buffer : ℕ) → Stays room (handle_get_signed_public_key sdk data_buffer)
  unfolding handle_get_signed_public_key
  handle_get_signed_public_key-Stays data_buffer s v =
      bind-Post (Invariant room) (Invariant room) (Invariant room) (read_path data_buffer s) _
        (read_path-Stays data_buffer s v)
        (λ _ t w.
          any-Post (Invariant room) (Invariant room)
            (compress_public_key (derive_keypair sdk t.bip44_path).1) _ t
            (λ key.
              any-Post (Invariant room) (Invariant room)
                (read_bytes (derive_keypair sdk t.bip44_path).1 0 pk_len) _ t
                (λ whole.
                  any-Post (Invariant room) (Invariant room)
                    (sign sdk (derive_keypair sdk t.bip44_path).0 (sha256_of sdk whole)) _ t
                    (λ signature. answer-Stays signature 65 t w))))

  pub handle_get_address-Stays : (data_buffer : ℕ) → Stays room (handle_get_address sdk data_buffer)
  unfolding handle_get_address
  handle_get_address-Stays data_buffer s v =
      bind-Post (Invariant room) (Invariant room) (Invariant room) (read_path data_buffer s) _
        (read_path-Stays data_buffer s v)
        (λ _ t w.
          defined-Post (Invariant room) (Invariant room) (λ new. length new ≡ 36)
            (generate_address sdk (derive_keypair sdk t.bip44_path).1 t.address) _ t
            (generate_address-Yields sdk 36 (derive_keypair sdk t.bip44_path).1 t.address
              w.0.address_size)
            (λ new e.
              any-Post (Invariant room) (Invariant room) (strlen new) _ (record t { address = new })
                (λ n.
                  answer-Stays new n (record t { address = new })
                    (Fits.with_address w.0 new (e ∙ sym w.0.address_size), w.1))))
