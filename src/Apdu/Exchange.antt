-- ===== src/Apdu/Exchange.antt =====
-- `io_exchange_with_code`, `io_async_exchange_ok` and `io_async_exchange_error` of
-- src/apdu_handlers.c. `io_exchange` with IO_RETURN_AFTER_TX is the SDK's: it sends the first `tx`
-- bytes of `G_io_apdu_buffer` to the host.
use ledger_nano.Base.{ℕ, ◌+◌, ◌/◌, ◌%◌, ◌^◌, [], ◌∷◌, ◌++◌, read_bytes, write_bytes}
use ledger_nano.Base.Exec.{Exec, gets, defined, modify, ◌>>=◌, ◌>>◌}
use ledger_nano.Device.{Device}

abbrev pub ins_ret_success : ℕ
ins_ret_success = 0x9000

module _ {Sha : Type 0} where
  unfoldable pub io_exchange : ℕ → Exec (Device Sha) (Unit {0})
  io_exchange tx = do
    apdu ← gets (λ s. s.apdu_buffer)
    reply ← defined (read_bytes apdu 0 tx)
    modify (λ s. record s { sent = s.sent ++ reply ∷ [] })

  unfoldable pub io_exchange_with_code : ℕ → ℕ → Exec (Device Sha) (Unit {0})
  unfolding io_exchange
  io_exchange_with_code code tx = do
    apdu ← gets (λ s. s.apdu_buffer)
    apdu' ← defined (write_bytes apdu tx (code / 2 ^ 8 ∷ code % 256 ∷ []))
    modify (λ s. record s { apdu_buffer = apdu' })
    io_exchange (tx + 2)

  -- The second argument is a `uint16_t`.
  unfoldable pub io_async_exchange_ok : Exec (Device Sha) (Unit {0})
  unfolding io_exchange_with_code
  io_async_exchange_ok = do
    tx ← gets (λ s. s.tx)
    io_exchange_with_code ins_ret_success (tx % 2 ^ 16)

  unfoldable pub io_async_exchange_error : Exec (Device Sha) (Unit {0})
  unfolding io_exchange_with_code
  io_async_exchange_error = io_exchange_with_code 0x6b0 0
