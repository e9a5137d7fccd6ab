-- ===== src/Main/Replies.antt =====
-- What the loop of src/main.c sends back, for the packets that it answers by itself.
use ledger_nano.Base.{
  ℕ, ◌+◌, ◌/◌, ◌%◌, ◌^◌, ◌≤◌, ◌≡◌, ap, ◌⊎◌, List, [], ◌∷◌, ◌++◌, false, Option, none, some, length,
  take, drop, write_bytes_in, read_bytes_in, arith, ne→==, length-patch, length-take,
  take-append_more,
}
use ledger_nano.Base.Exec.{Outcome, ok, throw, fault, stuck, ◌>>=◌}
use ledger_nano.Sdk.{Sdk}
use ledger_nano.Device.{Device}
use ledger_nano.Apdu.Exchange.{io_exchange, io_exchange_with_code, io_async_exchange_error}
use ledger_nano.Main.{status_word, report, flush}

-- Whatever number is thrown, the status word has the class 6 or 9.
pub status_word-class : (e : ℕ) → (status_word e / 2 ^ 12 ≡ 6) ⊎ (status_word e / 2 ^ 12 ≡ 9)
unfolding status_word
status_word-class e = ground arith

-- What the host has been sent when the call returns; `none` if it does not return.
abbrev pub messages : {Sha A : Type 0} → Outcome (Device Sha) A → Option (List (List ℕ))
messages (ok a s) = some s.sent
messages (throw e s) = none
messages fault = none
messages stuck = none

-- `io_exchange_with_code` sends the first `tx` bytes of the buffer and the two bytes of the code.
io_exchange_with_code-messages :
    {Sha : Type 0} (s : Device Sha) (code tx : ℕ)
    → tx + 2 ≤ length s.apdu_buffer
    → messages (io_exchange_with_code code tx s)
      ≡ some (s.sent ++ (take tx s.apdu_buffer ++ (code / 2 ^ 8 ∷ code % 256 ∷ [])) ∷ [])
unfolding io_exchange_with_code io_exchange
io_exchange_with_code-messages s code tx h =
    let bytes : List ℕ = code / 2 ^ 8 ∷ code % 256 ∷ [] in
    let whole = take tx s.apdu_buffer ++ (bytes ++ drop (tx + 2) s.apdu_buffer) in
    rw
      (
        ◌>>=◌,
        write_bytes_in s.apdu_buffer tx bytes h,
        read_bytes_in whole 0 (tx + 2) (omega (arith, length-patch s.apdu_buffer tx bytes h)),
      )
      (ap (λ t. some (s.sent ++ t ∷ []))
        (take-append_more (tx + 2) 2 (take tx s.apdu_buffer) (bytes ++ drop (tx + 2) s.apdu_buffer)
          (omega (arith, length-take tx s.apdu_buffer))))

-- If the APDU buffer has two bytes, io_async_exchange_error returns, and has sent the two bytes 06
-- B0 alone, whatever length the reply had.
pub io_async_exchange_error-messages :
    {Sha : Type 0} (s : Device Sha)
    → 2 ≤ length s.apdu_buffer
    → messages (io_async_exchange_error s) ≡ some (s.sent ++ (0x06 ∷ 0xb0 ∷ []) ∷ [])
unfolding io_async_exchange_error
io_async_exchange_error-messages s h = io_exchange_with_code-messages s 0x6b0 0 h

-- An exception is reported behind what the reply holds already.
module _ (sdk : Sdk) where
  pub report-flush :
      (s : Device sdk.Sha256) (e : ℕ)
      → s.asynch_reply ≡ false
      → s.tx + 2 ≤ length s.apdu_buffer
      → messages ((report sdk e >>= λ _. flush sdk) s)
        ≡ some (
            s.sent
            ++ (take s.tx s.apdu_buffer ++ (status_word e / 2 ^ 8 ∷ status_word e % 256 ∷ [])) ∷ [])
  unfolding report flush io_exchange
  report-flush s e waits h =
      let bytes : List ℕ = status_word e / 2 ^ 8 ∷ status_word e % 256 ∷ [] in
      let whole = take s.tx s.apdu_buffer ++ (bytes ++ drop (s.tx + 2) s.apdu_buffer) in
      rw
        (
          ◌>>=◌,
          write_bytes_in s.apdu_buffer s.tx bytes h,
          waits,
          ne→== (s.tx + 2) 0 (omega arith),
          read_bytes_in whole 0 (s.tx + 2) (omega (arith, length-patch s.apdu_buffer s.tx bytes h)),
        )
        (ap (λ t. some (s.sent ++ t ∷ []))
          (take-append_more (s.tx + 2) 2 (take s.tx s.apdu_buffer)
            (bytes ++ drop (s.tx + 2) s.apdu_buffer)
            (omega (arith, length-take s.tx s.apdu_buffer))))
