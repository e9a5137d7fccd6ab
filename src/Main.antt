-- ===== src/Main.antt =====
-- `lookupHandler` of src/apdu_handlers.c and the loop of `sky_main` in src/main.c.
pub mod Replies
pub mod Keys
pub mod Accounts
pub mod Signatures
pub mod Batches
pub mod Delivered
pub mod Complete
pub mod Cancel
pub mod Approved
mod Tests
use ledger_nano.Base.{
  ℕ, zero, suc, ◌+◌, ◌/◌, ◌%◌, ◌^◌, List, [], ◌∷◌, ◌++◌, Bool, true, false, Option, none, some, ltb,
  ◌==◌, ◌||◌, if◌then◌else◌, length, get_elem?, read_bytes, write_bytes,
}
use ledger_nano.Base.Exec.{
  Outcome, ok, throw, fault, stuck, Exec, raise, gets, defined, modify, ◌>>=◌, ◌>>◌,
}
use ledger_nano.Sdk.{Sdk}
use ledger_nano.Device.{Device}
use ledger_nano.Apdu.Exchange.{io_exchange}
use ledger_nano.Apdu.Keys.{
  handle_get_version, handle_get_public_key, handle_get_signed_public_key, handle_get_address,
}
use ledger_nano.Apdu.SignTxn.{handle_sign_txn, set_initialized}
use ledger_nano.Ui.Screens.{ui_idle}

abbrev pub cla : ℕ
cla = 0x80

-- The offsets of the parts of a packet.
abbrev pub offset_ins : ℕ
offset_ins = 1

abbrev pub offset_p1 : ℕ
offset_p1 = 2

abbrev pub offset_lc : ℕ
offset_lc = 4

abbrev pub offset_cdata : ℕ
offset_cdata = 5

-- "No address generated yet".
abbrev pub no_address : List ℕ
no_address =
    b'N' ∷ b'o' ∷ b' ' ∷ b'a' ∷ b'd' ∷ b'd' ∷ b'r' ∷ b'e' ∷ b's' ∷ b's' ∷ b' ' ∷ b'g' ∷ b'e' ∷ b'n'
    ∷ b'e' ∷ b'r' ∷ b'a' ∷ b't' ∷ b'e' ∷ b'd' ∷ b' ' ∷ b'y' ∷ b'e' ∷ b't' ∷ 0 ∷ []

pub data Handler : Type 0 where
  get_version : Handler
  get_public_key : Handler
  get_signed_public_key : Handler
  get_address : Handler
  sign_txn : Handler

-- `none` is NULL.
unfoldable pub lookup_handler : ℕ → Option Handler
lookup_handler ins =
    if ins == 0x01
    then some get_version
    else if ins == 0x04
    then some get_public_key
    else if ins == 0x08
    then some get_signed_public_key
    else if ins == 0x02
    then some get_address
    else if ins == 0x10
    then some sign_txn
    else none

-- The status word that `CATCH_OTHER` makes of an exception: `switch (e & 0xF000)`.
unfoldable pub status_word : ℕ → ℕ
status_word e =
    let class = e % 2 ^ 16 / 2 ^ 12 in
    if class == 6 || class == 9 then e % 2 ^ 16 else 0x6800 + e % 2 ^ 11

module _ (sdk : Sdk) where
  open sdk use {Sha256}

  -- Before the loop: the address of the screen, and no transaction.
  unfoldable pub initialize : Exec (Device Sha256) (Unit {0})
  unfolding set_initialized
  initialize = do
    old ← gets (λ s. s.address)
    address ← defined (write_bytes old 0 no_address)
    modify (λ s. record s { address = address })
    set_initialized false

  -- `main`, from `ui_idle` to the loop.
  unfoldable pub boot : Exec (Device Sha256) (Unit {0})
  unfolding ui_idle initialize
  boot = do ui_idle; initialize

  unfoldable pub run_handler : Handler → ℕ → ℕ → Exec (Device Sha256) (Unit {0})
  run_handler get_version p1 lc = handle_get_version
  run_handler get_public_key p1 lc = handle_get_public_key sdk offset_cdata
  run_handler get_signed_public_key p1 lc = handle_get_signed_public_key sdk offset_cdata
  run_handler get_address p1 lc = handle_get_address sdk offset_cdata
  run_handler sign_txn p1 lc = handle_sign_txn sdk p1 offset_cdata lc

  abbrev pub run_found : Option Handler → ℕ → ℕ → Exec (Device Sha256) (Unit {0})
  run_found none p1 lc = raise 0x6d00
  run_found (some h) p1 lc = run_handler h p1 lc

  -- The body of `TRY` behind `io_exchange`, which returned `rx` bytes in the buffer.
  unfoldable pub dispatch : ℕ → Exec (Device Sha256) (Unit {0})
  unfolding lookup_handler run_handler
  dispatch rx = do
    modify (λ s. record s { asynch_reply = false })
    apdu ← gets (λ s. s.apdu_buffer)
    first ← defined (get_elem? apdu 0)
    ins ← defined (get_elem? apdu offset_ins)
    p1 ← defined (get_elem? apdu offset_p1)
    lc ← defined (get_elem? apdu offset_lc)
    if rx == 0
        then raise 0x6982
        else if first == cla
        then run_found (lookup_handler ins) p1 lc
        else raise 0x6e00

  -- `CATCH_OTHER(e)`: the status word goes behind the reply.
  unfoldable pub report : ℕ → Exec (Device Sha256) (Unit {0})
  unfolding status_word
  report e = do
    apdu ← gets (λ s. s.apdu_buffer)
    tx ← gets (λ s. s.tx)
    let sw = status_word e
    apdu' ← defined (write_bytes apdu tx (sw / 2 ^ 8 ∷ sw % 256 ∷ []))
    modify (λ s. record s { apdu_buffer = apdu'; tx = tx + 2 })

  abbrev pub caught : Outcome (Device Sha256) (Unit {0}) → Outcome (Device Sha256) (Unit {0})
  caught (ok u s) = ok u s
  caught (throw e s) = report e s
  caught fault = fault
  caught stuck = stuck

  -- `io_exchange(CHANNEL_APDU | flags, rx)` at the head of the next round: the reply goes out,
  -- unless the handler replies by itself.
  unfoldable pub flush : Exec (Device Sha256) (Unit {0})
  flush = do
    tx ← gets (λ s. s.tx)
    asynch ← gets (λ s. s.asynch_reply)
    modify (λ s. record s { tx = 0 })
    if asynch || tx == 0 then modify (λ s. s) else io_exchange tx

  -- One round of the loop, from the arrival of a packet until the next `io_exchange` waits.
  unfoldable pub main_round : List ℕ → Exec (Device Sha256) (Unit {0})
  unfolding dispatch report flush
  main_round packet = do
    apdu ← gets (λ s. s.apdu_buffer)
    apdu' ← defined (write_bytes apdu 0 packet)
    modify (λ s. record s { apdu_buffer = apdu'; tx = 0 })
    (λ s. caught (dispatch (length packet) s))
    flush
