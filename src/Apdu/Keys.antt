-- ===== src/Apdu/Keys.antt =====
-- The handlers of src/apdu_handlers.c that answer in one packet: the version, the public key, the
-- signed public key and the address. `data_buffer` is an index in `G_io_apdu_buffer`; `p1`, `p2`
-- and `dataLength`, which these handlers do not read, are left out.
use ledger_nano.Base.{ℕ, ◌+◌, ◌-◌, List, [], ◌∷◌, drop, get_elem?, read_bytes, write_bytes}
use ledger_nano.Base.Exec.{
  Outcome, ok, throw, fault, stuck, Exec, raise, gets, defined, modify, ◌>>=◌, ◌>>◌,
}
use ledger_nano.Sdk.{Sdk}
use ledger_nano.Device.{Device}
use ledger_nano.Crypto.Bip44.{get_bip44_path}
use ledger_nano.Crypto.Signature.{sign}
use ledger_nano.Crypto.Address.{
  derive_keypair, compress_public_key, generate_address, strlen, sha256_of,
}
use ledger_nano.Apdu.Exchange.{ins_ret_success}

abbrev pub pk_len : ℕ
pk_len = 65

-- APPVERSION of the Makefile, "1.0.0".
abbrev pub app_version : List ℕ
app_version = b'1' ∷ b'.' ∷ b'0' ∷ b'.' ∷ b'0' ∷ 0 ∷ []

module _ {Sha : Type 0} where
  abbrev pub with_path : Device Sha → Outcome (List ℕ) (Unit {0}) → Outcome (Device Sha) (Unit {0})
  with_path s (ok u path) = ok u (record s { bip44_path = path })
  with_path s (throw e path) = throw e (record s { bip44_path = path })
  with_path s fault = fault
  with_path s stuck = stuck

  -- `get_bip44_path(dataBuffer)`, on `global.getPublicKeyContext.bip44_path`.
  unfoldable pub read_path : ℕ → Exec (Device Sha) (Unit {0})
  read_path data_buffer s =
      with_path s (get_bip44_path (drop data_buffer s.apdu_buffer) s.bip44_path)

  -- `os_memmove(G_io_apdu_buffer, bytes, n); *tx += n; THROW(INS_RET_SUCCESS)`.
  unfoldable pub answer : List ℕ → ℕ → Exec (Device Sha) (Unit {0})
  answer bytes n = do
    apdu ← gets (λ s. s.apdu_buffer)
    part ← defined (read_bytes bytes 0 n)
    apdu' ← defined (write_bytes apdu 0 part)
    modify (λ s. record s { apdu_buffer = apdu'; tx = s.tx + n })
    raise ins_ret_success

  unfoldable pub handle_get_version : Exec (Device Sha) (Unit {0})
  unfolding answer
  handle_get_version = do
    major ← defined (get_elem? app_version 0)
    minor ← defined (get_elem? app_version 2)
    patch ← defined (get_elem? app_version 4)
    answer ((major - b'0') ∷ (minor - b'0') ∷ (patch - b'0') ∷ []) 3

module _ (sdk : Sdk) where
  open sdk use {Sha256}

  unfoldable pub handle_get_public_key : ℕ → Exec (Device Sha256) (Unit {0})
  unfolding answer read_path
  handle_get_public_key data_buffer = do
    read_path data_buffer
    path ← gets (λ s. s.bip44_path)
    answer (derive_keypair sdk path).1 pk_len

  unfoldable pub handle_get_signed_public_key : ℕ → Exec (Device Sha256) (Unit {0})
  unfolding answer read_path
  handle_get_signed_public_key data_buffer = do
    read_path data_buffer
    path ← gets (λ s. s.bip44_path)
    let (private_key, point) = derive_keypair sdk path
    public_key_compressed ← defined (compress_public_key point)
    whole ← defined (read_bytes point 0 pk_len)
    signature ← defined (sign sdk private_key (sha256_of sdk whole))
    answer signature 65

  unfoldable pub handle_get_address : ℕ → Exec (Device Sha256) (Unit {0})
  unfolding answer read_path
  handle_get_address data_buffer = do
    read_path data_buffer
    path ← gets (λ s. s.bip44_path)
    old ← gets (λ s. s.address)
    address ← defined (generate_address sdk (derive_keypair sdk path).1 old)
    modify (λ s. record s { address = address })
    length ← defined (strlen address)
    answer address length
