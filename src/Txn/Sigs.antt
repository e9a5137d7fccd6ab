-- ===== src/Txn/Sigs.antt =====
-- `__txn_next_elem` of src/skycoin-api/txn.c: the cases that compute the signatures and return
-- them.
use ledger_nano.Base.{
  ℕ, zero, suc, ◌+◌, false, ltb, ◌==◌, if◌then◌else◌, get_elem?, set, read_bytes, write_bytes,
  u4le_at,
}
use ledger_nano.Base.Exec.{stuck, Exec, pure, raise, gets, defined, modify, ◌>>=◌, ◌>>◌}
use ledger_nano.Sdk.{Sdk}
use ledger_nano.Device.{Device, txn_ret_sigs, txn_partial, txn_finished, put_ctx}
use ledger_nano.Crypto.Address.{derive_keypair}
use ledger_nano.Crypto.Signature.{sign}
use ledger_nano.Txn.Buffer.{sig_len, next_obj}

module _ (sdk : Sdk) where
  open sdk use {Sha256, sha256_init, hash_more, hash_last}

  -- One round of the loop of `case TXN_COMPUTE_SIGS`.
  unfoldable pub sign_input : ℕ → Exec (Device Sha256) (Unit {0})
  sign_input i = do
    c ← gets (λ s. s.ctx)
    path ← gets (λ s. s.bip44_path)
    cell ← defined (get_elem? c.txn.sig_input i)
    input ← defined (read_bytes cell 0 32)
    index ← defined (read_bytes cell 32 4)
    let sig_hash = (hash_last (hash_more sha256_init c.txn.inner_hash) input).1
    let path' = set path 4 (u4le_at index 0)
    signature ← defined (sign sdk (derive_keypair sdk path').0 sig_hash)
    cell' ← defined (write_bytes cell 0 signature)
    modify (λ s. record s { bip44_path = path' })
    put_ctx (record c {
      txn = record c.txn { sig_input = set c.txn.sig_input i cell' };
      curr_obj = next_obj c.curr_obj;
    })

  -- The loop, with its rounds left and its index.
  unfoldable pub sign_loop : ℕ → ℕ → Exec (Device Sha256) (Unit {0})
  sign_loop zero i = pure tt
  sign_loop (suc left) i = do sign_input i; sign_loop left (i + 1)

  -- The `while` of `case TXN_RET_SIGS`, on fuel.
  unfoldable pub ret_loop : ℕ → Exec (Device Sha256) (Unit {0})
  ret_loop zero = λ s. stuck
  ret_loop (suc fuel) = do
    c ← gets (λ s. s.ctx)
    tx ← gets (λ s. s.tx)
    let more = ret_loop fuel
    if c.curr_obj == c.txn.in_num
        then pure tt
        else if ltb 255 (tx + sig_len)
        then raise txn_partial
        else do
          apdu ← gets (λ s. s.apdu_buffer)
          signature ← defined (get_elem? c.txn.sig_input c.curr_obj)
          apdu' ← defined (write_bytes apdu tx signature)
          modify (λ s. record s {
            apdu_buffer = apdu';
            tx = tx + sig_len;
            ctx = record c { curr_obj = next_obj c.curr_obj };
          })
          more

  -- `case TXN_RET_SIGS`. Every round adds 65 to `tx`, so four rounds at most pass the test.
  unfoldable pub elem_ret_sigs : Exec (Device Sha256) (Unit {0})
  elem_ret_sigs = do
    ret_loop 5
    c ← gets (λ s. s.ctx)
    put_ctx (record c { initialized = false })
    raise txn_finished

  -- `case TXN_COMPUTE_SIGS`, which falls through.
  unfoldable pub elem_compute_sigs : Exec (Device Sha256) (Unit {0})
  elem_compute_sigs = do
    c ← gets (λ s. s.ctx)
    old_path ← gets (λ s. s.bip44_path)
    old_bip44 ← defined (get_elem? old_path 4)
    sign_loop c.txn.in_num 0
    modify (λ s. record s { bip44_path = set s.bip44_path 4 old_bip44 })
    d ← gets (λ s. s.ctx)
    put_ctx (record d { curr_obj = 0; txn_state = txn_ret_sigs })
    elem_ret_sigs
