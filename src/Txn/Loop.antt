-- ===== src/Txn/Loop.antt =====
-- `__txn_next_elem` and `txn_next_elem` of src/skycoin-api/txn.c.
use ledger_nano.Base.{ℕ, zero, suc, ◌+◌}
use ledger_nano.Base.Exec.{ok, throw, fault, stuck, Exec, gets, ◌>>=◌}
use ledger_nano.Sdk.{Sdk}
use ledger_nano.Device.{
  Device, TxnState, txn_start_in, txn_in, txn_start_out, txn_out, txn_compute_sigs, txn_ret_sigs,
}
use ledger_nano.Txn.Elements.{elem_start_in, elem_in, elem_start_out, elem_out}
use ledger_nano.Txn.Sigs.{elem_compute_sigs, elem_ret_sigs}

module _ (sdk : Sdk) where
  open sdk use {Sha256}

  -- `__txn_next_elem`.
  unfoldable pub elem : TxnState → Exec (Device Sha256) (Unit {0})
  elem txn_start_in = elem_start_in sdk
  elem txn_in = elem_in sdk
  elem txn_start_out = elem_start_out sdk
  elem txn_out = elem_out sdk
  elem txn_compute_sigs = elem_compute_sigs sdk
  elem txn_ret_sigs = elem_ret_sigs sdk

  unfoldable pub next_elem : Exec (Device Sha256) (Unit {0})
  next_elem = do c ← gets (λ s. s.ctx); elem c.txn_state

  -- `for (;;)` inside `TRY`: it ends when an element throws, and the exception is the result.
  unfoldable pub txn_loop : ℕ → Exec (Device Sha256) ℕ
  txn_loop zero s = stuck
  txn_loop (suc fuel) s = elim (next_elem s) [
    | ok _ s' ↦ txn_loop fuel s'
    | throw e s' ↦ ok e s'
    | fault ↦ fault
    | stuck ↦ stuck
  ]

  -- A round that does not throw takes a byte of the packet, so these rounds are enough.
  unfoldable pub txn_next_elem : Exec (Device Sha256) ℕ
  txn_next_elem = do c ← gets (λ s. s.ctx); txn_loop (c.data_length + 1)
