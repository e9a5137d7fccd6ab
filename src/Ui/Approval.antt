-- ===== src/Ui/Approval.antt =====
-- `prepare_output_approval` of src/ui/newTransaction.c: the texts of the approval screen.
use ledger_nano.Base.{◌+◌, [], ◌∷◌, ◌++◌, replicate, read_bytes, write_bytes}
use ledger_nano.Base.Exec.{Exec, gets, defined, modify, ◌>>=◌}
use ledger_nano.Sdk.{Sdk}
use ledger_nano.Device.{Device}
use ledger_nano.Crypto.Address.{address_to_base58, strlen}
use ledger_nano.Ui.Format.{screen_max_chars, output_display, amount_display}

module _ (sdk : Sdk) where
  -- The local array `address` starts with unknown bytes; none of them is copied out.
  unfoldable pub prepare_output_approval : Exec (Device sdk.Sha256) (Unit {0})
  prepare_output_approval = do
    c ← gets (λ s. s.ctx)
    display ← defined (
        write_bytes (replicate screen_max_chars 0) 0
          (output_display c.curr_obj c.txn.out_num ++ 0 ∷ []))
    address ← defined (address_to_base58 sdk c.txn.cur_output.address (replicate 36 0))
    length ← defined (strlen address)
    text ← defined (read_bytes address 0 (length + 1))
    old_address ← gets (λ s. s.out_address)
    out_address ← defined (write_bytes old_address 0 text)
    old_amount ← gets (λ s. s.amount)
    amount ← defined (write_bytes old_amount 0 (amount_display c.txn.cur_output.coin_num ++ 0 ∷ []))
    modify (λ s. record s {
      current_output_display = display;
      out_address = out_address;
      amount = amount;
    })
