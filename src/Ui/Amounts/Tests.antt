-- ===== src/Ui/Amounts/Tests.antt =====
-- The text of an amount, at 3.03 SKY.
use ledger_nano.Base.{◌≡◌, arith}
use ledger_nano.Ui.Format.{amount_display}
use ledger_nano.Ui.Amounts.{read_amount, amount_display-read}

amount_display-read_example : read_amount 0 (amount_display 3_030_000) ≡ 3_030_000
amount_display-read_example = amount_display-read 3_030_000 (omega arith)
