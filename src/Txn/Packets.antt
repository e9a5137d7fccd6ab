-- ===== src/Txn/Packets.antt =====
-- A transaction cut into packets: reading it packet by packet is reading it at once.
use mathlib.Core.Path.{ap₂, subst}
use ledger_nano.Base.{ℕ, ◌≡◌, sym, ap, ◌∙◌, List, ◌++◌}
use ledger_nano.Sdk.{Sdk}
use ledger_nano.Base.Exec.{ok}
use ledger_nano.Device.{Device, txn_partial}
use ledger_nano.Txn.Loop.{txn_next_elem}
use ledger_nano.Txn.Stream.{stream}
use ledger_nano.Txn.Step.{Refines}
use ledger_nano.Txn.Call.{CanRead, txn_next_elem-scan}
use ledger_nano.Txn.Reader.{progress}
use ledger_nano.Txn.Scan.{scan}
use ledger_nano.Txn.Extends.{scan-append}

module _ (sdk : Sdk) where
  open sdk use {Sha256}

  -- Two calls of txn_next_elem, the first of which returns TXN_PARTIAL, and the second of which
  -- starts with the transaction and the unread bytes that the first left and new bytes behind
  -- them: if both devices can read on, the second call does what one call on all the bytes does.
  pub txn_next_elem-append :
      (s t u : Device Sha256) (ys : List ℕ)
      → CanRead s
      → CanRead u
      → txn_next_elem sdk s ≡ ok txn_partial t
      → progress u ≡ progress t
      → stream u ≡ stream t ++ ys
      → Refines u (scan sdk (progress s) (stream s ++ ys)) (txn_next_elem sdk u)
  txn_next_elem-append s t u ys cs cu first same more =
      subst (λ r. Refines u r (txn_next_elem sdk u)) whole (txn_next_elem-scan sdk u cu)
    where
      r : Refines s (scan sdk (progress s) (stream s)) (txn_next_elem sdk s)
      r = txn_next_elem-scan sdk s cs

      both : ok (scan sdk (progress s) (stream s)).code r.after ≡ ok txn_partial t
      both = sym r.returns ∙ first

      after : r.after ≡ t
      after = cc both

      partial : (scan sdk (progress s) (stream s)).code ≡ txn_partial
      partial = cc both

      reached : progress u ≡ (scan sdk (progress s) (stream s)).reached
      reached = same ∙ ap progress (sym after) ∙ r.reached

      unread : stream u ≡ (scan sdk (progress s) (stream s)).rest ++ ys
      unread = more ∙ ap (λ d. stream d ++ ys) (sym after) ∙ ap (λ xs. xs ++ ys) r.rest

      whole : scan sdk (progress u) (stream u) ≡ scan sdk (progress s) (stream s ++ ys)
      whole =
          ap₂ (λ p xs. scan sdk p xs) reached unread
          ∙ sym (scan-append sdk (progress s) (stream s) ys partial)
