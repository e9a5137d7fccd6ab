-- ===== src/Txn/Scan.antt =====
-- One call of `txn_next_elem` on one stream of bytes, with no packets: what the device refines.
use ledger_nano.Base.{
  ℕ, zero, suc, ◌+◌, ◌<◌, ◌≡◌, refl, sym, ◌∙◌, inl, inr, List, arith, ltb, ltb→le, ◌==◌,
  if◌then◌else◌, length, take, drop, length-drop, Bool-cases,
}
use ledger_nano.Sdk.{Sdk}
use ledger_nano.Device.{
  TxnState, txn_start_in, txn_in, txn_start_out, txn_out, txn_compute_sigs, txn_partial,
  txn_partial_out, txn_approve_out, txn_ready, txn_error,
}
use ledger_nano.Txn.Reader.{Progress, read_in_num, read_input, read_out_num, read_output}

-- The code that the call returns, the progress made, and the bytes not used.
pub record Scanned (Sha : Type 0) : Type 0 where
  pub code : ℕ
  pub reached : Progress Sha
  pub rest : List ℕ

module _ (sdk : Sdk) where
  open sdk use {Sha256}

  abbrev pub scanned : ℕ → Progress Sha256 → List ℕ → Scanned Sha256
  scanned e p xs = record { code = e; reached = p; rest = xs }

  -- The outputs end the call one by one: the user has to approve each.
  abbrev pub scan_output : Progress Sha256 → List ℕ → Scanned Sha256
  scan_output p xs =
      let rest = drop 37 xs in
      if p.curr_obj == p.txn.out_num
      then scanned txn_ready (record p { txn_state = txn_compute_sigs; curr_obj = 0 }) xs
      else if ltb (length xs) 37
      then scanned txn_partial p xs
      else scanned (if ltb (length rest) 37 then txn_partial_out else txn_approve_out)
          (read_output sdk p (take 37 xs)) rest

  -- An element of `n` bytes, and what follows it.
  abbrev pub scan_elem :
      ℕ → Progress Sha256 → List ℕ → (List ℕ → List ℕ → Scanned Sha256) → Scanned Sha256
  scan_elem n p xs next =
      if ltb (length xs) n then scanned txn_partial p xs else next (take n xs) (drop n xs)

  abbrev pub scan_at :
      TxnState
      → Progress Sha256
      → List ℕ
      → (Progress Sha256 → List ℕ → Scanned Sha256)
      → Scanned Sha256
  scan_at txn_start_in p xs next = scan_elem 4 p xs (λ e. next (read_in_num sdk p e))
  scan_at txn_in p xs next = scan_elem 36 p xs (λ e. next (read_input sdk p e))
  scan_at txn_start_out p xs next = scan_elem 4 p xs (λ e. next (read_out_num sdk p e))
  scan_at txn_out p xs next = scan_output p xs
  scan_at other p xs next = scanned txn_error p xs

  -- Each element takes four bytes at least, so more rounds than bytes are enough.
  unfoldable pub scan_loop : ℕ → Progress Sha256 → List ℕ → Scanned Sha256
  scan_loop zero p xs = scanned txn_error p xs
  scan_loop (suc fuel) p xs = scan_at p.txn_state p xs (scan_loop fuel)

  unfoldable pub scan : Progress Sha256 → List ℕ → Scanned Sha256
  scan p xs = scan_loop (length xs + 1) p xs

  pub scan_loop-suc :
      (fuel : ℕ) (p : Progress Sha256) (xs : List ℕ)
      → scan_loop (suc fuel) p xs ≡ scan_at p.txn_state p xs (scan_loop fuel)
  unfolding scan_loop
  scan_loop-suc fuel p xs = refl

  -- The rounds do not matter, beyond the number of bytes.
  pub scan_fuel :
      (f g : ℕ) (p : Progress Sha256) (xs : List ℕ)
      → length xs < f
      → length xs < g
      → scan_loop f p xs ≡ scan_loop g p xs
  scan_fuel zero g p xs hf hg = absurd (omega arith)
  scan_fuel (suc f) zero p xs hf hg = absurd (omega arith)
  scan_fuel (suc f) (suc g) p xs hf hg =
      scan_loop-suc f p xs
      ∙ at p.txn_state (λ q ys h. scan_fuel f g q ys (omega arith) (omega arith))
      ∙ sym (scan_loop-suc g p xs)
    where
      more :
          (n : ℕ)
          → 0 < n
          → (next : List ℕ → Progress Sha256)
          → ((q : Progress Sha256) (ys : List ℕ)
              → length ys < length xs
              → scan_loop f q ys ≡ scan_loop g q ys)
          → scan_elem n p xs (λ e. scan_loop f (next e))
            ≡ scan_elem n p xs (λ e. scan_loop g (next e))
      more n pos next ih = elim (Bool-cases (ltb (length xs) n)) [
        | inl short ↦ rw short
        | inr long ↦ rw long (
            ih (next (take n xs)) (drop n xs)
              (omega (arith, ltb→le (length xs) n long, length-drop n xs)))
      ]

      at :
          (st : TxnState)
          → ((q : Progress Sha256) (ys : List ℕ)
              → length ys < length xs
              → scan_loop f q ys ≡ scan_loop g q ys)
          → scan_at st p xs (scan_loop f) ≡ scan_at st p xs (scan_loop g)
      at txn_start_in ih = more 4 (omega arith) (read_in_num sdk p) ih
      at txn_in ih = more 36 (omega arith) (read_input sdk p) ih
      at txn_start_out ih = more 4 (omega arith) (read_out_num sdk p) ih
      at txn_out ih = refl
      at other ih = refl
