-- ===== src/Txn/Extends.antt =====
-- What a call on some bytes says of the call on these bytes and more.
use mathlib.Core.Path.{ap₂, subst}
use ledger_nano.Base.{
  ◌⊎◌, le→ltb, if◌then◌else◌, ℕ, zero, suc, ◌+◌, ◌≤◌, ◌<◌, ◌≡◌, refl, sym, ap, ◌∙◌, inl, inr, List,
  [], ◌∷◌, ◌++◌, arith, ltb, ltb→le, le→ltb, ◌==◌, length, take, drop, length-append, length-drop,
  Bool-cases,
}
use ledger_nano.Sdk.{Sdk}
use ledger_nano.Device.{
  txn_partial_out, txn_approve_out, txn_ready, txn_error, TxnState, txn_start_in, txn_in,
  txn_start_out, txn_out, txn_compute_sigs, txn_ret_sigs, txn_partial,
}
use ledger_nano.Txn.Reader.{Progress, read_in_num, read_input, read_out_num}
use ledger_nano.Txn.Scan.{
  scanned, scan_output, Scanned, scan_elem, scan_at, scan_loop, scan_loop-suc, scan, scan_fuel,
}

module _ {A : Type 0} where
  pub take-append_front : (n : ℕ) (xs ys : List A) → n ≤ length xs → take n (xs ++ ys) ≡ take n xs
  take-append_front zero xs ys h = refl
  take-append_front (suc n) [] ys h = absurd (omega arith)
  take-append_front (suc n) (x ∷ xs) ys h =
      ap (λ t. x ∷ t) (take-append_front n xs ys (omega arith))

  drop-append_front : (n : ℕ) (xs ys : List A) → n ≤ length xs → drop n (xs ++ ys) ≡ drop n xs ++ ys
  drop-append_front zero xs ys h = refl
  drop-append_front (suc n) [] ys h = absurd (omega arith)
  drop-append_front (suc n) (x ∷ xs) ys h = drop-append_front n xs ys (omega arith)

module _ (sdk : Sdk) where
  open sdk use {Sha256}

  pub scan-step :
      (p : Progress Sha256) (xs : List ℕ)
      → scan sdk p xs ≡ scan_at sdk p.txn_state p xs (scan_loop sdk (length xs))
  unfolding scan
  scan-step p xs =
      ap (λ (f : ℕ). scan_loop sdk f p xs) (omega arith) ∙ scan_loop-suc sdk (length xs) p xs

  -- An element that is there is read, and the scan goes on behind it.
  pub scan-elem :
      (n : ℕ) (next : List ℕ → Progress Sha256) (p : Progress Sha256) (xs : List ℕ)
      → 0 < n
      → n ≤ length xs
      → scan_elem sdk n p xs (λ e. scan_loop sdk (length xs) (next e))
        ≡ scan sdk (next (take n xs)) (drop n xs)
  unfolding scan
  scan-elem n next p xs pos enough = rw (le→ltb (length xs) n enough) (
      scan_fuel sdk (length xs) (length (drop n xs) + 1) (next (take n xs)) (drop n xs)
        (omega (arith, length-drop n xs)) (omega arith))

  pub at_state :
      (p : Progress Sha256) (xs : List ℕ) (st : TxnState)
      → p.txn_state ≡ st
      → scan sdk p xs ≡ scan_at sdk st p xs (scan_loop sdk (length xs))
  at_state p xs st at = scan-step p xs ∙ ap (λ s. scan_at sdk s p xs (scan_loop sdk (length xs))) at

  -- The codes that end a call at an output.
  abbrev pub IsShown : ℕ → Type 0
  IsShown e = (e ≡ txn_partial_out) ⊎ (e ≡ txn_approve_out)

  -- What a call on `xs` says of the call on `xs ++ ys`.
  pub data Extends (ys : List ℕ) (first whole : Scanned Sha256) : Type 0 where
    asks :
        first.code ≡ txn_partial
        → whole ≡ scan sdk first.reached (first.rest ++ ys)
        → Extends ys first whole
    shows :
        IsShown first.code
        → IsShown whole.code
        → whole.reached ≡ first.reached
        → whole.rest ≡ first.rest ++ ys
        → Extends ys first whole
    ends :
        first.code ≡ txn_ready
        → whole ≡ scanned sdk txn_ready first.reached (first.rest ++ ys)
        → Extends ys first whole
    fails : first.code ≡ txn_error → Extends ys first whole

  extend_elem :
      (n f : ℕ) (next : List ℕ → Progress Sha256) (ys : List ℕ) (p : Progress Sha256) (xs : List ℕ)
      → 0 < n
      → (scan sdk p (xs ++ ys)
          ≡ scan_elem sdk n p (xs ++ ys) (λ e. scan_loop sdk (length (xs ++ ys)) (next e)))
      → ((q : Progress Sha256) (zs : List ℕ)
          → length zs < length xs
          → Extends ys (scan_loop sdk f q zs) (scan sdk q (zs ++ ys)))
      → Extends ys (scan_elem sdk n p xs (λ e. scan_loop sdk f (next e))) (scan sdk p (xs ++ ys))
  extend_elem n f next ys p xs pos step ih = elim (Bool-cases (ltb (length xs) n)) [
    | inl short ↦ rw short (Extends.asks refl refl)
    | inr long ↦
        let enough = ltb→le (length xs) n long in
        rw long (
          subst (λ w. Extends ys (scan_loop sdk f (next (take n xs)) (drop n xs)) w)
            (sym (
              step
              ∙ scan-elem n next p (xs ++ ys) pos (omega (arith, length-append xs ys))
              ∙ ap₂ (λ e zs. scan sdk (next e) zs) (take-append_front n xs ys enough)
                  (drop-append_front n xs ys enough)))
            (ih (next (take n xs)) (drop n xs) (omega (arith, length-drop n xs))))
  ]

  -- At an output nothing is read before the code is known.
  extend_output :
      (ys : List ℕ) (p : Progress Sha256) (xs : List ℕ)
      → p.txn_state ≡ txn_out
      → Extends ys (scan_output sdk p xs) (scan sdk p (xs ++ ys))
  extend_output ys p xs at = elim (Bool-cases (p.curr_obj == p.txn.out_num)) [
    | inl all ↦ rw all (Extends.ends refl (step ∙ rw all))
    | inr more ↦ elim (Bool-cases (ltb (length xs) 37)) [
      | inl short ↦ rw (more, short) (Extends.asks refl refl)
      | inr long ↦
          let enough = ltb→le (length xs) 37 long in
          rw (more, long)
            (rw
              (
                step,
                more,
                le→ltb (length (xs ++ ys)) 37 (omega (arith, enough, length-append xs ys)),
                take-append_front 37 xs ys enough,
                drop-append_front 37 xs ys enough,
              )
              (Extends.shows (code_shown (length (drop 37 xs)))
                (code_shown (length (drop 37 xs ++ ys))) refl refl))
    ]
  ]
    where
      step : scan sdk p (xs ++ ys) ≡ scan_output sdk p (xs ++ ys)
      step = at_state p (xs ++ ys) txn_out at

      code_shown : (n : ℕ) → IsShown (if ltb n 37 then txn_partial_out else txn_approve_out)
      code_shown n = elim (Bool-cases (ltb n 37)) [
        | inl few ↦ rw few (inl refl)
        | inr many ↦ rw many (inr refl)
      ]

  extend_at :
      (f : ℕ) (ys : List ℕ) (p : Progress Sha256) (xs : List ℕ) (st : TxnState)
      → p.txn_state ≡ st
      → ((q : Progress Sha256) (zs : List ℕ)
          → length zs < length xs
          → Extends ys (scan_loop sdk f q zs) (scan sdk q (zs ++ ys)))
      → Extends ys (scan_at sdk st p xs (scan_loop sdk f)) (scan sdk p (xs ++ ys))
  extend_at f ys p xs txn_start_in at ih =
      extend_elem 4 f (read_in_num sdk p) ys p xs (omega arith)
        (at_state p (xs ++ ys) txn_start_in at) ih
  extend_at f ys p xs txn_in at ih =
      extend_elem 36 f (read_input sdk p) ys p xs (omega arith) (at_state p (xs ++ ys) txn_in at) ih
  extend_at f ys p xs txn_start_out at ih =
      extend_elem 4 f (read_out_num sdk p) ys p xs (omega arith)
        (at_state p (xs ++ ys) txn_start_out at) ih
  extend_at f ys p xs txn_out at ih = extend_output ys p xs at
  extend_at f ys p xs txn_compute_sigs at ih = Extends.fails refl
  extend_at f ys p xs txn_ret_sigs at ih = Extends.fails refl

  extend_loop :
      (f : ℕ) (ys : List ℕ) (p : Progress Sha256) (xs : List ℕ)
      → length xs < f
      → Extends ys (scan_loop sdk f p xs) (scan sdk p (xs ++ ys))
  extend_loop zero ys p xs h = absurd (omega arith)
  extend_loop (suc f) ys p xs h =
      rw (scan_loop-suc sdk f p xs)
        (extend_at f ys p xs p.txn_state refl (λ q zs lt. extend_loop f ys q zs (omega arith)))

  -- Bytes that come later change nothing of what a call has read.
  pub scan-Extends :
      (p : Progress Sha256) (xs ys : List ℕ) → Extends ys (scan sdk p xs) (scan sdk p (xs ++ ys))
  unfolding scan
  scan-Extends p xs ys = extend_loop (length xs + 1) ys p xs (omega arith)

  pub Extends-asks :
      {ys : List ℕ} {first whole : Scanned Sha256}
      → Extends ys first whole
      → first.code ≡ txn_partial
      → whole ≡ scan sdk first.reached (first.rest ++ ys)
  Extends-asks (Extends.asks _ e) partial = e
  Extends-asks (Extends.shows (inl c) _ _ _) partial = absurd (omega (arith, c, partial))
  Extends-asks (Extends.shows (inr c) _ _ _) partial = absurd (omega (arith, c, partial))
  Extends-asks (Extends.ends c _) partial = absurd (omega (arith, c, partial))
  Extends-asks (Extends.fails c) partial = absurd (omega (arith, c, partial))

  pub Extends-shows :
      {ys : List ℕ} {first whole : Scanned Sha256}
      → Extends ys first whole
      → IsShown first.code
      → (whole.reached ≡ first.reached) × (whole.rest ≡ first.rest ++ ys)
  Extends-shows (Extends.shows _ _ e e') shown = (e, e')
  Extends-shows (Extends.asks c _) shown = absurd (ground (arith, c, shown))
  Extends-shows (Extends.ends c _) shown = absurd (ground (arith, c, shown))
  Extends-shows (Extends.fails c) shown = absurd (ground (arith, c, shown))

  -- A call that asks for more bytes loses nothing: reading on, from where it stopped, with the
  -- bytes left over and the next ones gives what one call on all the bytes gives.
  pub scan-append :
      (p : Progress Sha256) (xs ys : List ℕ)
      → (scan sdk p xs).code ≡ txn_partial
      → scan sdk p (xs ++ ys) ≡ scan sdk (scan sdk p xs).reached ((scan sdk p xs).rest ++ ys)
  scan-append p xs ys partial = Extends-asks (scan-Extends p xs ys) partial
