-- ===== src/Txn/Returned.antt =====
-- The cases of `__txn_next_elem` (src/skycoin-api/txn.c) that sign and return the signatures.
use ledger_nano.Base.{
  ℕ, zero, suc, ◌+◌, ◌*◌, ◌<◌, inl, inr, Option, none, some, arith, ltb, ltb→le, ◌==◌, get_elem?,
  write_bytes, read_bytes, Bool-cases,
}
use ledger_nano.Base.Exec.{Exec, defined, bind, Outcome, ok, throw, fault, stuck, ◌>>=◌}
use ledger_nano.Sdk.{Sdk}
use ledger_nano.Device.{Device}
use ledger_nano.Crypto.Signature.{sign}
use ledger_nano.Txn.Sigs.{ret_loop, elem_ret_sigs, sign_input, sign_loop, elem_compute_sigs}

-- The outcome is a C behaviour: the fuel did not run out.
abbrev pub Ends : {S A : Type 0} → Outcome S A → Type 0
Ends (ok a s) = Unit
Ends (throw e s) = Unit
Ends fault = Unit
Ends stuck = ⊥

module _ {S A B : Type 0} where
  defined-Ends :
      (x : Option A) (k : A → Exec S B) (s : S)
      → ((a : A) → Ends (k a s))
      → Ends ((defined x >>= k) s)
  defined-Ends none k s h = tt
  defined-Ends (some a) k s h = h a

  bind-Ends :
      (o : Outcome S A) (f : A → Exec S B)
      → Ends o
      → ((a : A) (t : S) → Ends (f a t))
      → Ends (bind o f)
  bind-Ends (ok a t) f h next = next a t
  bind-Ends (throw e t) f h next = tt
  bind-Ends fault f h next = tt
  bind-Ends stuck f h next = h

module _ (sdk : Sdk) where
  ret_loop-Ends :
      (fuel : ℕ) (s : Device sdk.Sha256)
      → 255 < s.tx + 65 * fuel
      → 0 < fuel
      → Ends (ret_loop sdk fuel s)
  unfolding ret_loop
  ret_loop-Ends zero s room pos = absurd (omega arith)
  ret_loop-Ends (suc fuel) s room pos = elim (Bool-cases (s.ctx.curr_obj == s.ctx.txn.in_num)) [
    | inl all ↦ rw (◌>>=◌, all) tt
    | inr more ↦ elim (Bool-cases (ltb 255 (s.tx + 65))) [
      | inl full ↦ rw (◌>>=◌, more, full) tt
      | inr fits ↦
          rw (◌>>=◌, more, fits)
            (defined-Ends (get_elem? s.ctx.txn.sig_input s.ctx.curr_obj) _ s (λ signature.
              defined-Ends (write_bytes s.apdu_buffer s.tx signature) _ s (λ apdu.
                ret_loop-Ends fuel _ (omega arith) (omega (arith, ltb→le 255 (s.tx + 65) fits)))))
    ]
  ]

  -- Whatever the state, the case TXN_RET_SIGS ends: five rounds are enough for its loop.
  pub elem_ret_sigs-Ends : (s : Device sdk.Sha256) → Ends (elem_ret_sigs sdk s)
  unfolding elem_ret_sigs
  elem_ret_sigs-Ends s =
      bind-Ends (ret_loop sdk 5 s) _ (ret_loop-Ends 5 s (omega arith) (omega arith)) (λ _ t. tt)

  sign_input-Ends : (i : ℕ) (s : Device sdk.Sha256) → Ends (sign_input sdk i s)
  unfolding sign_input
  sign_input-Ends i s =
      (defined-Ends (get_elem? s.ctx.txn.sig_input i) _ s (λ cell.
        defined-Ends (read_bytes cell 0 32) _ s (λ input.
          defined-Ends (read_bytes cell 32 4) _ s (λ index.
            defined-Ends (sign sdk _ _) _ s
              (λ signature. defined-Ends (write_bytes cell 0 signature) _ s (λ _. tt))))))

  sign_loop-Ends : (left i : ℕ) (s : Device sdk.Sha256) → Ends (sign_loop sdk left i s)
  unfolding sign_loop
  sign_loop-Ends zero i s = tt
  sign_loop-Ends (suc left) i s =
      (bind-Ends (sign_input sdk i s) _ (sign_input-Ends i s)
        (λ _ t. sign_loop-Ends left (i + 1) t))

  -- Whatever the state, the case TXN_COMPUTE_SIGS, which falls through to TXN_RET_SIGS, ends: the
  -- fuel of its loops is enough.
  pub elem_compute_sigs-Ends : (s : Device sdk.Sha256) → Ends (elem_compute_sigs sdk s)
  unfolding elem_compute_sigs
  elem_compute_sigs-Ends s =
      (defined-Ends (get_elem? s.bip44_path 4) _ s (λ old.
        bind-Ends (sign_loop sdk s.ctx.txn.in_num 0 s) _ (sign_loop-Ends s.ctx.txn.in_num 0 s)
          (λ _ t. elem_ret_sigs-Ends _)))
