-- ===== src/Txn/Shown.antt =====
-- The reader on the outputs of a transaction: one call for each, and what it shows.
use mathlib.Core.Path.{subst}
use mathlib.Core.List.{append_assoc, append-nil}
use ledger_nano.Base.{
  ℕ, zero, suc, ◌+◌, ◌<◌, ◌≡◌, ◌⊎◌, refl, sym, ap, ◌∙◌, inl, inr, List, [], ◌∷◌, ◌++◌, true, false,
  arith, ◌==◌, ==_iff, ne→==, if◌then◌else◌, ltb, le→ltb, length, All, length-append, take-append,
  drop-append, Bool-cases,
}
use ledger_nano.Sdk.{Sdk, SdkLaws}
use ledger_nano.Device.{txn_out, txn_compute_sigs, txn_partial_out, txn_approve_out, txn_ready}
use ledger_nano.Txn.Buffer.{next_obj}
use ledger_nano.Txn.Reader.{Progress, read_output}
use ledger_nano.Txn.Scan.{Scanned, scan, scanned}
use ledger_nano.Txn.Serial.{
  Output, IsOutput, join, serialized_output, length-serialized_output, output_of-serialized_output,
}
use ledger_nano.Txn.Extends.{at_state}

module _ (sdk : Sdk) where
  -- The call after `k` outputs were returned; each call starts where the one before stopped.
  unfoldable pub nth_scan : ℕ → Progress sdk.Sha256 → List ℕ → Scanned sdk.Sha256
  nth_scan zero p xs = scan sdk p xs
  nth_scan (suc k) p xs = let r = nth_scan k p xs in scan sdk r.reached r.rest

  pub nth_scan-suc :
      (k : ℕ) (p : Progress sdk.Sha256) (xs : List ℕ)
      → nth_scan (suc k) p xs ≡ nth_scan k (scan sdk p xs).reached (scan sdk p xs).rest
  unfolding nth_scan
  nth_scan-suc zero p xs = refl
  nth_scan-suc (suc k) p xs = ap (λ r. scan sdk r.reached r.rest) (nth_scan-suc k p xs)

  pub nth_scan-front :
      (k : ℕ) (p q : Progress sdk.Sha256) (xs ys : List ℕ)
      → scan sdk p xs ≡ scan sdk q ys
      → nth_scan k p xs ≡ nth_scan k q ys
  unfolding nth_scan
  nth_scan-front zero p q xs ys h = h
  nth_scan-front (suc k) p q xs ys h =
      ap (λ r. scan sdk r.reached r.rest) (nth_scan-front k p q xs ys h)

  -- An output at the front is read and returned.
  pub scan-output :
      (p : Progress sdk.Sha256) (e xs : List ℕ)
      → p.txn_state ≡ txn_out
      → (p.curr_obj == p.txn.out_num) ≡ false
      → length e ≡ 37
      → scan sdk p (e ++ xs)
        ≡ scanned sdk
            (if ltb (length xs) 37 then txn_partial_out else txn_approve_out)
            (read_output sdk p e)
            xs
  scan-output p e xs at more size =
      at_state sdk p (e ++ xs) txn_out at
      ∙ rw (
        more,
        le→ltb (length (e ++ xs)) 37 (omega (arith, length-append e xs)),
        take-append 37 e xs (sym size),
        drop-append 37 e xs (sym size),
      )

  -- No output is left.
  pub scan-ready :
      (p : Progress sdk.Sha256) (xs : List ℕ)
      → p.txn_state ≡ txn_out
      → (p.curr_obj == p.txn.out_num) ≡ true
      → scan sdk p xs
        ≡ scanned sdk txn_ready (record p { txn_state = txn_compute_sigs; curr_obj = 0 }) xs
  scan-ready p xs at all = at_state sdk p xs txn_out at ∙ rw all

module _ (sdk : Sdk) (laws : SdkLaws sdk) where
  -- The reader in front of an output, behind `k` of them; `msg` is what was hashed.
  pub record AtOutput (k more : ℕ) (msg : List ℕ) (p : Progress sdk.Sha256) : Type 0 where
    pub at_out : p.txn_state ≡ txn_out
    pub count : p.curr_obj ≡ k
    pub out_num : p.txn.out_num ≡ k + suc more
    pub few : k + suc more < 256
    pub hash : laws.Absorbed p.hash msg

  -- The reader at the end.
  pub record ReadAll (p : Progress sdk.Sha256) (msg : List ℕ) (q : Progress sdk.Sha256)
      : Type 0 where
    pub inner_hash : q.txn.inner_hash ≡ laws.sha256 msg
    pub in_num : q.txn.in_num ≡ p.txn.in_num
    pub sig_input : q.txn.sig_input ≡ p.txn.sig_input
    pub at_sigs : q.txn_state ≡ txn_compute_sigs
    pub first_obj : q.curr_obj ≡ 0

  -- One output: what the call shows, and where the reader stops.
  module _ (o : Output) (k more : ℕ) (msg : List ℕ) (p : Progress sdk.Sha256) (v : IsOutput o)
      (a : AtOutput k more msg p) where
    abbrev after : Progress sdk.Sha256
    after = read_output sdk p (serialized_output o)

    abbrev code : List ℕ → ℕ
    code ys = if ltb (length ys) 37 then txn_partial_out else txn_approve_out

    shows : (ys : List ℕ) → scan sdk p (serialized_output o ++ ys) ≡ scanned sdk (code ys) after ys
    shows ys =
        scan-output sdk p (serialized_output o) ys a.at_out
          (rw (a.count, a.out_num) (ne→== k (k + suc more) (omega arith)))
          (length-serialized_output o v)

    counted : after.curr_obj ≡ suc k
    counted = omega (arith, a.count, a.few)

    next_output :
        (more' : ℕ) → more ≡ suc more' → AtOutput (suc k) more' (msg ++ serialized_output o) after
    next_output more' e = record {
      at_out = a.at_out;
      count = counted;
      out_num = omega (arith, a.out_num, e);
      few = omega (arith, a.few, e);
      hash = rw not_last (laws.more_absorbed p.hash msg (serialized_output o) a.hash);
    }
      where
        not_last : (next_obj p.curr_obj == p.txn.out_num) ≡ false
        not_last = rw (counted, a.out_num) (ne→== (suc k) (k + suc more) (omega (arith, e)))

    last_output :
        more ≡ 0
        → ((after.curr_obj == after.txn.out_num) ≡ true)
          × (after.txn.inner_hash ≡ laws.sha256 (msg ++ serialized_output o))
    last_output e = (last, rw last (laws.last_digest p.hash msg (serialized_output o) a.hash))
      where
        last : (next_obj p.curr_obj == p.txn.out_num) ≡ true
        last = (==_iff _ _).1 (omega (arith, counted, a.out_num, e))

  -- All outputs.
  pub read_outputs :
      (o : Output) (todo : List Output) (k : ℕ) (msg : List ℕ) (p : Progress sdk.Sha256)
      (xs : List ℕ)
      → IsOutput o
      → All IsOutput todo
      → AtOutput k (length todo) msg p
      → (q : Progress sdk.Sha256) × (nth_scan sdk
            (suc (length todo))
            p
            (join serialized_output (o ∷ todo) ++ xs)
          ≡ scanned sdk txn_ready q xs)
        × ReadAll p (msg ++ join serialized_output (o ∷ todo)) q
  read_outputs o [] k msg p xs v vs a =
      let (last, digest) = last_output o k 0 msg p v a refl in
      let q = record (after o k 0 msg p v a) { txn_state = txn_compute_sigs; curr_obj = 0 } in
      (
        q,
        rw (append-nil (serialized_output o)) (
            unfold nth_scan in
            (ap (λ r. scan sdk r.reached r.rest) (shows o k 0 msg p v a xs)
              ∙ scan-ready sdk (after o k 0 msg p v a) xs a.at_out last)),
        record {
          inner_hash =
              digest ∙ ap (λ t. laws.sha256 (msg ++ t)) (sym (append-nil (serialized_output o)));
          in_num = refl;
          sig_input = refl;
          at_sigs = refl;
          first_obj = refl;
        },
      )
  read_outputs o (o' ∷ todo) k msg p xs v vs a =
      let a' = next_output o k (suc (length todo)) msg p v a (length todo) refl in
      let (q, reads, all) =
        read_outputs o' todo (suc k) (msg ++ serialized_output o)
          (after o k (suc (length todo)) msg p v a) xs vs.0 vs.1 a' in
      (
        q,
        nth_scan-suc sdk (suc (length todo)) p _
            ∙ ap (λ r. nth_scan sdk (suc (length todo)) r.reached r.rest)
                (ap (λ t. scan sdk p t) (append_assoc (serialized_output o) _ xs)
                  ∙ shows o k (suc (length todo)) msg p v a
                      (join serialized_output (o' ∷ todo) ++ xs))
            ∙ reads,
        record {
          inner_hash = all.inner_hash ∙ ap laws.sha256 (append_assoc msg (serialized_output o) _);
          in_num = all.in_num;
          sig_input = all.sig_input;
          at_sigs = all.at_sigs;
          first_obj = all.first_obj;
        },
      )

  -- The call after the outputs `before` shows the next one.
  pub record ShowsOutput (o : Output) (number : ℕ) (r : Scanned sdk.Sha256) : Type 0 where
    pub code : (r.code ≡ txn_partial_out) ⊎ (r.code ≡ txn_approve_out)
    pub output :
        r.reached.txn.cur_output
        ≡ record { address = o.addr; coin_num = o.amount; hour_num = o.fee }
    pub counted : r.reached.curr_obj ≡ number

  pub show_output :
      (before : List Output) (o : Output) (later : List Output) (k : ℕ) (msg : List ℕ)
      (p : Progress sdk.Sha256) (xs : List ℕ)
      → All IsOutput (before ++ o ∷ later)
      → AtOutput k (length before + length later) msg p
      → ShowsOutput o
          (suc (k + length before))
          (nth_scan sdk (length before) p (join serialized_output (before ++ o ∷ later) ++ xs))
  show_output [] o later k msg p xs vs a =
      unfold nth_scan in
      (subst (λ r. ShowsOutput o (suc (k + 0)) r)
        (sym (
          ap (λ t. scan sdk p t) (append_assoc (serialized_output o) _ xs)
          ∙ shows o k (0 + length later) msg p vs.0 a (join serialized_output later ++ xs)))
        (record {
          code = elim (Bool-cases (ltb (length (join serialized_output later ++ xs)) 37)) [
            | inl few ↦ inl (rw few)
            | inr many ↦ inr (rw many)
          ];
          output = output_of-serialized_output o vs.0;
          counted = omega (arith, counted o k (0 + length later) msg p vs.0 a);
        }))
  show_output (b ∷ before) o later k msg p xs vs a =
      let a' =
        next_output b k (suc (length before) + length later) msg p vs.0 a
          (length before + length later) (omega arith) in
      subst (λ r. ShowsOutput o (suc (k + suc (length before))) r)
        (sym (
          nth_scan-suc sdk (length before) p _
          ∙ ap (λ r. nth_scan sdk (length before) r.reached r.rest)
              (ap (λ t. scan sdk p t) (append_assoc (serialized_output b) _ xs)
                ∙ shows b k (suc (length before) + length later) msg p vs.0 a
                    (join serialized_output (before ++ o ∷ later) ++ xs))))
        (let e : suc (suc k + length before) ≡ suc (k + suc (length before)) = omega arith in
          subst
            (λ (n : ℕ). ShowsOutput o n (
              nth_scan sdk (length before)
                (after b k (suc (length before) + length later) msg p vs.0 a)
                (join serialized_output (before ++ o ∷ later) ++ xs)))
            e
            (show_output before o later (suc k) (msg ++ serialized_output b)
              (after b k (suc (length before) + length later) msg p vs.0 a) xs vs.1 a'))
