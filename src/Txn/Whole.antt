-- ===== src/Txn/Whole.antt =====
-- The reader on a whole transaction, from the first byte to TXN_READY.
use mathlib.Core.Path.{subst}
use mathlib.Core.List.{append_assoc}
use ledger_nano.Base.{
  ℕ, suc, ◌+◌, ◌≤◌, ◌<◌, ◌≡◌, refl, sym, ap, ◌∙◌, List, [], ◌∷◌, ◌++◌, map, arith, length, take,
  All, length-append,
}
use ledger_nano.Sdk.{Sdk, SdkLaws}
use ledger_nano.Device.{txn_start_in, txn_compute_sigs, txn_ready, max_inputs}
use ledger_nano.Txn.Reader.{Progress}
use ledger_nano.Txn.Scan.{Scanned, scan}
use ledger_nano.Txn.Serial.{
  Input, IsInput, Output, IsOutput, to_le, join, serialized_input, serialized_output, txn_in_out,
}
use ledger_nano.Txn.Inputs.{ReadHead, read_head}
use ledger_nano.Txn.Shown.{nth_scan, nth_scan-front, read_outputs, ShowsOutput, show_output}

-- What the host can send: 1 to 20 inputs, 1 to 255 outputs.
pub record IsTxn (inputs : List Input) (outputs : List Output) : Type 0 where
  pub some_input : 0 < length inputs
  pub few_inputs : length inputs ≤ max_inputs
  pub some_output : 0 < length outputs
  pub few_outputs : length outputs < 256
  pub all_inputs : All IsInput inputs
  pub all_outputs : All IsOutput outputs

-- What `inner_hash` is the hash of: the transaction without the indices of its inputs.
unfoldable pub hashed_txn : List Input → List Output → List ℕ
hashed_txn inputs outputs =
    ((to_le (length inputs) 4 ++ join (λ i. i.uxid) inputs) ++ to_le (length outputs) 4)
    ++ join serialized_output outputs

module _ (sdk : Sdk) (laws : SdkLaws sdk) where
  -- A reader that starts a transaction.
  pub record IsFresh (p : Progress sdk.Sha256) : Type 0 where
    pub at_start : p.txn_state ≡ txn_start_in
    pub no_hash : laws.Absorbed p.hash []
    pub entries : length p.txn.sig_input ≡ max_inputs

  -- The whole transaction was read.
  pub record ReadTxn (inputs : List Input) (outputs : List Output) (xs : List ℕ)
      (r : Scanned sdk.Sha256) : Type 0 where
    pub ready : r.code ≡ txn_ready
    pub inner_hash : r.reached.txn.inner_hash ≡ laws.sha256 (hashed_txn inputs outputs)
    pub in_num : r.reached.txn.in_num ≡ length inputs
    pub stored :
        map (take 36) (take (length inputs) r.reached.txn.sig_input) ≡ map serialized_input inputs
    pub at_sigs : r.reached.txn_state ≡ txn_compute_sigs
    pub rest : r.rest ≡ xs

  module _ (inputs : List Input) (p : Progress sdk.Sha256) (xs : List ℕ) (fresh : IsFresh p) where
    -- Behind the number of outputs.
    head :
        (outputs : List Output)
        → IsTxn inputs outputs
        → (q : Progress sdk.Sha256) × (scan sdk p (txn_in_out inputs outputs ++ xs)
            ≡ scan sdk q (join serialized_output outputs ++ xs))
          × ReadHead sdk laws inputs (length outputs) q
    unfolding txn_in_out
    head outputs v =
        let (q, reads, h) =
          read_head sdk laws inputs (length outputs) p (join serialized_output outputs ++ xs)
            v.some_input v.few_inputs v.all_inputs (omega (arith, v.few_outputs)) fresh.at_start
            fresh.no_hash fresh.entries in
        (q, ap (λ t. scan sdk p t) (simp append_assoc) ∙ reads, h)

    pub nth_scan-ReadTxn :
        (outputs : List Output)
        → IsTxn inputs outputs
        → ReadTxn inputs outputs xs
            (nth_scan sdk (length outputs) p (txn_in_out inputs outputs ++ xs))
    unfolding hashed_txn
    nth_scan-ReadTxn [] v = absurd (omega (arith, v.some_output))
    nth_scan-ReadTxn (o ∷ todo) v =
        let (q, reads, h) = head (o ∷ todo) v in
        let (e, all, done) =
          read_outputs sdk laws o todo 0 _ q xs v.all_outputs.0 v.all_outputs.1 (record {
            at_out = h.at_out;
            count = h.none_shown;
            out_num = omega (arith, h.out_num);
            few = omega (arith, v.few_outputs);
            hash = h.hash;
          }) in
        subst (λ r. ReadTxn inputs (o ∷ todo) xs r)
          (sym (nth_scan-front sdk (suc (length todo)) p q _ _ reads ∙ all))
          (record {
            ready = refl;
            inner_hash = done.inner_hash;
            in_num = done.in_num ∙ h.in_num;
            stored = ap (λ t. map (take 36) (take (length inputs) t)) done.sig_input ∙ h.stored;
            at_sigs = done.at_sigs;
            rest = refl;
          })

    pub nth_scan-ShowsOutput :
        (before : List Output) (o : Output) (later : List Output)
        → IsTxn inputs (before ++ o ∷ later)
        → ShowsOutput sdk laws o
            (suc (length before))
            (nth_scan sdk (length before) p (txn_in_out inputs (before ++ o ∷ later) ++ xs))
    nth_scan-ShowsOutput before o later v =
        let (q, reads, h) = head (before ++ o ∷ later) v in
        let size : length (before ++ o ∷ later) ≡ length before + suc (length later) =
          length-append before (o ∷ later) in
        rw (nth_scan-front sdk (length before) p q _ _ reads) (
          let e : suc (0 + length before) ≡ suc (length before) = omega arith in
          subst
            (λ (n : ℕ).
              ShowsOutput sdk laws o n (
                nth_scan sdk (length before) q
                  (join serialized_output (before ++ o ∷ later) ++ xs)))
            e
            (show_output sdk laws before o later 0 _ q xs v.all_outputs (record {
              at_out = h.at_out;
              count = h.none_shown;
              out_num = omega (arith, h.out_num, size);
              few = omega (arith, v.few_outputs, size);
              hash = h.hash;
            })))
