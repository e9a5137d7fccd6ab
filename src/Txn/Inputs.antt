-- ===== src/Txn/Inputs.antt =====
-- The reader on the bytes that the host sends, up to the outputs.
use mathlib.Core.Path.{ap₂, subst}
use mathlib.Core.List.{append_assoc, append-nil, map-append}
use ledger_nano.Base.{
  ℕ, zero, suc, ◌+◌, ◌^◌, ◌≤◌, ◌<◌, ◌≡◌, refl, sym, ap, ◌∙◌, List, [], ◌∷◌, ◌++◌, map, arith, ◌==◌,
  ne→==, if◌then◌else◌, length, take, drop, set, get_or, All, length-append, length-set,
  take-append, drop-append,
}
use ledger_nano.Sdk.{Sdk, SdkLaws}
use ledger_nano.Device.{txn_start_in, txn_in, txn_start_out, txn_out, max_inputs}
use ledger_nano.Txn.Reader.{Progress, read_in_num, read_input, read_out_num}
use ledger_nano.Txn.Scan.{scan, scan_elem, scan_loop}
use ledger_nano.Txn.Extends.{at_state, scan-elem}
use ledger_nano.Txn.Serial.{
  Input, IsInput, to_le, join, join-append, serialized_input, length-to_le, length-serialized_input,
  u4le_at-to_le,
}

-- Writing the cell behind the first `k`.
take-set_next {ℓ} :
    {A : Type ℓ} (k : ℕ) (xs : List A) (v : A)
    → k < length xs
    → take (suc k) (set xs k v) ≡ take k xs ++ v ∷ []
take-set_next k [] v h = absurd (omega arith)
take-set_next zero (x ∷ xs) v h = refl
take-set_next (suc k) (x ∷ xs) v h = ap (λ t. x ∷ t) (take-set_next k xs v (omega arith))

module _ (sdk : Sdk) where
  open sdk use {Sha256}

  -- An element at the front of the stream is read, and the scan goes on behind it.
  scan-front :
      (n : ℕ) (next : List ℕ → Progress Sha256) (p : Progress Sha256) (e xs : List ℕ)
      → 0 < n
      → length e ≡ n
      → (scan sdk p (e ++ xs)
          ≡ scan_elem sdk n p (e ++ xs) (λ t. scan_loop sdk (length (e ++ xs)) (next t)))
      → scan sdk p (e ++ xs) ≡ scan sdk (next e) xs
  scan-front n next p e xs pos size step =
      step
      ∙ scan-elem sdk n next p (e ++ xs) pos (omega (arith, length-append e xs))
      ∙ ap₂ (λ t ys. scan sdk (next t) ys) (take-append n e xs (sym size))
          (drop-append n e xs (sym size))

module _ (sdk : Sdk) (laws : SdkLaws sdk) where
  open sdk use {Sha256}

  -- The reader behind the inputs `done` of `n`.
  pub record ReadInputs (n : ℕ) (done : List Input) (p : Progress Sha256) : Type 0 where
    pub hash : laws.Absorbed p.hash (to_le n 4 ++ join (λ i. i.uxid) done)
    pub in_num : p.txn.in_num ≡ n
    pub count : p.curr_obj ≡ length done
    pub entries : length p.txn.sig_input ≡ max_inputs
    pub stored : map (take 36) (take (length done) p.txn.sig_input) ≡ map serialized_input done

  read_input-ReadInputs :
      (n : ℕ) (done : List Input) (i : Input) (p : Progress Sha256)
      → length done < n
      → n ≤ max_inputs
      → IsInput i
      → ReadInputs n done p
      → ReadInputs n (done ++ i ∷ []) (read_input sdk p (serialized_input i))
  unfolding serialized_input
  read_input-ReadInputs n done i p below few v r = record {
    hash = rw (take-append 32 i.uxid (to_le i.address_index 4) (sym v.uxid_size)) (
        subst (λ m. laws.Absorbed (sdk.hash_more p.hash i.uxid) m) message
          (laws.more_absorbed p.hash _ i.uxid r.hash));
    in_num = r.in_num;
    count = omega (arith, r.count, few, longer);
    entries = length-set p.txn.sig_input p.curr_obj _ ∙ r.entries;
    stored =
        rw
          (
            r.count,
            longer,
            take-set_next (length done) p.txn.sig_input cell (omega (arith, r.entries)),
          )
          (map-append (take 36) (take (length done) p.txn.sig_input) (cell ∷ [])
            ∙ ap₂ (λ xs x. xs ++ x ∷ []) r.stored
                (take-append 36 (serialized_input i) _ (sym (length-serialized_input i v)))
            ∙ sym (map-append serialized_input done (i ∷ [])));
  }
    where
      longer : length (done ++ i ∷ []) ≡ suc (length done)
      longer = omega (arith, length-append done (i ∷ []))

      cell : List ℕ
      cell = serialized_input i ++ drop 36 (get_or p.txn.sig_input (length done) [])

      message :
          (to_le n 4 ++ join (λ j. j.uxid) done) ++ i.uxid
          ≡ to_le n 4 ++ join (λ j. j.uxid) (done ++ i ∷ [])
      message =
          append_assoc (to_le n 4) (join (λ j. j.uxid) done) i.uxid
          ∙ ap (λ t. to_le n 4 ++ t)
              (sym (
                join-append (λ j. j.uxid) done (i ∷ [])
                ∙ ap (λ t. join (λ j. j.uxid) done ++ t) (append-nil i.uxid)))

  -- The inputs left to read, from behind those that are `done`.
  read_inputs :
      (n : ℕ) (done todo : List Input) (p : Progress Sha256) (xs : List ℕ)
      → length done + length todo ≡ n
      → n ≤ max_inputs
      → All IsInput todo
      → ReadInputs n done p
      → p.txn_state ≡ (if length done == n then txn_start_out else txn_in)
      → (q : Progress Sha256) × (scan sdk p (join serialized_input todo ++ xs) ≡ scan sdk q xs)
        × ReadInputs n (done ++ todo) q
        × (q.txn_state ≡ txn_start_out)
  read_inputs n done [] p xs size few vs r at = (p, refl, rw (append-nil done) r, at ∙ ended)
    where
      ended : (if length done == n then txn_start_out else txn_in) ≡ txn_start_out
      ended = ground arith
  read_inputs n done (i ∷ todo) p xs size few vs r at =
      let next =
        read_inputs n (done ++ i ∷ []) todo (read_input sdk p (serialized_input i)) xs
          (omega (arith, longer)) few vs.1
          (read_input-ReadInputs n done i p (omega arith) few vs.0 r)
          (ap₂ (λ k m. if k == m then txn_start_out else txn_in)
            (omega (arith, longer, r.count, few)) r.in_num) in
      (
        next.0,
        ap (λ t. scan sdk p t) (append_assoc (serialized_input i) (join serialized_input todo) xs)
            ∙ scan-front sdk 36 (read_input sdk p) p (serialized_input i)
                (join serialized_input todo ++ xs) (omega arith) (length-serialized_input i vs.0)
                (at_state sdk p _ txn_in (at ∙ rw (ne→== (length done) n (omega arith))))
            ∙ next.1,
        rw (append_assoc done (i ∷ []) todo) at next.2,
        next.3,
      )
    where
      longer : length (done ++ i ∷ []) ≡ suc (length done)
      longer = omega (arith, length-append done (i ∷ []))

  -- The reader in front of the first of `m` outputs.
  pub record ReadHead (inputs : List Input) (m : ℕ) (p : Progress Sha256) : Type 0 where
    pub hash :
        laws.Absorbed p.hash ((to_le (length inputs) 4 ++ join (λ i. i.uxid) inputs) ++ to_le m 4)
    pub in_num : p.txn.in_num ≡ length inputs
    pub stored : map (take 36) (take (length inputs) p.txn.sig_input) ≡ map serialized_input inputs
    pub at_out : p.txn_state ≡ txn_out
    pub out_num : p.txn.out_num ≡ m
    pub none_shown : p.curr_obj ≡ 0

  -- From the first byte to the first output.
  pub read_head :
      (inputs : List Input) (m : ℕ) (p : Progress Sha256) (xs : List ℕ)
      → 0 < length inputs
      → length inputs ≤ max_inputs
      → All IsInput inputs
      → m < 256 ^ 4
      → p.txn_state ≡ txn_start_in
      → laws.Absorbed p.hash []
      → length p.txn.sig_input ≡ max_inputs
      → (q : Progress Sha256) × (scan sdk p
            (to_le (length inputs) 4 ++ (join serialized_input inputs ++ (to_le m 4 ++ xs)))
          ≡ scan sdk q xs)
        × ReadHead inputs m q
  read_head inputs m p xs some_input few vs fits at fresh entries =
      let p1 = read_in_num sdk p (to_le (length inputs) 4) in
      let start : ReadInputs (length inputs) [] p1 = record {
        hash =
            subst (λ t. laws.Absorbed p1.hash t) (sym (append-nil (to_le (length inputs) 4)))
              (laws.more_absorbed p.hash [] (to_le (length inputs) 4) fresh);
        in_num = u4le_at-to_le (length inputs) (omega arith);
        count = refl;
        entries = entries;
        stored = refl;
      } in
      let (q, reads, r, ended) =
        read_inputs (length inputs) [] inputs p1 (to_le m 4 ++ xs) (omega arith) few vs start
          (rw (ne→== 0 (length inputs) (omega arith))) in
      (
        read_out_num sdk q (to_le m 4),
        scan-front sdk 4 (read_in_num sdk p) p (to_le (length inputs) 4) _ (omega arith)
              (length-to_le (length inputs) 3 (omega arith)) (at_state sdk p _ txn_start_in at)
            ∙ reads
            ∙ scan-front sdk 4 (read_out_num sdk q) q (to_le m 4) xs (omega arith)
                (length-to_le m 3 fits) (at_state sdk q _ txn_start_out ended),
        record {
          hash = laws.more_absorbed q.hash _ (to_le m 4) r.hash;
          in_num = r.in_num;
          stored = r.stored;
          at_out = refl;
          out_num = u4le_at-to_le m fits;
          none_shown = refl;
        },
      )
