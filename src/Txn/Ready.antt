-- ===== src/Txn/Ready.antt =====
-- The inputs that the reader can take: their number is announced as 1 to MAX_INPUTS.
use mathlib.Core.Path.{subst}
use ledger_nano.Base.{
  ℕ, zero, suc, ◌≤◌, ◌<◌, ◌≡◌, sym, ◌∙◌, ◌⊎◌, inl, inr, false, List, [], ◌∷◌, ◌++◌, arith, ◌==◌,
  length, get_or, set, take, drop, All, u4le_at, length-set, length-append, length-take,
  length-drop, Bool-cases,
}
use ledger_nano.Sdk.{Sdk}
use ledger_nano.Device.{
  TxnState, txn_start_in, txn_in, txn_start_out, txn_out, txn_compute_sigs, txn_ret_sigs,
  max_inputs,
}
use ledger_nano.Txn.Buffer.{next_obj}
use ledger_nano.Txn.Reader.{Progress, read_in_num, read_input, read_out_num}
use ledger_nano.Txn.Advance.{u4le_at-take}

module _ {Sha : Type 0} where
  -- The number of inputs to come, by the state; the reader is at an element.
  abbrev pub Fits : TxnState → Progress Sha → List ℕ → Type 0
  Fits txn_start_in p xs = (length xs < 4) ⊎ ((1 ≤ u4le_at xs 0) × (u4le_at xs 0 ≤ max_inputs))
  Fits txn_in p xs = (p.curr_obj < p.txn.in_num) × (p.txn.in_num ≤ max_inputs)
  Fits txn_start_out p xs = Unit
  Fits txn_out p xs = Unit
  Fits txn_compute_sigs p xs = ⊥
  Fits txn_ret_sigs p xs = ⊥

  -- `sig_input` has its 20 entries of 65 bytes.
  pub record IsReady (p : Progress Sha) (xs : List ℕ) : Type 0 where
    pub fits : Fits p.txn_state p xs
    pub entries : length p.txn.sig_input ≡ max_inputs
    pub cells : All (λ cell. length cell ≡ 65) p.txn.sig_input

All-at :
    (cells : List (List ℕ)) (i : ℕ)
    → i < length cells
    → All (λ cell. length cell ≡ 65) cells
    → length (get_or cells i []) ≡ 65
All-at [] i lt h = absurd (omega arith)
All-at (c ∷ cells) zero lt h = h.0
All-at (c ∷ cells) (suc i) lt h = All-at cells i (omega arith) h.1

All-set :
    (cells : List (List ℕ)) (i : ℕ) (cell : List ℕ)
    → length cell ≡ 65
    → All (λ c. length c ≡ 65) cells
    → All (λ c. length c ≡ 65) (set cells i cell)
All-set [] i cell l h = tt
All-set (c ∷ cells) zero cell l h = (l, h.1)
All-set (c ∷ cells) (suc i) cell l h = (h.0, All-set cells i cell l h.1)

module _ (sdk : Sdk) (p : Progress sdk.Sha256) (xs : List ℕ) (v : IsReady p xs) where
  pub cell_of_input :
      p.txn_state ≡ txn_in
      → (p.curr_obj < length p.txn.sig_input) × (length (get_or p.txn.sig_input p.curr_obj []) ≡ 65)
  cell_of_input at_in =
      let (below, few) = subst (λ st. Fits st p xs) at_in v.fits in
      let lt : p.curr_obj < length p.txn.sig_input = omega (arith, below, few, v.entries) in
      (lt, All-at p.txn.sig_input p.curr_obj lt v.cells)

  pub read_in_num-IsReady :
      p.txn_state ≡ txn_start_in
      → 4 ≤ length xs
      → IsReady (read_in_num sdk p (take 4 xs)) (drop 4 xs)
  read_in_num-IsReady at_start enough = record {
    fits = elim (subst (λ st. Fits st p xs) at_start v.fits) [
      | inl short ↦ absurd (omega arith)
      | inr (some_input, few) ↦ (omega (arith, some_input, same), omega (arith, few, same))
    ];
    entries = v.entries;
    cells = v.cells;
  }
    where
      same : u4le_at (take 4 xs) 0 ≡ u4le_at xs 0
      same = sym (u4le_at-take 4 0 xs (omega arith))

  pub read_out_num-IsReady : IsReady (read_out_num sdk p (take 4 xs)) (drop 4 xs)
  read_out_num-IsReady = record { fits = tt; entries = v.entries; cells = v.cells }

  pub read_input-IsReady :
      p.txn_state ≡ txn_in → 36 ≤ length xs → IsReady (read_input sdk p (take 36 xs)) (drop 36 xs)
  read_input-IsReady at_in enough = record {
    fits = elim (Bool-cases (next_obj p.curr_obj == p.txn.in_num)) [
      | inl last ↦ rw last tt
      | inr more ↦ rw more (next_below more, bounds.1)
    ];
    entries = length-set p.txn.sig_input p.curr_obj _ ∙ v.entries;
    cells = All-set p.txn.sig_input p.curr_obj _ patched v.cells;
  }
    where
      bounds : (p.curr_obj < p.txn.in_num) × (p.txn.in_num ≤ max_inputs)
      bounds = subst (λ st. Fits st p xs) at_in v.fits

      next_below :
          (next_obj p.curr_obj == p.txn.in_num) ≡ false → next_obj p.curr_obj < p.txn.in_num
      next_below h = ground (arith, bounds.0, bounds.1)

      patched : length (take 36 xs ++ drop 36 (get_or p.txn.sig_input p.curr_obj [])) ≡ 65
      patched = omega (
        arith,
        length-append (take 36 xs) (drop 36 (get_or p.txn.sig_input p.curr_obj [])),
        length-take 36 xs,
        length-drop 36 (get_or p.txn.sig_input p.curr_obj []),
        (cell_of_input at_in).1,
      )
