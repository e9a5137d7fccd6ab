-- ===== src/Main/Complete.antt =====
-- The end of a transaction: the last approval, and the signatures.
mod Tests
use mathlib.Core.Path.{subst}
use ledger_nano.Base.{
  ℕ, zero, suc, ◌+◌, ◌*◌, ◌≤◌, ◌<◌, ◌≡◌, refl, sym, ap, ◌∙◌, List, [], ◌∷◌, ◌++◌, some, true, arith,
  length, take, drop, map, All, u4le_at, take-append, drop-append, drop-take, take-take,
  take-append-drop, length-take, All-take,
}
use ledger_nano.Base.Exec.{Outcome, ok, throw, fault, stuck, bind, ◌>>=◌, ◌>>◌}
use ledger_nano.Base.Post.{Post}
use ledger_nano.Sdk.{Sdk, SdkLaws}
use ledger_nano.Device.{Device, max_inputs}
use ledger_nano.Crypto.Signature.{sign}
use ledger_nano.Txn.Reader.{progress}
use ledger_nano.Txn.Call.{CanRead}
use ledger_nano.Txn.Serial.{
  Input, Output, IsInput, to_le, serialized_input, txn_in_out, u4le_at-to_le, length-to_le,
}
use ledger_nano.Txn.Signing.{IsSignature, AreSignatures}
use ledger_nano.Txn.Whole.{hashed_txn, IsTxn, IsFresh}
use ledger_nano.Txn.Session.{Session}
use ledger_nano.Ui.Events.{released_right}
use ledger_nano.Apdu.Button.{transaction_screen_button}
use ledger_nano.Main.Replies.{messages}
use ledger_nano.Main.Approved.{SendsHash, transaction_screen_button-SendsHash}
use ledger_nano.Main.Batches.{Ask, ask_packet, batches, run_rounds}
use ledger_nano.Main.Delivered.{Approved, run_rounds-signatures}
use ledger_nano.System.Invariant.{Invariant, Never}
use ledger_nano.System.Transactions.{transaction_screen_button-Keeps}
use ledger_nano.System.Events.{Reach}
use ledger_nano.System.Reached.{Reach-Invariant}

module _ (sdk : Sdk) (laws : SdkLaws sdk) (p0 p1 p2 p3 : ℕ) (digest : List ℕ) where
  -- `sig` is the signature of an input: by the key of the path with the input's index, of the
  -- hash of `digest` and the input's id.
  pub record Signs (i : Input) (sig : List ℕ) : Type 0 where
    pub size : length sig ≡ 65
    pub signed :
        sign sdk
          (sdk.derive_node (p0 ∷ p1 ∷ p2 ∷ p3 ∷ i.address_index ∷ []))
          (laws.sha256 (digest ++ i.uxid))
        ≡ some sig

  abbrev pub AllSign : List Input → List (List ℕ) → Type 0
  AllSign [] [] = Unit
  AllSign (i ∷ inputs) (g ∷ sigs) = Signs i g × AllSign inputs sigs
  AllSign inputs sigs = ⊥

  -- An entry that holds an input.
  id_of :
      (cell : List ℕ) (i : Input)
      → IsInput i
      → take 36 cell ≡ serialized_input i
      → take 32 cell ≡ i.uxid
  unfolding serialized_input
  id_of cell i v e =
      sym (take-take 32 36 cell (omega arith))
      ∙ ap (take 32) e
      ∙ take-append 32 i.uxid (to_le i.address_index 4) (sym v.uxid_size)

  index_of :
      (cell : List ℕ) (i : Input)
      → IsInput i
      → take 36 cell ≡ serialized_input i
      → u4le_at (take 4 (drop 32 cell)) 0 ≡ i.address_index
  unfolding serialized_input
  index_of cell i v e =
      ap (λ xs. u4le_at xs 0)
        (sym (drop-take 32 36 4 cell refl)
          ∙ ap (drop 32) e
          ∙ drop-append 32 i.uxid (to_le i.address_index 4) (sym v.uxid_size))
      ∙ u4le_at-to_le i.address_index v.index_fits

  sign_cell :
      (cell : List ℕ) (i : Input) (sig : List ℕ)
      → IsInput i
      → take 36 cell ≡ serialized_input i
      → length cell ≡ 65
      → Signs i sig
      → IsSignature sdk laws p0 p1 p2 p3 digest cell sig
  sign_cell cell i sig v e size g = record {
    cell_size = size;
    size = g.size;
    signed =
        subst
          (λ (n : ℕ).
            sign sdk (sdk.derive_node (p0 ∷ p1 ∷ p2 ∷ p3 ∷ n ∷ []))
              (laws.sha256 (digest ++ take 32 cell))
            ≡ some sig)
          (sym (index_of cell i v e))
          (subst
            (λ id.
              sign sdk (sdk.derive_node (p0 ∷ p1 ∷ p2 ∷ p3 ∷ i.address_index ∷ []))
                (laws.sha256 (digest ++ id))
              ≡ some sig)
            (sym (id_of cell i v e)) g.signed);
  }

  sign_cells :
      (cells : List (List ℕ)) (inputs : List Input) (sigs : List (List ℕ))
      → All IsInput inputs
      → map (take 36) cells ≡ map serialized_input inputs
      → All (λ cell. length cell ≡ 65) cells
      → AllSign inputs sigs
      → AreSignatures sdk laws p0 p1 p2 p3 digest cells sigs
  sign_cells [] [] [] v e sizes g = tt
  sign_cells [] [] (x ∷ sigs) v e sizes g = absurd g
  sign_cells [] (i ∷ inputs) sigs v e sizes g = absurd (cc e)
  sign_cells (c ∷ cells) [] sigs v e sizes g = absurd (cc e)
  sign_cells (c ∷ cells) (i ∷ inputs) [] v e sizes g = absurd g
  sign_cells (c ∷ cells) (i ∷ inputs) (x ∷ sigs) v e sizes g =
      (sign_cell c i x v.0 (cc e) sizes.0 g.0, sign_cells cells inputs sigs v.1 (cc e) sizes.1 g.1)

module _ (sdk : Sdk) (laws : SdkLaws sdk) (room : ℕ) (s t : Device sdk.Sha256)
    (fresh : IsFresh sdk laws (progress s)) (c : CanRead t) (sizes : Invariant room t)
    (large : 197 ≤ room) (begun : t.ctx.initialized ≡ true) (none : t.tx ≡ 0) (p0 p1 p2 p3 p4 : ℕ)
    (path : t.bip44_path ≡ p0 ∷ p1 ∷ p2 ∷ p3 ∷ p4 ∷ []) (inputs : List Input)
    (outputs : List Output) (v : IsTxn inputs outputs)
    (d : Session sdk s (length outputs) (txn_in_out inputs outputs) t) where
  abbrev digest : List ℕ
  digest = laws.sha256 (hashed_txn inputs outputs)

  -- The last approval.
  last_approval : SendsHash sdk t inputs digest (transaction_screen_button sdk released_right t)
  last_approval =
      transaction_screen_button-SendsHash sdk laws s t fresh c begun none
        (omega (arith, sizes.0.apdu_size, large)) (omega (arith, sizes.0.line_1_size))
        (omega (arith, sizes.0.line_2_size)) inputs outputs v d

  last_approval_sizes : Invariant room last_approval.after
  last_approval_sizes =
      subst (λ o. Post (Invariant room) Never o) last_approval.returns
        (transaction_screen_button-Keeps sdk laws released_right t sizes)

  abbrev cells : List (List ℕ)
  cells = take (length inputs) last_approval.after.ctx.txn.sig_input

  cells_number : length cells ≡ length inputs
  cells_number = omega (
    arith,
    length-take (length inputs) last_approval.after.ctx.txn.sig_input,
    last_approval_sizes.1.entries,
    v.few_inputs,
  )

  last_approval-Approved :
      (sigs : List (List ℕ))
      → AllSign sdk laws p0 p1 p2 p3 digest inputs sigs
      → Approved sdk laws p0 p1 p2 p3 p4 cells sigs
          (drop (length inputs) last_approval.after.ctx.txn.sig_input)
          last_approval.after
  last_approval-Approved sigs g = record {
    begun = last_approval.begun ∙ begun;
    state = last_approval.txn_state;
    path = last_approval.path ∙ path;
    number = last_approval.number ∙ sym cells_number;
    few = omega (arith, cells_number, v.few_inputs);
    entries = sym (take-append-drop (length inputs) last_approval.after.ctx.txn.sig_input);
    signatures =
        subst (λ inner. AreSignatures sdk laws p0 p1 p2 p3 inner cells sigs)
          (sym last_approval.inner_hash)
          (sign_cells sdk laws p0 p1 p2 p3 digest cells inputs sigs v.all_inputs
            last_approval.stored
            (All-take _ (length inputs) last_approval.after.ctx.txn.sig_input
              last_approval_sizes.1.cells)
            g);
    room = omega (arith, last_approval_sizes.0.apdu_size, large);
    message = omega (arith, last_approval_sizes.0.info_size);
  }

  -- Where the invariant of the memory holds with an APDU buffer of 197 bytes or more, a host has
  -- sent the bytes of a transaction (1 to 20 inputs, 1 to 255 outputs, each of its fixed size) cut
  -- into packets in any way to a fresh reader, each call of txn_next_elem was made on a device
  -- that could read on and returned that it wants bytes or that an output is complete, the latter
  -- once for every output, the transaction is in progress, the device can read on, tx is 0, and
  -- each input has the signature of 65 bytes that the key of the path with the input's own address
  -- index makes of the SHA-256 of the transaction's hash and the input's id: the right button and
  -- then as many packets (p1 = 1, that fit the buffer) as there are groups of three inputs send
  -- the host the hash of the transaction's ids and outputs, and then these signatures in the order
  -- of the inputs, three in a message and the rest in the last, each message with 90 00 behind it,
  -- and nothing else.
  pub transaction_screen_button-signatures :
      (sigs : List (List ℕ)) (a : Ask) (asks : List Ask)
      → AllSign sdk laws p0 p1 p2 p3 digest inputs sigs
      → All (λ b. 5 + length b.body ≤ room) (a ∷ asks)
      → length inputs ≤ 3 * length (a ∷ asks)
      → 3 * length (a ∷ asks) < length inputs + 3
      → messages (
          (transaction_screen_button sdk released_right
              >> run_rounds sdk (map ask_packet (a ∷ asks)))
            t)
        ≡ some ((t.sent ++ (digest ++ (0x90 ∷ 0 ∷ [])) ∷ []) ++ batches (length (a ∷ asks)) sigs)
  transaction_screen_button-signatures sigs a asks g fit enough needed =
      ap (λ o. messages (bind o (λ _. run_rounds sdk (map ask_packet (a ∷ asks)))))
        last_approval.returns
      ∙ run_rounds-signatures sdk laws p0 p1 p2 p3 p4 cells sigs
          (drop (length inputs) last_approval.after.ctx.txn.sig_input) a asks last_approval.after
          (last_approval-Approved sigs g)
          (subst (λ (n : ℕ). All (λ b. 5 + length b.body ≤ n) (a ∷ asks))
            (sym last_approval_sizes.0.apdu_size) fit)
          (omega (arith, cells_number, enough)) (omega (arith, cells_number, needed))
      ∙ ap (λ sent. some (sent ++ batches (length (a ∷ asks)) sigs)) last_approval.sent
