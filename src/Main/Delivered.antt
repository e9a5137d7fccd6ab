-- ===== src/Main/Delivered.antt =====
-- From the approval of a transaction to its signatures: the first request computes them all.
mod Tests
use mathlib.Core.Bool.{not}
use mathlib.Core.Path.{subst}
use ledger_nano.Base.{
  ℕ, zero, suc, ◌+◌, ◌*◌, ◌≤◌, ◌<◌, ◌≡◌, refl, sym, ap, ◌∙◌, List, [], ◌∷◌, ◌++◌, some, true, ◌&&◌,
  ◌||◌, ltb, ◌==◌, arith, length, map, All, write_bytes_in, length-append, ne→==,
}
use ledger_nano.Base.Exec.{Outcome, ok, throw, fault, stuck, bind, ◌>>=◌, ◌>>◌}
use ledger_nano.Sdk.{Sdk, SdkLaws}
use ledger_nano.Device.{Device, state_code, txn_start_out, txn_compute_sigs, txn_ret_sigs}
use ledger_nano.Txn.Loop.{elem, next_elem, txn_loop, txn_next_elem}
use ledger_nano.Txn.Sigs.{elem_compute_sigs, elem_ret_sigs}
use ledger_nano.Txn.Signing.{IsSignature, AreSignatures, elem_compute_sigs-signs}
use ledger_nano.Apdu.SignTxn.{reads_at_once, handle_sign_txn}
use ledger_nano.Main.{cla, lookup_handler, run_handler, dispatch, flush, main_round}
use ledger_nano.Main.Replies.{messages}
use ledger_nano.Main.Keys.{started}
use ledger_nano.Main.Batches.{Ask, ask_packet, batches, run_rounds, Returning, run_rounds-batches}

-- The device when a packet is read.
abbrev receiving : {Sha : Type 0} → ℕ → ℕ → Device Sha → Device Sha
receiving data_buffer data_length s = record s {
  tx = 0;
  ctx = record s.ctx { data_buffer = data_buffer; data_length = data_length };
}

-- The device with its inputs replaced by their signatures.
abbrev pub signed : {Sha : Type 0} → List (List ℕ) → Device Sha → Device Sha
signed cells s = record s {
  ctx = record s.ctx {
    txn = record s.ctx.txn { sig_input = cells };
    curr_obj = 0;
    txn_state = txn_ret_sigs;
  };
}

module _ (sdk : Sdk) where
  next_elem-computes :
      (s : Device sdk.Sha256) (cells : List (List ℕ))
      → s.ctx.txn_state ≡ txn_compute_sigs
      → elem_compute_sigs sdk s ≡ elem_ret_sigs sdk (signed cells s)
      → next_elem sdk s ≡ next_elem sdk (signed cells s)
  unfolding next_elem elem
  next_elem-computes s cells at signs = ap (λ st. elem sdk st s) at ∙ signs

  txn_next_elem-computes :
      (s : Device sdk.Sha256) (cells : List (List ℕ))
      → next_elem sdk s ≡ next_elem sdk (signed cells s)
      → txn_next_elem sdk s ≡ txn_next_elem sdk (signed cells s)
  unfolding txn_next_elem txn_loop
  txn_next_elem-computes s cells same =
      let n : s.ctx.data_length + 1 ≡ suc s.ctx.data_length = omega arith in
      rw (n, txn_loop, same) refl

  handle_sign_txn-computes :
      (s : Device sdk.Sha256) (cells : List (List ℕ)) (data_buffer data_length : ℕ)
      → s.ctx.initialized ≡ true
      → s.ctx.txn_state ≡ txn_compute_sigs
      → elem_compute_sigs sdk (receiving data_buffer data_length s)
        ≡ elem_ret_sigs sdk (signed cells (receiving data_buffer data_length s))
      → handle_sign_txn sdk 1 data_buffer data_length s
        ≡ handle_sign_txn sdk 1 data_buffer data_length (signed cells s)
  unfolding handle_sign_txn reads_at_once
  handle_sign_txn-computes s cells data_buffer data_length begun at signs =
      let d = receiving data_buffer data_length s in
      rw
        (
          ◌>>=◌,
          ◌>>◌,
          ap (λ b. not b && (1 == 0)) begun,
          ap (λ b. b && (1 == 1)) begun,
          ap
              (λ st.
                ltb (state_code st) (state_code txn_start_out)
                || (state_code st == state_code txn_ret_sigs
                    || state_code st == state_code txn_compute_sigs))
              at,
          ◌>>=◌,
          txn_next_elem-computes d cells (next_elem-computes d cells at signs),
        )
        refl

  -- A packet that asks for signatures first computes them.
  main_round-computes :
      (s : Device sdk.Sha256) (cells : List (List ℕ)) (a : Ask)
      → s.ctx.initialized ≡ true
      → s.ctx.txn_state ≡ txn_compute_sigs
      → 5 + length a.body ≤ length s.apdu_buffer
      → elem_compute_sigs sdk (receiving 5 a.lc (started (ask_packet a) s))
        ≡ elem_ret_sigs sdk (signed cells (receiving 5 a.lc (started (ask_packet a) s)))
      → main_round sdk (ask_packet a) s ≡ main_round sdk (ask_packet a) (signed cells s)
  unfolding main_round dispatch lookup_handler run_handler
  main_round-computes s cells a begun at fits signs =
      rw
        (
          ◌>>=◌,
          ◌>>◌,
          write_bytes_in s.apdu_buffer 0 (ask_packet a) (omega (arith, fits)),
          ne→== (length (ask_packet a)) 0 (omega arith),
          handle_sign_txn-computes (started (ask_packet a) s) cells 5 a.lc begun at signs,
        )
        refl

module _ (sdk : Sdk) (laws : SdkLaws sdk) (p0 p1 p2 p3 : ℕ) where
  sizes_of :
      (inner : List ℕ) (cells sigs : List (List ℕ))
      → AreSignatures sdk laws p0 p1 p2 p3 inner cells sigs
      → (length sigs ≡ length cells) × All (λ sig. length sig ≡ 65) sigs
  sizes_of inner [] [] h = (refl, tt)
  sizes_of inner (c ∷ cells) (g ∷ sigs) h =
      let (same, sizes) = sizes_of inner cells sigs h.1 in (ap suc same, (h.0.size, sizes))
  sizes_of inner [] (g ∷ sigs) h = absurd h
  sizes_of inner (c ∷ cells) [] h = absurd h

  -- The user has approved the transaction: the inputs `cells` wait for their signatures.
  pub record Approved (p4 : ℕ) (cells sigs rest : List (List ℕ)) (s : Device sdk.Sha256)
      : Type 0 where
    pub begun : s.ctx.initialized ≡ true
    pub state : s.ctx.txn_state ≡ txn_compute_sigs
    pub path : s.bip44_path ≡ p0 ∷ p1 ∷ p2 ∷ p3 ∷ p4 ∷ []
    pub number : s.ctx.txn.in_num ≡ length cells
    pub few : length cells < 256
    pub entries : s.ctx.txn.sig_input ≡ cells ++ rest
    pub signatures : AreSignatures sdk laws p0 p1 p2 p3 s.ctx.txn.inner_hash cells sigs
    pub room : 197 ≤ length s.apdu_buffer
    pub message : 8 ≤ length s.info_text

  -- Where a transaction in progress is to be signed (the path has its five words, in_num, below
  -- 256, is the number of inputs stored, each input has the signature of 65 bytes that the key of
  -- the path with the input's own address index makes of the SHA-256 of inner_hash and the input's
  -- id, the APDU buffer has 197 bytes and the array of the message 8), and a host sends packets
  -- (p1 = 1) that fit the buffer, as many as there are groups of three inputs, the first of them
  -- computes all signatures, and the host receives one message for each packet: the next three
  -- signatures, or those that are left, one behind the other, and 90 00.
  pub run_rounds-signatures :
      (p4 : ℕ) (cells sigs rest : List (List ℕ)) (a : Ask) (asks : List Ask) (s : Device sdk.Sha256)
      → Approved p4 cells sigs rest s
      → All (λ b. 5 + length b.body ≤ length s.apdu_buffer) (a ∷ asks)
      → length cells ≤ 3 * length (a ∷ asks)
      → 3 * length (a ∷ asks) < length cells + 3
      → messages (run_rounds sdk (map ask_packet (a ∷ asks)) s)
        ≡ some (s.sent ++ batches (length (a ∷ asks)) sigs)
  run_rounds-signatures p4 cells sigs rest a asks s v fit enough needed =
      ap (λ o. messages (bind o (λ _. run_rounds sdk (map ask_packet asks))))
        (main_round-computes sdk s (sigs ++ rest) a v.begun v.state fit.0 (
          elem_compute_sigs-signs sdk laws p0 p1 p2 p3 (receiving 5 a.lc (started (ask_packet a) s))
            p4 cells sigs rest v.path v.number v.entries v.signatures))
      ∙ run_rounds-batches sdk (length s.apdu_buffer) (a ∷ asks) [] sigs rest
          (signed (sigs ++ rest) s)
          (record {
            begun = v.begun;
            state = refl;
            cells = refl;
            here = refl;
            sizes = sizes.1;
            few = omega (arith, v.number, v.few);
            all = omega (arith, v.number, sizes.0);
            room = v.room;
            message = v.message;
          })
          refl fit (omega (arith, sizes.0)) (omega (arith, sizes.0))
    where
      sizes : (length sigs ≡ length cells) × All (λ sig. length sig ≡ 65) sigs
      sizes = sizes_of s.ctx.txn.inner_hash cells sigs v.signatures
