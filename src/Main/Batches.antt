-- ===== src/Main/Batches.antt =====
-- All the signatures of a transaction: the host asks until it has them.
use mathlib.Core.Bool.{not}
use mathlib.Core.Path.{subst}
use mathlib.Core.List.{append_assoc, append-nil}
use ledger_nano.Base.{
  ℕ, zero, suc, ◌+◌, ◌*◌, ◌≤◌, ◌<◌, ◌≡◌, refl, sym, ap, ◌∙◌, List, [], ◌∷◌, ◌++◌, some, true, ◌&&◌,
  ◌||◌, ltb, ◌==◌, arith, length, take, drop, map, All, write_bytes_in, length-append, length-drop,
  length-take, length-patch, take-append, take-append-drop, take_all, ne→==,
}
use ledger_nano.Base.Exec.{Outcome, ok, throw, fault, stuck, Exec, pure, bind, ◌>>=◌, ◌>>◌}
use ledger_nano.Sdk.{Sdk}
use ledger_nano.Device.{
  Device, state_code, txn_start_out, txn_compute_sigs, txn_ret_sigs, txn_partial,
}
use ledger_nano.Txn.Sigs.{elem_ret_sigs}
use ledger_nano.Txn.Replied.{joined, length-joined, answered, elem_ret_sigs-partial}
use ledger_nano.Apdu.SignTxn.{sign_txn_reply, reads_at_once, handle_sign_txn}
use ledger_nano.Main.{cla, lookup_handler, run_handler, dispatch, flush, main_round}
use ledger_nano.Main.Replies.{messages}
use ledger_nano.Main.Keys.{started}
use ledger_nano.Main.Signatures.{
  replied, io_async_exchange_ok-replied, txn_next_elem-returns, main_round-signatures,
}

module _ (sdk : Sdk) where
  -- `handleSignTxn` on a packet that more signatures follow.
  handle_sign_txn-partial :
      (s t : Device sdk.Sha256) (data_buffer data_length : ℕ)
      → s.ctx.initialized ≡ true
      → s.ctx.txn_state ≡ txn_ret_sigs
      → elem_ret_sigs sdk (record s {
        tx = 0;
        ctx = record s.ctx { data_buffer = data_buffer; data_length = data_length };
      })
        ≡ throw txn_partial t
      → t.tx < 256
      → t.tx + 2 ≤ length t.apdu_buffer
      → handle_sign_txn sdk 1 data_buffer data_length s
        ≡ ok tt (record (replied t) { asynch_reply = true })
  unfolding handle_sign_txn reads_at_once sign_txn_reply
  handle_sign_txn-partial s t data_buffer data_length begun at ends low fits =
      let d : Device sdk.Sha256 = record s {
        tx = 0;
        ctx = record s.ctx { data_buffer = data_buffer; data_length = data_length };
      } in
      rw (
        ◌>>=◌,
        ◌>>◌,
        ap (λ b. not b && (1 == 0)) begun,
        ap (λ b. b && (1 == 1)) begun,
        ap
            (λ st.
              ltb (state_code st) (state_code txn_start_out)
              || (state_code st == state_code txn_ret_sigs
                  || state_code st == state_code txn_compute_sigs))
            at,
        ◌>>=◌,
        txn_next_elem-returns sdk d t txn_partial at ends,
        io_async_exchange_ok-replied t low fits,
      )

All-split :
    (P : List ℕ → Type 0) (front back : List (List ℕ))
    → All P (front ++ back)
    → All P front × All P back
All-split P [] back h = (tt, h)
All-split P (x ∷ front) back h =
    let (first, others) = All-split P front back h.1 in ((h.0, first), others)

-- A request for signatures (p1 = 1).
pub record Ask : Type 0 where
  pub p2 : ℕ
  pub lc : ℕ
  pub body : List ℕ

abbrev pub ask_packet : Ask → List ℕ
ask_packet a = cla ∷ 0x10 ∷ 1 ∷ a.p2 ∷ a.lc ∷ a.body

-- The answers to `n` requests: three signatures in each, as long as there are any.
abbrev pub batches : ℕ → List (List ℕ) → List (List ℕ)
batches zero sigs = []
batches (suc n) sigs = (joined (take 3 sigs) ++ (0x90 ∷ 0 ∷ [])) ∷ batches n (drop 3 sigs)

module _ (sdk : Sdk) where
  open sdk use {Sha256}

  abbrev pub run_rounds : List (List ℕ) → Exec (Device Sha256) (Unit {0})
  run_rounds [] = pure tt
  run_rounds (p ∷ ps) = main_round sdk p >> run_rounds ps

  -- The device returns the signatures `sigs`, behind `done`.
  pub record Returning (done sigs more : List (List ℕ)) (s : Device Sha256) : Type 0 where
    pub begun : s.ctx.initialized ≡ true
    pub state : s.ctx.txn_state ≡ txn_ret_sigs
    pub cells : s.ctx.txn.sig_input ≡ done ++ (sigs ++ more)
    pub here : s.ctx.curr_obj ≡ length done
    pub sizes : All (λ sig. length sig ≡ 65) sigs
    pub few : s.ctx.txn.in_num < 256
    pub all : s.ctx.txn.in_num ≡ s.ctx.curr_obj + length sigs
    pub room : 197 ≤ length s.apdu_buffer
    pub message : 8 ≤ length s.info_text

  module _ (s : Device Sha256) (a : Ask) (done three rest more : List (List ℕ)) where
    -- The device when the signatures are written.
    abbrev returning : Device Sha256
    returning = record (started (ask_packet a) s) {
      tx = 0;
      ctx = record s.ctx { data_buffer = 5; data_length = a.lc };
    }

    abbrev behind : Device Sha256
    behind = record (replied (answered sdk returning three)) { asynch_reply = true; tx = 0 }

    module _ (v : Returning done (three ++ rest) more s) (size : length three ≡ 3)
        (fits : 5 + length a.body ≤ length s.apdu_buffer) where
      three_sizes : All (λ sig. length sig ≡ 65) three
      three_sizes = (All-split (λ sig. length sig ≡ 65) three rest v.sizes).0

      joined_size : length (joined three) ≡ 195
      joined_size = omega (arith, length-joined sdk s three three_sizes, size)

      started_size : length (started (ask_packet a) s).apdu_buffer ≡ length s.apdu_buffer
      started_size = omega (
        arith,
        fits,
        length-append (ask_packet a) (drop (0 + length (ask_packet a)) s.apdu_buffer),
        length-drop (0 + length (ask_packet a)) s.apdu_buffer,
      )

      answered_size : length (answered sdk returning three).apdu_buffer ≡ length s.apdu_buffer
      answered_size = omega (
        arith,
        length-append (joined three)
            (drop (65 * length three) (started (ask_packet a) s).apdu_buffer),
        length-drop (65 * length three) (started (ask_packet a) s).apdu_buffer,
        joined_size,
        size,
        started_size,
        v.room,
      )

      behind_size : length behind.apdu_buffer ≡ length s.apdu_buffer
      behind_size =
          length-patch (answered sdk returning three).apdu_buffer (length (joined three))
            (0x90 ∷ 0 ∷ []) (omega (arith, answered_size, joined_size, v.room))
          ∙ answered_size

      -- A round that more signatures follow.
      main_round-partial : 0 < length rest → main_round sdk (ask_packet a) s ≡ ok tt behind
      unfolding main_round dispatch lookup_handler run_handler flush
      main_round-partial left = rw (
        ◌>>=◌,
        ◌>>◌,
        write_bytes_in s.apdu_buffer 0 (ask_packet a) (omega (arith, fits)),
        ne→== (length (ask_packet a)) 0 (omega arith),
        handle_sign_txn-partial sdk (started (ask_packet a) s) (answered sdk returning three) 5 a.lc
            v.begun v.state
            (elem_ret_sigs-partial sdk returning done three (rest ++ more) refl
              (v.cells ∙ ap (λ xs. done ++ xs) (append_assoc three rest more)) v.here three_sizes
              v.few (omega (arith, started_size, v.room)) size
              (omega (arith, v.all, length-append three rest)))
            (omega (arith, joined_size)) (omega (arith, answered_size, joined_size, v.room)),
      )

      behind-sent : behind.sent ≡ s.sent ++ (joined three ++ (0x90 ∷ 0 ∷ [])) ∷ []
      behind-sent =
          ap (λ b. s.sent ++ (b ++ (0x90 ∷ 0 ∷ [])) ∷ [])
            (take-append (length (joined three)) (joined three) _ refl)

      behind-Returning : Returning (done ++ three) rest more behind
      behind-Returning = record {
        begun = v.begun;
        state = v.state;
        cells =
            v.cells
            ∙ ap (λ xs. done ++ xs) (append_assoc three rest more)
            ∙ sym (append_assoc done three (rest ++ more));
        here = omega (arith, v.here, length-append done three);
        sizes = (All-split (λ sig. length sig ≡ 65) three rest v.sizes).1;
        few = v.few;
        all = omega (arith, v.all, length-append three rest);
        room = omega (arith, behind_size, v.room);
        message = v.message;
      }

  messages-pure :
      (o : Outcome (Device Sha256) (Unit {0})) → messages (bind o (λ _. pure tt)) ≡ messages o
  messages-pure (ok u t) = refl
  messages-pure (throw e t) = refl
  messages-pure fault = refl
  messages-pure stuck = refl

  -- Where signatures are returned, each request is answered with the next three of them.
  pub run_rounds-batches :
      (room : ℕ) (asks : List Ask) (done sigs more : List (List ℕ)) (s : Device Sha256)
      → Returning done sigs more s
      → length s.apdu_buffer ≡ room
      → All (λ a. 5 + length a.body ≤ room) asks
      → length sigs ≤ 3 * length asks
      → 3 * length asks < length sigs + 3
      → messages (run_rounds (map ask_packet asks) s) ≡ some (s.sent ++ batches (length asks) sigs)
  run_rounds-batches room [] done sigs more s v same fit enough needed =
      ap some (sym (append-nil s.sent))
  run_rounds-batches room (a ∷ []) done sigs more s v same fit enough needed =
      messages-pure (main_round sdk (ask_packet a) s)
      ∙ main_round-signatures sdk s a.p2 a.lc a.body done sigs more v.begun v.state v.cells v.here
          v.sizes v.few (omega arith) v.all v.room (omega (arith, fit.0, same)) v.message
      ∙ ap (λ xs. some (s.sent ++ (joined xs ++ (0x90 ∷ 0 ∷ [])) ∷ []))
          (sym (take_all 3 sigs (omega arith)))
  run_rounds-batches room (a ∷ b ∷ asks) done sigs more s v same fit enough needed =
      ap (λ o. messages (bind o (λ _. run_rounds (map ask_packet (b ∷ asks)))))
        (main_round-partial s a done three rest more w size (omega (arith, fit.0, same)) left)
      ∙ run_rounds-batches room (b ∷ asks) (done ++ three) rest more next
          (behind-Returning s a done three rest more w size (omega (arith, fit.0, same)))
          (behind_size s a done three rest more w size (omega (arith, fit.0, same)) ∙ same) fit.1
          (omega (arith, rest_size)) (omega (arith, rest_size))
      ∙ ap some (
          ap (λ xs. xs ++ batches (suc (length asks)) rest)
            (behind-sent s a done three rest more w size (omega (arith, fit.0, same)))
          ∙ append_assoc s.sent ((joined three ++ (0x90 ∷ 0 ∷ [])) ∷ [])
              (batches (suc (length asks)) rest))
    where
      three : List (List ℕ)
      three = take 3 sigs

      rest : List (List ℕ)
      rest = drop 3 sigs

      size : length three ≡ 3
      size = omega (arith, length-take 3 sigs)

      rest_size : length rest + 3 ≡ length sigs
      rest_size = omega (arith, length-drop 3 sigs)

      left : 0 < length rest
      left = omega (arith, rest_size)

      w : Returning done (three ++ rest) more s
      w = subst (λ xs. Returning done xs more s) (sym (take-append-drop 3 sigs)) v

      next : Device Sha256
      next = behind s a done three rest more
