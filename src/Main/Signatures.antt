-- ===== src/Main/Signatures.antt =====
-- What the host receives in the last packets of a transaction: the signatures.
use mathlib.Core.Bool.{not}
use ledger_nano.Base.{
  ℕ, suc, ◌+◌, ◌*◌, ◌%◌, ◌^◌, ◌≤◌, ◌<◌, ◌≡◌, refl, ap, ◌∙◌, List, [], ◌∷◌, ◌++◌, some, true, false,
  ◌&&◌, ◌||◌, ltb, ◌==◌, arith, length, take, drop, All, write_bytes_in, read_bytes_in,
  length-append, length-drop, length-take, take-append, take-append_more, length-patch, ne→==,
}
use ledger_nano.Base.Exec.{ok, throw, ◌>>=◌, ◌>>◌}
use ledger_nano.Sdk.{Sdk}
use ledger_nano.Device.{
  Device, state_code, txn_start_out, txn_compute_sigs, txn_ret_sigs, txn_finished, bagl_info_text,
}
use ledger_nano.Txn.Sigs.{elem_ret_sigs}
use ledger_nano.Txn.Loop.{elem, next_elem, txn_loop, txn_next_elem}
use ledger_nano.Txn.Replied.{joined, length-joined, answered, elem_ret_sigs-finished}
use ledger_nano.Apdu.SignTxn.{set_initialized, sign_txn_reply, reads_at_once, handle_sign_txn}
use ledger_nano.Ui.Screens.{show_message, ux_display, success}
use ledger_nano.Apdu.Exchange.{io_exchange, io_exchange_with_code, io_async_exchange_ok}
use ledger_nano.Main.{cla, lookup_handler, run_handler, dispatch, flush, main_round}
use ledger_nano.Main.Replies.{messages}
use ledger_nano.Main.Keys.{started}

module _ {Sha : Type 0} where
  -- A reply with success: the first `tx` bytes of the buffer and 90 00.
  abbrev pub replied : Device Sha → Device Sha
  replied s = record s {
    apdu_buffer = take s.tx s.apdu_buffer ++ ((0x90 ∷ 0 ∷ []) ++ drop (s.tx + 2) s.apdu_buffer);
    sent = s.sent ++ (take s.tx s.apdu_buffer ++ (0x90 ∷ 0 ∷ [])) ∷ [];
  }

  io_exchange_with_code-replied :
      (s : Device Sha)
      → s.tx + 2 ≤ length s.apdu_buffer
      → io_exchange_with_code 0x9000 s.tx s ≡ ok tt (replied s)
  unfolding io_exchange_with_code io_exchange
  io_exchange_with_code-replied s fits =
      rw
        (
          ◌>>=◌,
          write_bytes_in s.apdu_buffer s.tx (0x90 ∷ 0 ∷ []) fits,
          read_bytes_in whole 0 (s.tx + 2)
              (omega (arith, length-patch s.apdu_buffer s.tx (0x90 ∷ 0 ∷ []) fits)),
        )
        (ap (λ b. ok tt (record s { apdu_buffer = whole; sent = s.sent ++ b ∷ [] }))
          (take-append_more (s.tx + 2) 2 (take s.tx s.apdu_buffer)
            ((0x90 ∷ 0 ∷ []) ++ drop (s.tx + 2) s.apdu_buffer)
            (omega (arith, length-take s.tx s.apdu_buffer))))
    where
      whole : List ℕ
      whole = take s.tx s.apdu_buffer ++ ((0x90 ∷ 0 ∷ []) ++ drop (s.tx + 2) s.apdu_buffer)

  pub io_async_exchange_ok-replied :
      (s : Device Sha)
      → s.tx < 256
      → s.tx + 2 ≤ length s.apdu_buffer
      → io_async_exchange_ok s ≡ ok tt (replied s)
  unfolding io_async_exchange_ok
  io_async_exchange_ok-replied s low fits =
      let e : s.tx % 2 ^ 16 ≡ s.tx = omega arith in
      ap (λ n. io_exchange_with_code 0x9000 n s) e ∙ io_exchange_with_code-replied s fits

  -- The message that a transaction is signed.
  abbrev told : Device Sha → Device Sha
  told s = record s {
    info_text = take 0 s.info_text ++ (take 8 success ++ drop 8 s.info_text);
    screen = bagl_info_text;
  }

  show_message-told :
      (s : Device Sha) → 8 ≤ length s.info_text → show_message success 8 s ≡ ok tt (told s)
  unfolding show_message ux_display
  show_message-told s h = rw (
    ◌>>=◌,
    ◌>>◌,
    read_bytes_in success 0 8 (omega arith),
    write_bytes_in s.info_text 0 (take 8 success) (omega arith),
  )

module _ (sdk : Sdk) where
  txn_loop-throws :
      (s t : Device sdk.Sha256) (fuel e : ℕ)
      → next_elem sdk s ≡ throw e t
      → txn_loop sdk (suc fuel) s ≡ ok e t
  unfolding txn_loop
  txn_loop-throws s t fuel e h = rw (txn_loop, h)

  next_elem-returns :
      (s : Device sdk.Sha256)
      → s.ctx.txn_state ≡ txn_ret_sigs
      → next_elem sdk s ≡ elem_ret_sigs sdk s
  unfolding next_elem elem
  next_elem-returns s at = ap (λ st. elem sdk st s) at

  pub txn_next_elem-returns :
      (s t : Device sdk.Sha256) (e : ℕ)
      → s.ctx.txn_state ≡ txn_ret_sigs
      → elem_ret_sigs sdk s ≡ throw e t
      → txn_next_elem sdk s ≡ ok e t
  unfolding txn_next_elem
  txn_next_elem-returns s t e at h =
      let n : s.ctx.data_length + 1 ≡ suc s.ctx.data_length = omega arith in
      ap (λ k. txn_loop sdk k s) n
      ∙ txn_loop-throws s t s.ctx.data_length e (next_elem-returns s at ∙ h)

  -- `handleSignTxn` on a packet of a transaction that returns its signatures.
  handle_sign_txn-finished :
      (s t : Device sdk.Sha256) (data_buffer data_length : ℕ)
      → s.ctx.initialized ≡ true
      → s.ctx.txn_state ≡ txn_ret_sigs
      → elem_ret_sigs sdk (record s {
        tx = 0;
        ctx = record s.ctx { data_buffer = data_buffer; data_length = data_length };
      })
        ≡ throw txn_finished t
      → t.tx < 256
      → t.tx + 2 ≤ length t.apdu_buffer
      → 8 ≤ length t.info_text
      → handle_sign_txn sdk 1 data_buffer data_length s
        ≡ ok tt (record (told (replied (record t { ctx = record t.ctx { initialized = false } }))) {
          asynch_reply = true;
        })
  unfolding handle_sign_txn reads_at_once sign_txn_reply set_initialized
  handle_sign_txn-finished s t data_buffer data_length begun at ends low fits room =
      let d : Device sdk.Sha256 = record s {
        tx = 0;
        ctx = record s.ctx { data_buffer = data_buffer; data_length = data_length };
      } in
      rw (
        ◌>>=◌,
        ◌>>◌,
        ap (λ b. not b && (1 == 0)) begun,
        ap (λ b. b && (1 == 1)) begun,
        ap
            (λ st.
              ltb (state_code st) (state_code txn_start_out)
              || (state_code st == state_code txn_ret_sigs
                  || state_code st == state_code txn_compute_sigs))
            at,
        ◌>>=◌,
        txn_next_elem-returns d t txn_finished at ends,
        io_async_exchange_ok-replied (record t { ctx = record t.ctx { initialized = false } }) low
            fits,
        show_message-told (replied (record t { ctx = record t.ctx { initialized = false } })) room,
      )

module _ (sdk : Sdk) (s : Device sdk.Sha256) (p2 lc : ℕ) (body : List ℕ)
    (done sigs more : List (List ℕ)) where
  abbrev packet : List ℕ
  packet = cla ∷ 0x10 ∷ 1 ∷ p2 ∷ lc ∷ body

  -- The device when the signatures are written.
  abbrev returning : Device sdk.Sha256
  returning = record (started packet s) {
    tx = 0;
    ctx = record s.ctx { data_buffer = 5; data_length = lc };
  }

  abbrev last_device : Device sdk.Sha256
  last_device = record (answered sdk returning sigs) {
    ctx = record (answered sdk returning sigs).ctx { initialized = false };
  }

  -- Where a transaction returns its signatures and at most three are left, a packet of it (p1 = 1)
  -- that fits the APDU buffer is answered with these signatures, one behind the other, and 90 00,
  -- one message, if the buffer has 197 bytes and the array of the message 8.
  pub main_round-signatures :
      s.ctx.initialized ≡ true
      → s.ctx.txn_state ≡ txn_ret_sigs
      → s.ctx.txn.sig_input ≡ done ++ (sigs ++ more)
      → s.ctx.curr_obj ≡ length done
      → All (λ sig. length sig ≡ 65) sigs
      → s.ctx.txn.in_num < 256
      → length sigs ≤ 3
      → s.ctx.txn.in_num ≡ s.ctx.curr_obj + length sigs
      → 197 ≤ length s.apdu_buffer
      → 5 + length body ≤ length s.apdu_buffer
      → 8 ≤ length s.info_text
      → messages (main_round sdk packet s) ≡ some (s.sent ++ (joined sigs ++ (0x90 ∷ 0 ∷ [])) ∷ [])
  unfolding main_round dispatch lookup_handler run_handler flush
  main_round-signatures begun at cells here sizes few three all room fits message =
      rw
        (
          ◌>>=◌,
          ◌>>◌,
          write_bytes_in s.apdu_buffer 0 packet (omega (arith, fits)),
          ne→== (length packet) 0 (omega arith),
          handle_sign_txn-finished sdk (started packet s) last_device 5 lc begun at
              (elem_ret_sigs-finished sdk returning done sigs more refl cells here sizes few
                (omega (arith, whole, room)) three all)
              low (omega (arith, answer_fits)) message,
        )
        (ap (λ b. some (s.sent ++ (b ++ (0x90 ∷ 0 ∷ [])) ∷ []))
          (take-append (length (joined sigs)) (joined sigs) _ refl))
    where
      whole : length (started packet s).apdu_buffer ≡ length s.apdu_buffer
      whole = omega (
        arith,
        fits,
        length-append packet (drop (0 + length packet) s.apdu_buffer),
        length-drop (0 + length packet) s.apdu_buffer,
      )

      size : length (joined sigs) ≡ 65 * length sigs
      size = length-joined sdk s sigs sizes

      low : length (joined sigs) < 256
      low = omega (arith, size)

      answer_fits :
          length (joined sigs) + 2
          ≤ length (joined sigs ++ drop (65 * length sigs) (started packet s).apdu_buffer)
      answer_fits = omega (
        arith,
        length-append (joined sigs) (drop (65 * length sigs) (started packet s).apdu_buffer),
        length-drop (65 * length sigs) (started packet s).apdu_buffer,
        size,
        whole,
        room,
      )
