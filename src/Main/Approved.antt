-- ===== src/Main/Approved.antt =====
-- The right button on the transaction screen when every output of a transaction is approved.
use mathlib.Core.Path.{ap₂, subst}
use mathlib.Core.List.{append-nil}
use ledger_nano.Base.{
  ℕ, ◌+◌, ◌≤◌, ◌≡◌, refl, sym, ap, ◌∙◌, List, map, [], ◌∷◌, ◌++◌, true, arith, length, take, drop,
  write_bytes_in, read_bytes_in, take_all, take-append, length-take, length-patch, if◌then◌else◌,
}
use ledger_nano.Base.Exec.{Outcome, ok, pure, ◌>>=◌, ◌>>◌}
use ledger_nano.Sdk.{Sdk, SdkLaws}
use ledger_nano.Device.{Device, txn_start_in, txn_compute_sigs, txn_ready, put_ctx}
use ledger_nano.Txn.Loop.{txn_next_elem}
use ledger_nano.Txn.Stream.{stream}
use ledger_nano.Txn.Reader.{progress}
use ledger_nano.Txn.Scan.{scan, scanned}
use ledger_nano.Txn.Call.{CanRead, txn_next_elem-scan}
use ledger_nano.Txn.Serial.{Input, Output, txn_in_out, serialized_input}
use ledger_nano.Txn.Whole.{hashed_txn, IsTxn, IsFresh, ReadTxn}
use ledger_nano.Txn.Session.{Session, Session-ReadTxn}
use ledger_nano.Ui.Events.{released_right}
use ledger_nano.Ui.Screens.{transaction_line, processing_line}
use ledger_nano.Apdu.Button.{
  start_txn, reply_inner_hash, approve_reply, approve, transaction_screen_button,
}
use ledger_nano.Main.Signatures.{replied, io_async_exchange_ok-replied}

module _ (sdk : Sdk) where
  start_txn-begun : (s : Device sdk.Sha256) → s.ctx.initialized ≡ true → start_txn sdk s ≡ ok tt s
  unfolding start_txn
  start_txn-begun s begun =
      ap
        (λ b.
          (if b
              then pure tt
              else put_ctx (record s.ctx {
                hash = sdk.sha256_init;
                txn_state = txn_start_in;
                initialized = true;
                offset = 0;
              }))
            s)
        begun

  -- What `case TXN_READY` leaves.
  abbrev hashed : Device sdk.Sha256 → Device sdk.Sha256
  hashed s =
      let digest : List ℕ = take 32 (drop 0 s.ctx.txn.inner_hash) in
      record s {
        apdu_buffer = take 0 s.apdu_buffer ++ (digest ++ drop (0 + length digest) s.apdu_buffer);
        tx = s.tx + 32;
        ctx = record s.ctx { txn_state = txn_compute_sigs };
      }

  -- The message that carries the hash of the transaction.
  pub record SendsHash (s : Device sdk.Sha256) (inputs : List Input) (digest : List ℕ)
      (result : Outcome (Device sdk.Sha256) (Unit {0})) : Type 0 where
    pub after : Device sdk.Sha256
    pub returns : result ≡ ok tt after
    pub sent : after.sent ≡ s.sent ++ (digest ++ (0x90 ∷ 0 ∷ [])) ∷ []
    pub txn_state : after.ctx.txn_state ≡ txn_compute_sigs
    pub stored :
        map (take 36) (take (length inputs) after.ctx.txn.sig_input) ≡ map serialized_input inputs
    pub number : after.ctx.txn.in_num ≡ length inputs
    pub inner_hash : after.ctx.txn.inner_hash ≡ digest
    pub begun : after.ctx.initialized ≡ s.ctx.initialized
    pub path : after.bip44_path ≡ s.bip44_path

  reply_inner_hash-SendsHash :
      (s : Device sdk.Sha256) (inputs : List Input)
      → map (take 36) (take (length inputs) s.ctx.txn.sig_input) ≡ map serialized_input inputs
      → s.ctx.txn.in_num ≡ length inputs
      → length s.ctx.txn.inner_hash ≡ 32
      → s.tx ≡ 0
      → 34 ≤ length s.apdu_buffer
      → SendsHash s inputs s.ctx.txn.inner_hash (reply_inner_hash sdk s)
  unfolding reply_inner_hash
  reply_inner_hash-SendsHash s inputs stored number size none room = record {
    after = replied (hashed s);
    returns = rw (
      ◌>>=◌,
      ◌>>◌,
      read_bytes_in s.ctx.txn.inner_hash 0 32 (omega (arith, size)),
      write_bytes_in s.apdu_buffer 0 digest (omega (arith, digest_size)),
      io_async_exchange_ok-replied (hashed s) (omega arith) (omega (arith, whole_size)),
    );
    sent =
        ap (λ b. s.sent ++ (b ++ (0x90 ∷ 0 ∷ [])) ∷ [])
          (take-append (s.tx + 32) digest (drop (0 + length digest) s.apdu_buffer)
              (omega (arith, digest_size))
            ∙ take_all 32 s.ctx.txn.inner_hash (omega (arith, size)));
    txn_state = refl;
    stored = stored;
    number = number;
    inner_hash = refl;
    begun = refl;
    path = refl;
  }
    where
      digest : List ℕ
      digest = take 32 (drop 0 s.ctx.txn.inner_hash)

      digest_size : length digest ≡ 32
      digest_size = omega (arith, length-take 32 s.ctx.txn.inner_hash, size)

      whole_size : length (hashed s).apdu_buffer ≡ length s.apdu_buffer
      whole_size = length-patch s.apdu_buffer 0 digest (omega (arith, digest_size))

module _ (sdk : Sdk) (laws : SdkLaws sdk) (s t : Device sdk.Sha256)
    (fresh : IsFresh sdk laws (progress s)) (c : CanRead t) (begun : t.ctx.initialized ≡ true)
    (none : t.tx ≡ 0) (room : 34 ≤ length t.apdu_buffer) (line_1 : 12 ≤ length t.custom_text_line_1)
    (line_2 : 14 ≤ length t.custom_text_line_2) where
  -- The device when the transaction is read on.
  abbrev processing : Device sdk.Sha256
  processing = record t {
    custom_text_line_1 =
        take 0 t.custom_text_line_1 ++ (take 12 transaction_line ++ drop 12 t.custom_text_line_1);
    custom_text_line_2 =
        take 0 t.custom_text_line_2 ++ (take 14 processing_line ++ drop 14 t.custom_text_line_2);
  }

  approve-steps :
      transaction_screen_button sdk released_right t
      ≡ (txn_next_elem sdk >>= approve_reply sdk) processing
  unfolding transaction_screen_button approve
  approve-steps = rw (
    ◌>>=◌,
    ◌>>◌,
    read_bytes_in transaction_line 0 12 (omega arith),
    write_bytes_in t.custom_text_line_1 0 (take 12 transaction_line) line_1,
    read_bytes_in processing_line 0 14 (omega arith),
    write_bytes_in t.custom_text_line_2 0 (take 14 processing_line) line_2,
    start_txn-begun sdk processing begun,
  )

  CanRead-processing : CanRead processing
  CanRead-processing = record {
    sound = record {
      buffer_size = c.sound.buffer_size;
      in_apdu = c.sound.in_apdu;
      short = c.sound.short;
      part = c.sound.part;
    };
    ready = c.ready;
    safe = c.safe;
    part = c.part;
  }

  module _ (inputs : List Input) (outputs : List Output) (u : Device sdk.Sha256)
      (call : txn_next_elem sdk processing ≡ ok txn_ready u)
      (read : ReadTxn sdk laws inputs outputs []
        (scanned sdk txn_ready (progress u) (stream u))) where
    -- Nothing but the transaction was changed, and it is still in progress.
    frame : (u ≡ record processing { ctx = u.ctx }) × (u.ctx.initialized ≡ t.ctx.initialized)
    frame =
        let r = txn_next_elem-scan sdk processing CanRead-processing in
        let same : ok (scan sdk (progress processing) (stream processing)).code r.after
            ≡ ok txn_ready u =
          sym r.returns ∙ call in
        let after : r.after ≡ u = cc same in
        subst
          (λ w. (w ≡ record processing { ctx = w.ctx }) × (w.ctx.initialized ≡ t.ctx.initialized))
          after (r.frame, r.started)

    read-SendsHash :
        SendsHash sdk t inputs
          (laws.sha256 (hashed_txn inputs outputs))
          ((txn_next_elem sdk >>= approve_reply sdk) processing)
    unfolding approve_reply
    read-SendsHash = record {
      after = h.after;
      returns = rw (◌>>=◌, call) h.returns;
      sent =
          h.sent
          ∙ ap₂ (λ old digest. old ++ (digest ++ (0x90 ∷ 0 ∷ [])) ∷ []) (ap (λ w. w.sent) frame.0)
              read.inner_hash;
      txn_state = h.txn_state;
      stored = h.stored;
      number = h.number;
      inner_hash = h.inner_hash ∙ read.inner_hash;
      begun = h.begun ∙ frame.1;
      path = h.path ∙ ap (λ w. w.bip44_path) frame.0;
    }
      where
        h : SendsHash sdk u inputs u.ctx.txn.inner_hash (reply_inner_hash sdk u)
        h =
            let whole : length u.apdu_buffer ≡ length t.apdu_buffer =
              ap (λ w. length w.apdu_buffer) frame.0 in
            reply_inner_hash-SendsHash sdk u inputs read.stored read.in_num
              (ap length read.inner_hash ∙ laws.sha256_size (hashed_txn inputs outputs))
              (ap (λ w. w.tx) frame.0 ∙ none) (omega (arith, whole, room))

  -- Where a host has sent the bytes of a transaction (1 to 20 inputs, 1 to 255 outputs, each of
  -- its fixed size) cut into packets in any way to a reader that started one (TXN_START_IN,
  -- nothing hashed, 20 entries), each call of txn_next_elem was made on a device that could read
  -- on and returned that it wants bytes or that an output is complete, the latter once for every
  -- output, the transaction is in progress, the device can read on, tx is 0, the APDU buffer has
  -- 34 bytes and the lines 12 and 14, the right button returns and sends the host one message, the
  -- SHA-256 of the transaction's ids and outputs and 90 00; behind it the state is that of
  -- signing, in_num is the number of inputs, the first in_num entries hold the transaction's
  -- inputs, inner_hash is that hash, and the path and initialized are what they were.
  pub transaction_screen_button-SendsHash :
      (inputs : List Input) (outputs : List Output)
      → IsTxn inputs outputs
      → Session sdk s (length outputs) (txn_in_out inputs outputs) t
      → SendsHash sdk t inputs
          (laws.sha256 (hashed_txn inputs outputs))
          (transaction_screen_button sdk released_right t)
  transaction_screen_button-SendsHash inputs outputs v d =
      let session =
        Session.receive (length outputs) (txn_in_out inputs outputs) [] (txn_in_out inputs outputs)
          t processing d refl (sym (append-nil (stream t)))
          (sym (append-nil (txn_in_out inputs outputs))) in
      let (u, call, read) =
        Session-ReadTxn sdk laws s processing fresh CanRead-processing inputs outputs v session in
      subst (λ o. SendsHash sdk t inputs (laws.sha256 (hashed_txn inputs outputs)) o)
        (sym approve-steps) (read-SendsHash inputs outputs u call read)
