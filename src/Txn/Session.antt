-- ===== src/Txn/Session.antt =====
-- A transaction as it comes: packets from the host and calls of `txn_next_elem`, in any order that
-- the app allows.
use mathlib.Core.Path.{ap₂, subst}
use mathlib.Core.List.{append_assoc, append-nil}
use ledger_nano.Base.{ℕ, suc, ◌≡◌, [], ◌∷◌, refl, sym, ap, ◌∙◌, List, ◌++◌, length}
use ledger_nano.Base.Exec.{ok}
use ledger_nano.Sdk.{Sdk, SdkLaws}
use ledger_nano.Device.{Device, txn_partial, txn_ready}
use ledger_nano.Txn.Loop.{txn_next_elem}
use ledger_nano.Txn.Stream.{stream}
use ledger_nano.Txn.Reader.{progress}
use ledger_nano.Txn.Scan.{scan, scanned}
use ledger_nano.Txn.Step.{Refines}
use ledger_nano.Txn.Call.{CanRead, txn_next_elem-scan}
use ledger_nano.Txn.Extends.{IsShown, scan-Extends, Extends-asks, Extends-shows}
use ledger_nano.Txn.Serial.{Input, Output, txn_in_out}
use ledger_nano.Txn.Shown.{nth_scan, ShowsOutput}
use ledger_nano.Txn.Whole.{IsTxn, IsFresh, ReadTxn, nth_scan-ReadTxn, nth_scan-ShowsOutput}

module _ (sdk : Sdk) where
  open sdk use {Sha256}

  -- `Session s k xs t`: from `s`, whose bytes are counted in, the app came to `t` after it was sent
  -- `xs` and the calls of `txn_next_elem`, each on a device that could read on, returned `k`
  -- outputs.
  pub data Session (s : Device Sha256) : ℕ → List ℕ → Device Sha256 → Type 0 where
    begin : Session s 0 (stream s) s
    -- A packet arrives: its bytes stand behind those that are held.
    receive :
        (k : ℕ) (xs ys zs : List ℕ) (t u : Device Sha256)
        → Session s k xs t
        → progress u ≡ progress t
        → stream u ≡ stream t ++ ys
        → zs ≡ xs ++ ys
        → Session s k zs u
    -- A call that asks for more.
    wait :
        (k : ℕ) (xs : List ℕ) (t u : Device Sha256)
        → Session s k xs t
        → CanRead t
        → txn_next_elem sdk t ≡ ok txn_partial u
        → Session s k xs u
    -- A call that returns a complete output, for the user's approval.
    show :
        (k e : ℕ) (xs : List ℕ) (t u : Device Sha256)
        → Session s k xs t
        → CanRead t
        → txn_next_elem sdk t ≡ ok e u
        → IsShown sdk e
        → Session s (suc k) xs u

  -- What a call that returned has read.
  pub record Reads (t u : Device Sha256) (e : ℕ) : Type 0 where
    pub code : (scan sdk (progress t) (stream t)).code ≡ e
    pub reached : progress u ≡ (scan sdk (progress t) (stream t)).reached
    pub rest : stream u ≡ (scan sdk (progress t) (stream t)).rest

  call-Reads :
      (t u : Device Sha256) (e : ℕ) → CanRead t → txn_next_elem sdk t ≡ ok e u → Reads t u e
  call-Reads t u e c call = record {
    code = cc same;
    reached = ap progress (sym after) ∙ r.reached;
    rest = ap stream (sym after) ∙ r.rest;
  }
    where
      r : Refines t (scan sdk (progress t) (stream t)) (txn_next_elem sdk t)
      r = txn_next_elem-scan sdk t c

      same : ok (scan sdk (progress t) (stream t)).code r.after ≡ ok e u
      same = sym r.returns ∙ call

      after : r.after ≡ u
      after = cc same

  -- The next call reads on as if all bytes had come at once, whatever bytes come yet.
  Session-scan :
      (s t : Device Sha256) (k : ℕ) (xs zs : List ℕ)
      → Session s k xs t
      → scan sdk (progress t) (stream t ++ zs) ≡ nth_scan sdk k (progress s) (xs ++ zs)
  unfolding nth_scan
  Session-scan s t k xs zs begin = refl
  Session-scan s u k xs zs (receive _ before ys _ t _ d same more all) =
      ap₂ (λ p bytes. scan sdk p bytes) same
        (ap (λ bytes. bytes ++ zs) more ∙ append_assoc (stream t) ys zs)
      ∙ Session-scan s t k before (ys ++ zs) d
      ∙ ap (λ bytes. nth_scan sdk k (progress s) bytes)
          (sym (ap (λ bytes. bytes ++ zs) all ∙ append_assoc before ys zs))
  Session-scan s u k xs zs (wait _ _ t _ d c call) =
      let r = call-Reads t u txn_partial c call in
      ap₂ (λ p bytes. scan sdk p (bytes ++ zs)) r.reached r.rest
      ∙ sym (Extends-asks sdk (scan-Extends sdk (progress t) (stream t) zs) r.code)
      ∙ Session-scan s t k xs zs d
  Session-scan s u (suc k) xs zs (show _ e _ t _ d c call shown) =
      let r = call-Reads t u e c call in
      let (reached, rest) =
        Extends-shows sdk (scan-Extends sdk (progress t) (stream t) zs)
          (subst (λ (n : ℕ). IsShown sdk n) (sym r.code) shown) in
      ap₂ (λ p bytes. scan sdk p bytes) (r.reached ∙ sym reached)
        (ap (λ bytes. bytes ++ zs) r.rest ∙ sym rest)
      ∙ ap (λ w. scan sdk w.reached w.rest) (Session-scan s t k xs zs d)

module _ (sdk : Sdk) (laws : SdkLaws sdk) (s t : Device sdk.Sha256)
    (fresh : IsFresh sdk laws (progress s)) (c : CanRead t) where
  -- On a reader that starts a transaction (TXN_START_IN, nothing hashed, 20 entries), a host sends
  -- the bytes txn_in_out of a transaction (1 to 20 inputs, 1 to 255 outputs, each of its fixed
  -- size) cut into packets in any way; each call of txn_next_elem so far was made on a device that
  -- could read on (CanRead: packet and buffers within their arrays, 1 to 20 inputs announced,
  -- nothing held that save_data_to_buffer would overwrite), and returned that it wants bytes
  -- (TXN_PARTIAL) or that an output is complete (TXN_PARTIAL_OUT or TXN_APPROVE_OUT): where a call
  -- has returned for every output and the device can read on, the next call returns TXN_READY,
  -- inner_hash is the SHA-256 of the transaction's ids and outputs, the first in_num entries hold
  -- the inputs, the state is that of signing, and no byte is left.
  pub Session-ReadTxn :
      (inputs : List Input) (outputs : List Output)
      → IsTxn inputs outputs
      → Session sdk s (length outputs) (txn_in_out inputs outputs) t
      → (u : Device sdk.Sha256) × (txn_next_elem sdk t ≡ ok txn_ready u)
        × ReadTxn sdk laws inputs outputs [] (scanned sdk txn_ready (progress u) (stream u))
  Session-ReadTxn inputs outputs v d = (
    r.after,
    r.returns ∙ ap (λ e. ok e r.after) read.ready,
    subst (λ w. ReadTxn sdk laws inputs outputs [] w)
        (λ i. scanned sdk (read.ready i) (sym r.reached i) (sym r.rest i)) read,
  )
    where
      r : Refines t (scan sdk (progress t) (stream t)) (txn_next_elem sdk t)
      r = txn_next_elem-scan sdk t c

      read : ReadTxn sdk laws inputs outputs [] (scan sdk (progress t) (stream t))
      read =
          subst (λ w. ReadTxn sdk laws inputs outputs [] w)
            (sym (Session-scan sdk s t (length outputs) (txn_in_out inputs outputs) [] d)
              ∙ ap (λ bytes. scan sdk (progress t) bytes) (append-nil (stream t)))
            (nth_scan-ReadTxn sdk laws inputs (progress s) [] fresh outputs v)

  -- On a reader that starts a transaction (TXN_START_IN, nothing hashed, 20 entries), a host sends
  -- the bytes txn_in_out of a transaction (1 to 20 inputs, 1 to 255 outputs, each of its fixed
  -- size) cut into packets in any way, of which some have come; each call of txn_next_elem so far
  -- was made on a device that could read on (CanRead: packet and buffers within their arrays, 1 to
  -- 20 inputs announced, nothing held that save_data_to_buffer would overwrite), and returned that
  -- it wants bytes (TXN_PARTIAL) or that an output is complete (TXN_PARTIAL_OUT or
  -- TXN_APPROVE_OUT): where as many calls have returned an output as the transaction has in front
  -- of one, and the device can read on, a next call that returns TXN_PARTIAL_OUT or
  -- TXN_APPROVE_OUT has this output in cur_output, with its address, coins and hours, and its
  -- number in curr_obj.
  pub Session-ShowsOutput :
      (inputs : List Input) (before : List Output) (o : Output) (later : List Output)
      (xs zs : List ℕ) (u : Device sdk.Sha256) (e : ℕ)
      → IsTxn inputs (before ++ o ∷ later)
      → xs ++ zs ≡ txn_in_out inputs (before ++ o ∷ later)
      → Session sdk s (length before) xs t
      → txn_next_elem sdk t ≡ ok e u
      → IsShown sdk e
      → ShowsOutput sdk laws o (suc (length before)) (scanned sdk e (progress u) (stream u))
  Session-ShowsOutput inputs before o later xs zs u e v all d call shown =
      let r = call-Reads sdk t u e c call in
      let w : ShowsOutput sdk laws o (suc (length before))
          (scan sdk (progress t) (stream t ++ zs)) =
        subst (λ w. ShowsOutput sdk laws o (suc (length before)) w)
          (sym (
            Session-scan sdk s t (length before) xs zs d
            ∙ ap (λ bytes. nth_scan sdk (length before) (progress s) bytes)
                (all ∙ sym (append-nil _))))
          (nth_scan-ShowsOutput sdk laws inputs (progress s) [] fresh before o later v) in
      let (reached, rest) =
        Extends-shows sdk (scan-Extends sdk (progress t) (stream t) zs)
          (subst (λ (n : ℕ). IsShown sdk n) (sym r.code) shown) in
      record {
        code = shown;
        output = ap (λ p. p.txn.cur_output) (r.reached ∙ sym reached) ∙ w.output;
        counted = ap (λ p. p.curr_obj) (r.reached ∙ sym reached) ∙ w.counted;
      }
