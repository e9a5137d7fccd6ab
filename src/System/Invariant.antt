-- ===== src/System/Invariant.antt =====
-- What is always true of the app's memory: the arrays have the sizes that src/ux.h,
-- src/ui/info_message.c and the APDU buffer of the SDK (`room` bytes) give them, and the buffer of
-- the transaction holds less than the element that it waits for.
use ledger_nano.Base.{
  ℕ, ◌<◌, ◌≡◌, List, Option, none, some, Bool, if◌then◌else◌, length, All, write_bytes,
}
use ledger_nano.Base.Exec.{Exec, Outcome, bind, defined, ◌>>=◌}
use ledger_nano.Base.Post.{Post, bind-Post, any-Post, write-Post, if-Post, Post-mono}
use ledger_nano.Device.{
  Device, SignTxnContext, TxnState, txn_start_in, txn_in, txn_start_out, txn_out, txn_compute_sigs,
  txn_ret_sigs, max_inputs,
}
use ledger_nano.Ui.Memory.Laws.{HasSizes}
use ledger_nano.System.Fits.{Fits}

-- The bytes that `buffer` holds are not yet the element that the state waits for.
abbrev pub Waits : TxnState → ℕ → Type 0
Waits txn_start_in offset = offset < 4
Waits txn_in offset = offset < 36
Waits txn_start_out offset = offset < 4
Waits txn_out offset = offset < 37
Waits txn_compute_sigs offset = Unit
Waits txn_ret_sigs offset = Unit

-- `signTxnContext`: 20 entries of 65 bytes, 37 bytes of buffer, and a digest of 32.
pub record Tracked {Sha : Type 0} (c : SignTxnContext Sha) : Type 0 where
  pub buffer : length c.buffer ≡ 37
  pub inner_hash : length c.txn.inner_hash ≡ 32
  pub entries : length c.txn.sig_input ≡ max_inputs
  pub cells : All (λ cell. length cell ≡ 65) c.txn.sig_input
  pub curr_obj : c.curr_obj < 256
  pub waits : Waits c.txn_state c.offset

module _ {Sha : Type 0} where
  abbrev pub Fitting : ℕ → Device Sha → Type 0
  Fitting room s =
      Fits room s.bip44_path s.address s.address_copy s.custom_text_line_1 s.custom_text_line_2
        s.current_output s.current_output_display s.out_address s.amount s.apdu_buffer s.info_text

  abbrev pub Invariant : ℕ → Device Sha → Type 0
  Invariant room s = Fitting room s × Tracked s.ctx

  -- No exception.
  abbrev pub Never : Device Sha → Type 0
  Never s = ⊥

  -- The action keeps the invariant, throws nothing, and does not run out of fuel.
  abbrev pub Keeps : {A : Type 0} → ℕ → Exec (Device Sha) A → Type 0
  Keeps room m = (s : Device Sha) → Invariant room s → Post (Invariant room) Never (m s)

  -- The action keeps the invariant, whether it returns or throws, and does not run out of fuel.
  abbrev pub Stays : {A : Type 0} → ℕ → Exec (Device Sha) A → Type 0
  Stays room m = (s : Device Sha) → Invariant room s → Post (Invariant room) (Invariant room) (m s)

  pub Keeps-Stays : {A : Type 0} {room : ℕ} (m : Exec (Device Sha) A) → Keeps room m → Stays room m
  Keeps-Stays m k s v = Post-mono (m s) (λ t w. w) (λ t never. absurd never) (k s v)

  -- The rules of Base/Post for the invariant.
  module _ (room : ℕ) where
    pub bind-Keeps :
        {A B : Type 0} (o : Outcome (Device Sha) A) (f : A → Exec (Device Sha) B)
        → Post (Invariant room) Never o
        → ((a : A) → Keeps room (f a))
        → Post (Invariant room) Never (bind o f)
    bind-Keeps o f h next = bind-Post (Invariant room) Never (Invariant room) o f h next

    pub any-Keeps :
        {A B : Type 0} (x : Option A) (k : A → Exec (Device Sha) B) (s : Device Sha)
        → ((a : A) → Post (Invariant room) Never (k a s))
        → Post (Invariant room) Never ((defined x >>= k) s)
    any-Keeps = any-Post (Invariant room) Never

    pub access-Keeps : {A : Type 0} (x : Option A) → Keeps room (defined x)
    access-Keeps none s v = tt
    access-Keeps (some a) s v = v

    pub write-Keeps :
        {B : Type 0} (mem : List ℕ) (off : ℕ) (bs : List ℕ) (k : List ℕ → Exec (Device Sha) B)
        (s : Device Sha)
        → ((new : List ℕ) → length new ≡ length mem → Post (Invariant room) Never (k new s))
        → Post (Invariant room) Never ((defined (write_bytes mem off bs) >>= k) s)
    write-Keeps = write-Post (Invariant room) Never

    pub if-Keeps :
        {A : Type 0} (b : Bool) (m n : Exec (Device Sha) A)
        → Keeps room m
        → Keeps room n
        → Keeps room (if b then m else n)
    if-Keeps b m n km kn s v = if-Post (Invariant room) Never b m n s (λ _. km s v) (λ _. kn s v)

  pub Fitting-HasSizes : {room : ℕ} (s : Device Sha) → Fitting room s → HasSizes s
  Fitting-HasSizes s f = record {
    words = f.path_size;
    address = f.address_size;
    address_copy = f.copy_size;
    line_1 = f.line_1_size;
    line_2 = f.line_2_size;
    current_output = f.current_size;
    display = f.display_size;
    out_address = f.out_size;
    amount = f.amount_size;
  }

  pub HasSizes-Fitting :
      {room : ℕ} (s : Device Sha)
      → HasSizes s
      → length s.apdu_buffer ≡ room
      → length s.info_text ≡ 16
      → Fitting room s
  HasSizes-Fitting s v apdu info = record {
    path_size = v.words;
    address_size = v.address;
    copy_size = v.address_copy;
    line_1_size = v.line_1;
    line_2_size = v.line_2;
    current_size = v.current_output;
    display_size = v.display;
    out_size = v.out_address;
    amount_size = v.amount;
    apdu_size = apdu;
    info_size = info;
  }
