-- ===== src/Main/Keys.antt =====
-- What the host receives for the handlers that answer at once: the version, a public key, and the
-- refusal of a path.
use mathlib.Core.Path.{ap₂}
use ledger_nano.Base.{
  ℕ, ◌+◌, ◌/◌, ◌%◌, ◌^◌, ◌≤◌, ◌≡◌, refl, ap, ◌∙◌, List, [], ◌∷◌, ◌++◌, false, some, length, take,
  drop, write_bytes_in, read_bytes_in, arith, ne→==, length-append, length-drop, take-append,
  take_all, read_bytes, IsU32,
}
use ledger_nano.Base.Exec.{throw, ◌>>=◌}
use ledger_nano.Sdk.{Sdk}
use ledger_nano.Device.{Device}
use ledger_nano.Crypto.Bip44.{be4}
use ledger_nano.Apdu.Keys.{answer, handle_get_version}
use ledger_nano.Main.{
  cla, Handler, get_version, lookup_handler, status_word, run_handler, dispatch, main_round,
}
use ledger_nano.Main.Replies.{messages, report-flush}

-- The device when a handler starts.
abbrev pub started : {Sha : Type 0} → List ℕ → Device Sha → Device Sha
started packet s = record s {
  apdu_buffer = packet ++ drop (0 + length packet) s.apdu_buffer;
  tx = 0;
  asynch_reply = false;
}

module _ (sdk : Sdk) (s : Device sdk.Sha256) (ins p1 p2 lc : ℕ) (body : List ℕ) where
  abbrev packet : List ℕ
  packet = cla ∷ ins ∷ p1 ∷ p2 ∷ lc ∷ body

  -- A handler that ends with an exception: its reply and the status word are what is sent.
  main_round-throws :
      (h : Handler) (e : ℕ) (t : Device sdk.Sha256)
      → lookup_handler ins ≡ some h
      → 5 + length body ≤ length s.apdu_buffer
      → run_handler sdk h p1 lc (started packet s) ≡ throw e t
      → t.asynch_reply ≡ false
      → t.tx + 2 ≤ length t.apdu_buffer
      → messages (main_round sdk packet s)
        ≡ some (
            t.sent
            ++ (take t.tx t.apdu_buffer ++ (status_word e / 2 ^ 8 ∷ status_word e % 256 ∷ [])) ∷ [])
  unfolding main_round dispatch
  main_round-throws h e t found fits ends waits room =
      rw
        (
          ◌>>=◌,
          write_bytes_in s.apdu_buffer 0 packet (omega (arith, fits)),
          ne→== (length packet) 0 (omega arith),
          found,
          ends,
        )
        (report-flush sdk t e waits room)

-- The answer of a handler: the bytes at the front of the buffer, and success.
unfoldable pub answered : {Sha : Type 0} → List ℕ → Device Sha → Device Sha
answered bytes d = record d {
  apdu_buffer = take 0 d.apdu_buffer ++ (bytes ++ drop (0 + length bytes) d.apdu_buffer);
  tx = 0 + length bytes;
}

-- The first `n` bytes of an array are the answer.
pub answer_part-throws :
    {Sha : Type 0} (array bytes : List ℕ) (n : ℕ) (d : Device Sha)
    → d.tx ≡ 0
    → n ≡ length bytes
    → n ≤ length d.apdu_buffer
    → read_bytes array 0 n ≡ some bytes
    → answer array n d ≡ throw 0x9000 (answered bytes d)
unfolding answer answered
answer_part-throws array bytes n d start size fits part =
    rw (◌>>=◌, part, write_bytes_in d.apdu_buffer 0 bytes (omega arith), start)
      (ap
        (λ k. throw 0x9000 (record d {
          apdu_buffer = take 0 d.apdu_buffer ++ (bytes ++ drop (0 + length bytes) d.apdu_buffer);
          tx = 0 + k;
        }))
        size)

pub answer-throws :
    {Sha : Type 0} (bytes : List ℕ) (n : ℕ) (d : Device Sha)
    → d.tx ≡ 0
    → n ≡ length bytes
    → n ≤ length d.apdu_buffer
    → answer bytes n d ≡ throw 0x9000 (answered bytes d)
answer-throws bytes n d start size fits =
    answer_part-throws bytes bytes n d start size fits
      (read_bytes_in bytes 0 n (omega arith) ∙ ap (λ b. some b) (take_all n bytes (omega arith)))

module _ (sdk : Sdk) (s : Device sdk.Sha256) (ins p1 p2 lc : ℕ) (body : List ℕ) where
  -- A handler that answers with `bytes`, on a device `d` that has sent nothing since the packet.
  pub main_round-answers :
      (h : Handler) (bytes : List ℕ) (d : Device sdk.Sha256)
      → lookup_handler ins ≡ some h
      → 5 + length body ≤ length s.apdu_buffer
      → length bytes + 2 ≤ length d.apdu_buffer
      → d.sent ≡ s.sent
      → d.asynch_reply ≡ false
      → run_handler sdk h p1 lc (started (packet sdk s ins p1 p2 lc body) s)
        ≡ throw 0x9000 (answered bytes d)
      → messages (main_round sdk (packet sdk s ins p1 p2 lc body) s)
        ≡ some (s.sent ++ (bytes ++ (0x90 ∷ 0 ∷ [])) ∷ [])
  unfolding answered status_word
  main_round-answers h bytes d found fits room same waits ends =
      main_round-throws sdk s ins p1 p2 lc body h 0x9000 (answered bytes d) found fits ends waits (
        omega (
          arith,
          length-append bytes (drop (0 + length bytes) d.apdu_buffer),
          length-drop (0 + length bytes) d.apdu_buffer,
        ))
      ∙ ap₂ (λ old reply. some (old ++ (reply ++ (0x90 ∷ 0 ∷ [])) ∷ [])) same
          (take-append (0 + length bytes) bytes (drop (0 + length bytes) d.apdu_buffer)
            (omega arith))

-- A request for the version that fits the APDU buffer is answered with the bytes 1, 0, 0 and 90
-- 00, one message.
main_round-get_version :
    (sdk : Sdk) (s : Device sdk.Sha256) (p1 p2 lc : ℕ) (body : List ℕ)
    → 5 + length body ≤ length s.apdu_buffer
    → messages (main_round sdk (cla ∷ 0x01 ∷ p1 ∷ p2 ∷ lc ∷ body) s)
      ≡ some (s.sent ++ (1 ∷ 0 ∷ 0 ∷ 0x90 ∷ 0 ∷ []) ∷ [])
unfolding lookup_handler run_handler handle_get_version
main_round-get_version sdk s p1 p2 lc body fits =
    main_round-answers sdk s 0x01 p1 p2 lc body get_version (1 ∷ 0 ∷ 0 ∷ [])
      (started (cla ∷ 0x01 ∷ p1 ∷ p2 ∷ lc ∷ body) s) refl fits (omega arith) refl refl
      (answer-throws (1 ∷ 0 ∷ 0 ∷ []) 3 (started (cla ∷ 0x01 ∷ p1 ∷ p2 ∷ lc ∷ body) s) refl refl
        (omega arith))

-- Requests with a path of five words, on a device whose path held the words `q0` to `q4`.
module _ (sdk : Sdk) (s : Device sdk.Sha256) (p1 p2 lc w0 w1 w2 w3 w4 : ℕ) (b0 : IsU32 w0)
    (b1 : IsU32 w1) (b2 : IsU32 w2) (b3 : IsU32 w3) (b4 : IsU32 w4) (rest : List ℕ)
    (q0 q1 q2 q3 q4 : ℕ) (path : s.bip44_path ≡ q0 ∷ q1 ∷ q2 ∷ q3 ∷ q4 ∷ [])
    (fits : 25 + length rest ≤ length s.apdu_buffer) where
  abbrev words : List ℕ
  words = be4 w0 (be4 w1 (be4 w2 (be4 w3 (be4 w4 rest))))

  abbrev behind : ℕ → List ℕ
  behind ins = rest ++ drop (0 + length (cla ∷ ins ∷ p1 ∷ p2 ∷ lc ∷ words)) s.apdu_buffer
