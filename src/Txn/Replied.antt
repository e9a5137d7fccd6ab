-- ===== src/Txn/Replied.antt =====
-- TXN_RET_SIGS: the signatures that go into one answer.
use mathlib.Core.Path.{ap₂}
use mathlib.Core.List.{append_assoc, append-nil}
use ledger_nano.Base.{
  ℕ, zero, suc, ◌+◌, ◌-◌, ◌*◌, ◌≤◌, ◌<◌, ◌≡◌, refl, sym, ap, ◌∙◌, some, List, [], ◌∷◌, ◌++◌, arith,
  length, take, drop, All, get_elem?, write_bytes_in, length-append, length-drop, take-append,
  drop-drop, drop-append_more, false, true, lt→ltb, le→ltb, ◌==◌, ne→==, ==_iff,
}
use ledger_nano.Base.Exec.{ok, throw, ◌>>=◌}
use ledger_nano.Sdk.{Sdk}
use ledger_nano.Device.{Device, txn_partial, txn_finished}
use ledger_nano.Txn.Buffer.{next_obj}
use ledger_nano.Txn.Serial.{join}
use ledger_nano.Txn.Signing.{get_elem?-middle}
use ledger_nano.Txn.Sigs.{ret_loop, elem_ret_sigs}

abbrev pub joined : List (List ℕ) → List ℕ
joined sigs = join (λ x. x) sigs

module _ (sdk : Sdk) (s : Device sdk.Sha256) where
  -- `out` stands in the answer, and `free` behind it.
  abbrev answering : ℕ → List ℕ → List ℕ → Device sdk.Sha256
  answering curr out free = record s {
    apdu_buffer = out ++ free;
    tx = length out;
    ctx = record s.ctx { curr_obj = curr };
  }

  -- One signature.
  takes_one :
      (fuel curr : ℕ) (sig out free : List ℕ)
      → get_elem? s.ctx.txn.sig_input curr ≡ some sig
      → length sig ≡ 65
      → curr < s.ctx.txn.in_num
      → curr < 255
      → length out ≤ 190
      → 65 ≤ length free
      → ret_loop sdk (suc fuel) (answering curr out free)
        ≡ ret_loop sdk fuel (answering (suc curr) (out ++ sig) (drop 65 free))
  unfolding ret_loop
  takes_one fuel curr sig out free at size more below fits room =
      rw
        (
          ◌>>=◌,
          ne→== curr s.ctx.txn.in_num (omega arith),
          le→ltb 255 (length out + 65) (omega arith),
          at,
          write_bytes_in (out ++ free) (length out) sig (omega (arith, length-append out free)),
        )
        (λ i. ret_loop sdk fuel (record s {
          apdu_buffer = patch i;
          tx = longer i;
          ctx = record s.ctx { curr_obj = next i };
        }))
    where
      patch :
          take (length out) (out ++ free) ++ (sig ++ drop (length out + length sig) (out ++ free))
          ≡ (out ++ sig) ++ drop 65 free
      patch =
          ap₂ (λ xs ys. xs ++ (sig ++ ys)) (take-append (length out) out free refl)
            (drop-append_more (length out + length sig) 65 out free (omega (arith, size)))
          ∙ sym (append_assoc out sig (drop 65 free))

      longer : length out + 65 ≡ length (out ++ sig)
      longer = omega (arith, length-append out sig, size)

      next : next_obj curr ≡ suc curr
      next = omega arith

  -- Several, one behind the other.
  takes :
      (sigs more done : List (List ℕ)) (fuel fuel' curr : ℕ) (out free : List ℕ)
      → s.ctx.txn.sig_input ≡ done ++ (sigs ++ more)
      → curr ≡ length done
      → All (λ sig. length sig ≡ 65) sigs
      → curr + length sigs ≤ s.ctx.txn.in_num
      → s.ctx.txn.in_num < 256
      → length out + 65 * length sigs ≤ 255
      → 65 * length sigs ≤ length free
      → fuel' ≡ length sigs + fuel
      → ret_loop sdk fuel' (answering curr out free)
        ≡ ret_loop sdk fuel
            (answering (curr + length sigs) (out ++ joined sigs) (drop (65 * length sigs) free))
  takes [] more done fuel fuel' curr out free cells here sizes below few fits room enough =
      λ i. ret_loop sdk (same i) (answering (stays i) (sym (append-nil out) i) free)
    where
      same : fuel' ≡ fuel
      same = omega arith

      stays : curr ≡ curr + 0
      stays = omega arith
  takes (sig ∷ sigs) more done fuel zero curr out free cells here sizes below few fits room enough =
      absurd (omega arith)
  takes (sig ∷ sigs) more done fuel (suc fuel') curr out free cells here sizes below few fits room
        enough =
      takes_one fuel' curr sig out free
        (ap (λ xs. get_elem? xs curr) cells ∙ get_elem?-middle done sig (sigs ++ more) curr here)
        sizes.0 (omega arith) (omega arith) (omega arith) (omega arith)
      ∙ takes sigs more (done ++ sig ∷ []) fuel fuel' (suc curr) (out ++ sig) (drop 65 free)
          (cells ∙ sym (append_assoc done (sig ∷ []) (sigs ++ more)))
          (omega (arith, length-append done (sig ∷ []))) sizes.1 (omega arith) few
          (omega (arith, length-append out sig, sizes.0)) (omega (arith, length-drop 65 free))
          (omega arith)
      ∙ (λ i.
          ret_loop sdk fuel (answering (count i) (append_assoc out sig (joined sigs) i) (left i)))
    where
      count : suc curr + length sigs ≡ curr + suc (length sigs)
      count = omega arith

      left : drop (65 * length sigs) (drop 65 free) ≡ drop (65 * suc (length sigs)) free
      left =
          let e : 65 + 65 * length sigs ≡ 65 * suc (length sigs) = omega arith in
          drop-drop (65 * length sigs) 65 free ∙ ap (λ n. drop n free) e

  -- No input is left, or no room.
  stops :
      (fuel : ℕ) (d : Device sdk.Sha256)
      → (d.ctx.curr_obj == d.ctx.txn.in_num) ≡ true
      → ret_loop sdk (suc fuel) d ≡ ok tt d
  unfolding ret_loop
  stops fuel d all = rw (◌>>=◌, all)

  full :
      (fuel : ℕ) (d : Device sdk.Sha256)
      → (d.ctx.curr_obj == d.ctx.txn.in_num) ≡ false
      → 190 < d.tx
      → ret_loop sdk (suc fuel) d ≡ throw txn_partial d
  unfolding ret_loop
  full fuel d more high = rw (◌>>=◌, more, lt→ltb 255 (d.tx + 65) (omega arith))

  pub length-joined :
      (sigs : List (List ℕ))
      → All (λ sig. length sig ≡ 65) sigs
      → length (joined sigs) ≡ 65 * length sigs
  length-joined [] h = omega arith
  length-joined (sig ∷ sigs) h =
      omega (arith, length-append sig (joined sigs), h.0, length-joined sigs h.1)

  -- The answer: `sigs` at the front of the buffer.
  abbrev pub answered : List (List ℕ) → Device sdk.Sha256
  answered sigs = record s {
    apdu_buffer = joined sigs ++ drop (65 * length sigs) s.apdu_buffer;
    tx = length (joined sigs);
    ctx = record s.ctx { curr_obj = s.ctx.curr_obj + length sigs };
  }

  module _ (done sigs more : List (List ℕ)) (start : s.tx ≡ 0)
      (cells : s.ctx.txn.sig_input ≡ done ++ (sigs ++ more)) (here : s.ctx.curr_obj ≡ length done)
      (sizes : All (λ sig. length sig ≡ 65) sigs) (few : s.ctx.txn.in_num < 256)
      (room : 195 ≤ length s.apdu_buffer) where
    reached :
        (fuel : ℕ)
        → 5 ≡ length sigs + fuel
        → length sigs ≤ 3
        → s.ctx.curr_obj + length sigs ≤ s.ctx.txn.in_num
        → ret_loop sdk 5 s ≡ ret_loop sdk fuel (answered sigs)
    reached fuel left three below =
        ap (λ d. ret_loop sdk 5 d) (λ i. record s { tx = start i })
        ∙ takes sigs more done fuel 5 s.ctx.curr_obj [] s.apdu_buffer cells here sizes below few
            (omega arith) (omega arith) left

    -- Where tx is 0, in_num is below 256, the APDU buffer has 195 bytes, and the entries from
    -- curr_obj on hold signatures of 65 bytes, at most three of them up to in_num, the case
    -- TXN_RET_SIGS writes these one behind the other at the front of the buffer, sets tx to their
    -- length, ends the transaction and throws TXN_FINISHED.
    pub elem_ret_sigs-finished :
        length sigs ≤ 3
        → s.ctx.txn.in_num ≡ s.ctx.curr_obj + length sigs
        → elem_ret_sigs sdk s
          ≡ throw txn_finished
              (record (answered sigs) { ctx = record (answered sigs).ctx { initialized = false } })
    unfolding elem_ret_sigs
    elem_ret_sigs-finished three all = rw (
      ◌>>=◌,
      reached (suc (4 - length sigs)) (omega arith) three (omega arith)
          ∙ stops (4 - length sigs) (answered sigs) ((==_iff _ _).1 (sym all)),
    )

    -- Where tx is 0, in_num is below 256, the APDU buffer has 195 bytes, and the entries from
    -- curr_obj on hold signatures of 65 bytes, three of them and more inputs behind these, the
    -- case TXN_RET_SIGS writes the three one behind the other at the front of the buffer, sets tx
    -- to their length, and throws TXN_PARTIAL with curr_obj three further.
    pub elem_ret_sigs-partial :
        length sigs ≡ 3
        → s.ctx.curr_obj + 3 < s.ctx.txn.in_num
        → elem_ret_sigs sdk s ≡ throw txn_partial (answered sigs)
    unfolding elem_ret_sigs
    elem_ret_sigs-partial three left = rw (
      ◌>>=◌,
      reached 2 (omega arith) (omega arith) (omega arith)
          ∙ full 1 (answered sigs) (ne→== _ _ (omega arith))
              (omega (arith, length-joined sigs sizes)),
    )
