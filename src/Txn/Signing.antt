-- ===== src/Txn/Signing.antt =====
-- TXN_COMPUTE_SIGS: what is signed, and with which keys.
use mathlib.Core.List.{append_assoc, append-nil}
use ledger_nano.Base.{
  ℕ, zero, suc, ◌+◌, ◌≡◌, refl, sym, ap, ◌∙◌, some, List, [], ◌∷◌, ◌++◌, arith, length, take, drop,
  set, get_elem?, u4le_at, read_bytes_in, write_bytes_in, length-append, drop_all,
}
use ledger_nano.Base.Exec.{ok, ◌>>=◌}
use ledger_nano.Sdk.{Sdk, SdkLaws}
use ledger_nano.Device.{Device, txn_ret_sigs}
use ledger_nano.Crypto.Address.{derive_keypair}
use ledger_nano.Crypto.Signature.{sign}
use ledger_nano.Txn.Buffer.{next_obj}
use ledger_nano.Txn.Sigs.{sign_input, sign_loop, elem_ret_sigs, elem_compute_sigs}

pub get_elem?-middle {ℓ} :
    {A : Type ℓ} (front : List A) (x : A) (back : List A) (i : ℕ)
    → i ≡ length front
    → get_elem? (front ++ x ∷ back) i ≡ some x
get_elem?-middle [] x back zero h = refl
get_elem?-middle [] x back (suc i) h = absurd (omega arith)
get_elem?-middle (y ∷ front) x back zero h = absurd (omega arith)
get_elem?-middle (y ∷ front) x back (suc i) h = get_elem?-middle front x back i (omega arith)

set-middle {ℓ} :
    {A : Type ℓ} (front : List A) (x : A) (back : List A) (i : ℕ) (v : A)
    → i ≡ length front
    → set (front ++ x ∷ back) i v ≡ front ++ v ∷ back
set-middle [] x back zero v h = refl
set-middle [] x back (suc i) v h = absurd (omega arith)
set-middle (y ∷ front) x back zero v h = absurd (omega arith)
set-middle (y ∷ front) x back (suc i) v h =
    ap (λ t. y ∷ t) (set-middle front x back i v (omega arith))

module _ (sdk : Sdk) (laws : SdkLaws sdk) where
  -- The key of an input is that of the path with the input's own index, and what is signed is the
  -- hash of `inner_hash` and the input's id.
  pub record IsSignature (p0 p1 p2 p3 : ℕ) (inner cell signature : List ℕ) : Type 0 where
    pub cell_size : length cell ≡ 65
    pub size : length signature ≡ 65
    pub signed :
        sign sdk
          (sdk.derive_node (p0 ∷ p1 ∷ p2 ∷ p3 ∷ u4le_at (take 4 (drop 32 cell)) 0 ∷ []))
          (laws.sha256 (inner ++ take 32 cell))
        ≡ some signature

  abbrev pub AreSignatures : ℕ → ℕ → ℕ → ℕ → List ℕ → List (List ℕ) → List (List ℕ) → Type 0
  AreSignatures p0 p1 p2 p3 inner [] [] = Unit
  AreSignatures p0 p1 p2 p3 inner (c ∷ cells) (s ∷ sigs) =
      IsSignature p0 p1 p2 p3 inner c s × AreSignatures p0 p1 p2 p3 inner cells sigs
  AreSignatures p0 p1 p2 p3 inner cells sigs = ⊥

  module _ (p0 p1 p2 p3 : ℕ) where
    -- The device with the path's last word and the entries changed.
    abbrev signing : Device sdk.Sha256 → ℕ → List (List ℕ) → ℕ → Device sdk.Sha256
    signing s p4 cells curr = record s {
      bip44_path = p0 ∷ p1 ∷ p2 ∷ p3 ∷ p4 ∷ [];
      ctx = record s.ctx { txn = record s.ctx.txn { sig_input = cells }; curr_obj = curr };
    }

    sign_input-signs :
        (s : Device sdk.Sha256) (p4 curr i : ℕ) (done : List (List ℕ)) (cell : List ℕ)
        (rest : List (List ℕ)) (signature : List ℕ)
        → i ≡ length done
        → IsSignature p0 p1 p2 p3 s.ctx.txn.inner_hash cell signature
        → sign_input sdk i (signing s p4 (done ++ cell ∷ rest) curr)
          ≡ ok tt (
              signing s
                (u4le_at (take 4 (drop 32 cell)) 0)
                (done ++ signature ∷ rest)
                (next_obj curr))
    unfolding sign_input derive_keypair
    sign_input-signs s p4 curr i done cell rest signature at v =
        rw
          (
            ◌>>=◌,
            get_elem?-middle done cell rest i at,
            read_bytes_in cell 0 32 (omega (arith, v.cell_size)),
            read_bytes_in cell 32 4 (omega (arith, v.cell_size)),
            hash,
            v.signed,
            write_bytes_in cell 0 signature (omega (arith, v.cell_size, v.size)),
          )
          (ap (λ cells. ok tt (signing s (u4le_at (take 4 (drop 32 cell)) 0) cells (next_obj curr)))
            (set-middle done cell rest i _ at ∙ ap (λ t. done ++ t ∷ rest) whole))
      where
        whole : signature ++ drop (0 + length signature) cell ≡ signature
        whole =
            ap (λ t. signature ++ t)
              (drop_all (0 + length signature) cell (omega (arith, v.cell_size, v.size)))
            ∙ append-nil signature

        hash :
            (sdk.hash_last (sdk.hash_more sdk.sha256_init s.ctx.txn.inner_hash) (take 32 cell)).1
            ≡ laws.sha256 (s.ctx.txn.inner_hash ++ take 32 cell)
        hash =
            laws.last_digest _ _ (take 32 cell)
              (laws.more_absorbed sdk.sha256_init [] s.ctx.txn.inner_hash laws.init_absorbed)

    -- The loop, from behind the entries `done`.
    sign_loop-signs :
        (todo sigs : List (List ℕ)) (s : Device sdk.Sha256) (p4 curr i : ℕ)
        (done rest : List (List ℕ))
        → i ≡ length done
        → AreSignatures p0 p1 p2 p3 s.ctx.txn.inner_hash todo sigs
        → (p4' : ℕ) × (curr' : ℕ) × (sign_loop sdk
              (length todo)
              i
              (signing s p4 (done ++ (todo ++ rest)) curr)
            ≡ ok tt (signing s p4' (done ++ (sigs ++ rest)) curr'))
    unfolding sign_loop
    sign_loop-signs [] [] s p4 curr i done rest at vs = (p4, curr, refl)
    sign_loop-signs [] (g ∷ sigs) s p4 curr i done rest at vs = absurd vs
    sign_loop-signs (c ∷ todo) [] s p4 curr i done rest at vs = absurd vs
    sign_loop-signs (c ∷ todo) (g ∷ sigs) s p4 curr i done rest at vs =
        let p4' = u4le_at (take 4 (drop 32 c)) 0 in
        let (p4'', curr'', signs) =
          sign_loop-signs todo sigs s p4' (next_obj curr) (i + 1) (done ++ g ∷ []) rest
            (omega (arith, length-append done (g ∷ []))) vs.1 in
        (
          p4'',
          curr'',
          rw (◌>>=◌, sign_input-signs s p4 curr i done c (todo ++ rest) g at vs.0)
              (ap
                  (λ cells.
                    sign_loop sdk (length todo) (i + 1) (signing s p4' cells (next_obj curr)))
                  (sym (append_assoc done (g ∷ []) (todo ++ rest)))
                ∙ signs
                ∙ ap (λ cells. ok tt (signing s p4'' cells curr''))
                    (append_assoc done (g ∷ []) (sigs ++ rest))),
        )

    -- Where the path has its five words, in_num is the number of inputs stored, and the SDK's
    -- signatures are defined, the case TXN_COMPUTE_SIGS replaces each input by the signature that
    -- the key of the path with the input's own address index makes of the SHA-256 of inner_hash
    -- and the input's id, leaves the path and the other entries as they were, and goes on to
    -- return the signatures from the first.
    pub elem_compute_sigs-signs :
        (s : Device sdk.Sha256) (p4 : ℕ) (inputs sigs rest : List (List ℕ))
        → s.bip44_path ≡ p0 ∷ p1 ∷ p2 ∷ p3 ∷ p4 ∷ []
        → s.ctx.txn.in_num ≡ length inputs
        → s.ctx.txn.sig_input ≡ inputs ++ rest
        → AreSignatures p0 p1 p2 p3 s.ctx.txn.inner_hash inputs sigs
        → elem_compute_sigs sdk s
          ≡ elem_ret_sigs sdk (record s {
            ctx = record s.ctx {
              txn = record s.ctx.txn { sig_input = sigs ++ rest };
              curr_obj = 0;
              txn_state = txn_ret_sigs;
            };
          })
    unfolding elem_compute_sigs
    elem_compute_sigs-signs s p4 inputs sigs rest path number entries vs =
        rw (◌>>=◌, last, run.2) (ap (λ path'. elem_ret_sigs sdk (signed path')) (sym path))
      where
        last : get_elem? s.bip44_path 4 ≡ some p4
        last = ap (λ path'. get_elem? path' 4) path

        same : s ≡ signing s p4 (inputs ++ rest) s.ctx.curr_obj
        same = λ i. record s {
          bip44_path = path i;
          ctx = record s.ctx { txn = record s.ctx.txn { sig_input = entries i } };
        }

        run :
            (p4' : ℕ) × (curr' : ℕ) × (sign_loop sdk s.ctx.txn.in_num 0 s
              ≡ ok tt (signing s p4' (sigs ++ rest) curr'))
        run =
            let (p4', curr', signs) =
              sign_loop-signs inputs sigs s p4 s.ctx.curr_obj 0 [] rest refl vs in
            (
              p4',
              curr',
              ap (λ n. sign_loop sdk n 0 s) number
                  ∙ ap (λ d. sign_loop sdk (length inputs) 0 d) same
                  ∙ signs,
            )

        signed : List ℕ → Device sdk.Sha256
        signed path' = record s {
          bip44_path = path';
          ctx = record s.ctx {
            txn = record s.ctx.txn { sig_input = sigs ++ rest };
            curr_obj = 0;
            txn_state = txn_ret_sigs;
          };
        }
