-- ===== src/Ui/Memory/Laws.antt =====
-- A write to the memory of `global` changes the bytes that it writes and no others.
use ledger_nano.Base.{
  ℕ, ◌+◌, ◌-◌, ◌*◌, ◌≤◌, ◌≡◌, refl, sym, ap, ◌∙◌, List, [], ◌∷◌, ◌++◌, take, drop, length, le_bytes,
  arith, length-append, length-take, length-drop, take-append-drop, take-append, drop-append,
  drop-drop, take-take, take_all, write_bytes_in, length-patch, length-le_bytes, le→leb,
  drop-append_more, drop-take,
}
use ledger_nano.Base.Exec.{ok, defined, ◌>>=◌}
use ledger_nano.Device.{Device}
use ledger_nano.Ui.Memory.{memory, store, word_bytes, write_memory}

-- `mem` with `bs` at `at`.
abbrev pub patch : ℕ → List ℕ → List ℕ → List ℕ
patch at bs mem = take at mem ++ (bs ++ drop (at + length bs) mem)

module _ (at : ℕ) (bs mem : List ℕ) (inside : at + length bs ≤ length mem) where
  before : length (take at mem) ≡ at
  before = omega (arith, length-take at mem)

  -- What lies in front of the write.
  pub take-patch : (n : ℕ) → n ≤ at → take n (patch at bs mem) ≡ take n mem
  take-patch n h =
      sym (take-take n at (patch at bs mem) h)
      ∙ ap (λ t. take n t)
          (take-append at (take at mem) (bs ++ drop (at + length bs) mem) (sym before))
      ∙ take-take n at mem h

  pub slice-patch_before :
      (off n : ℕ) → off + n ≤ at → take n (drop off (patch at bs mem)) ≡ take n (drop off mem)
  slice-patch_before off n h =
      sym (drop-take off (off + n) n (patch at bs mem) refl)
      ∙ ap (λ t. drop off t) (take-patch (off + n) h)
      ∙ drop-take off (off + n) n mem refl

  -- What lies behind it.
  pub drop-patch : (off : ℕ) → at + length bs ≤ off → drop off (patch at bs mem) ≡ drop off mem
  drop-patch off h =
      let k = off - at - length bs in
      drop-append_more off (length bs + k) (take at mem) (bs ++ drop (at + length bs) mem)
        (omega (arith, before))
      ∙ drop-append_more (length bs + k) k bs (drop (at + length bs) mem) refl
      ∙ drop-drop k (at + length bs) mem
      ∙ (let e : at + length bs + k ≡ off = omega arith in ap (λ m. drop m mem) e)

  -- What was written.
  pub drop-patch_at : drop at (patch at bs mem) ≡ bs ++ drop (at + length bs) mem
  drop-patch_at = drop-append at (take at mem) (bs ++ drop (at + length bs) mem) (sym before)

pub length-word_bytes : (ws : List ℕ) → length (word_bytes ws) ≡ 4 * length ws
length-word_bytes [] = refl
length-word_bytes (w ∷ ws) =
    omega (
      arith,
      length-append (le_bytes 4 w) (word_bytes ws),
      length-le_bytes 4 w,
      length-word_bytes ws,
    )

slice : (m : List ℕ) (a n b : ℕ) → a + n ≡ b → take n (drop a m) ++ drop b m ≡ drop a m
slice m a n b h =
    ap (λ t. take n (drop a m) ++ t) (ap (λ k. drop k m) (sym h) ∙ sym (drop-drop n a m))
    ∙ take-append-drop n (drop a m)

module _ {Sha : Type 0} where
  -- The arrays have the sizes of src/ux.h.
  pub record HasSizes (s : Device Sha) : Type 0 where
    pub words : length s.bip44_path ≡ 5
    pub address : length s.address ≡ 36
    pub address_copy : length s.address_copy ≡ 16
    pub line_1 : length s.custom_text_line_1 ≡ 16
    pub line_2 : length s.custom_text_line_2 ≡ 16
    pub current_output : length s.current_output ≡ 4
    pub display : length s.current_output_display ≡ 16
    pub out_address : length s.out_address ≡ 36
    pub amount : length s.amount ≡ 16

  -- The memory is what was stored in it.
  pub memory-store :
      (m : List ℕ) (s : Device Sha)
      → length m ≡ 176
      → memory (store m s) ≡ word_bytes s.bip44_path ++ drop 20 m
  unfolding memory store
  memory-store m s h =
      ap (λ t. word_bytes s.bip44_path ++ t)
        (ap (λ t. take 36 (drop 20 m) ++ t)
            (ap (λ t. take 16 (drop 56 m) ++ t)
                (ap (λ t. take 16 (drop 72 m) ++ t)
                    (ap (λ t. take 16 (drop 88 m) ++ t)
                        (ap (λ t. take 4 (drop 104 m) ++ t)
                            (ap (λ t. take 16 (drop 108 m) ++ t)
                                (ap (λ t. take 36 (drop 124 m) ++ t)
                                    (take_all 16 (drop 160 m) (omega (arith, length-drop 160 m, h)))
                                  ∙ slice m 124 36 160 refl)
                              ∙ slice m 108 16 124 refl)
                          ∙ slice m 104 4 108 refl)
                      ∙ slice m 88 16 104 refl)
                  ∙ slice m 72 16 88 refl)
              ∙ slice m 56 16 72 refl)
          ∙ slice m 20 36 56 refl)

  pub length-memory : (s : Device Sha) → HasSizes s → length (memory s) ≡ 176
  unfolding memory
  length-memory s v = omega (
    arith,
    length-append (word_bytes s.bip44_path) _,
    length-append s.address _,
    length-append s.address_copy _,
    length-append s.custom_text_line_1 _,
    length-append s.custom_text_line_2 _,
    length-append s.current_output _,
    length-append s.current_output_display _,
    length-append s.out_address s.amount,
    length-word_bytes s.bip44_path,
    v.words,
    v.address,
    v.address_copy,
    v.line_1,
    v.line_2,
    v.current_output,
    v.display,
    v.out_address,
    v.amount,
  )

  pub HasSizes-store :
      (m : List ℕ) (s : Device Sha)
      → length m ≡ 176
      → length s.bip44_path ≡ 5
      → HasSizes (store m s)
  unfolding store
  HasSizes-store m s h words = record {
    words = words;
    address = omega (arith, length-take 36 (drop 20 m), length-drop 20 m, h);
    address_copy = omega (arith, length-take 16 (drop 56 m), length-drop 56 m, h);
    line_1 = omega (arith, length-take 16 (drop 72 m), length-drop 72 m, h);
    line_2 = omega (arith, length-take 16 (drop 88 m), length-drop 88 m, h);
    current_output = omega (arith, length-take 4 (drop 104 m), length-drop 104 m, h);
    display = omega (arith, length-take 16 (drop 108 m), length-drop 108 m, h);
    out_address = omega (arith, length-take 36 (drop 124 m), length-drop 124 m, h);
    amount = omega (arith, length-take 16 (drop 160 m), length-drop 160 m, h);
  }

  -- What a write leaves.
  pub record Written (at : ℕ) (bs : List ℕ) (s : Device Sha) : Type 0 where
    pub returns : write_memory at bs s ≡ ok tt (store (patch at bs (memory s)) s)
    pub bytes : memory (store (patch at bs (memory s)) s) ≡ patch at bs (memory s)
    pub sizes : HasSizes (store (patch at bs (memory s)) s)

  pub write_memory-Written :
      (at : ℕ) (bs : List ℕ) (s : Device Sha)
      → HasSizes s
      → 20 ≤ at
      → at + length bs ≤ 176
      → Written at bs s
  unfolding write_memory memory
  write_memory-Written at bs s v low high = record {
    returns =
        rw
          (◌>>=◌, le→leb 20 at low, write_bytes_in (memory s) at bs (omega (arith, size)), defined);
    bytes =
        memory-store p s whole
        ∙ ap (λ t. t ++ drop 20 p) (sym (take-patch at bs (memory s) inside 20 low ∙ words))
        ∙ take-append-drop 20 p;
    sizes = HasSizes-store p s whole v.words;
  }
    where
      p : List ℕ
      p = patch at bs (memory s)

      size : length (memory s) ≡ 176
      size = length-memory s v

      inside : at + length bs ≤ length (memory s)
      inside = omega (arith, size)

      whole : length p ≡ 176
      whole = length-patch (memory s) at bs inside ∙ size

      words : take 20 (memory s) ≡ word_bytes s.bip44_path
      words =
          take-append 20 (word_bytes s.bip44_path) _
            (omega (arith, length-word_bytes s.bip44_path, v.words))
