-- ===== src/Ui/Scroll/Copying.antt =====
-- The address screen as a state, and what copying the address to the line leaves.
use mathlib.Core.Path.{subst, ap₂}
use mathlib.Core.List.{append_assoc}
use ledger_nano.Base.{
  ℕ, ◌+◌, ◌≤◌, ◌<◌, ◌≡◌, sym, ap, ◌∙◌, List, [], ◌∷◌, ◌++◌, some, take, drop, length, arith, inl,
  inr, length-append, length-drop, take-append-drop, drop-drop, take-append, take_all, le→leb,
  Bool-cases, leb, leb→le, leb→lt, All-take,
}
use ledger_nano.Base.Int.{ℤ, pos}
use ledger_nano.Base.Exec.{ok, ◌>>=◌, ◌>>◌}
use ledger_nano.Device.{Device}
use ledger_nano.Ui.Memory.{memory, store}
use ledger_nano.Ui.Memory.Laws.{
  HasSizes, patch, Written, write_memory-Written, length-memory, drop-patch_at, slice-patch_before,
}
use ledger_nano.Ui.Scroll.{pointer, copy_address}
use ledger_nano.Ui.Scroll.Position.{Position}
use ledger_nano.Ui.Scroll.Draw.{HasText, strcpy-HasText}
use ledger_nano.Ui.Scroll.Approving.{All-drop, drop_short, take_short}

-- A write behind a text.
HasText-patch_before :
    (at : ℕ) (bs m : List ℕ) (at' : ℕ) (text : List ℕ)
    → at + length bs ≤ length m
    → at' + (length text + 1) ≤ at
    → HasText at' text m
    → HasText at' text (patch at bs m)
HasText-patch_before at bs m at' text inside front h = record {
  rest = drop (length text + 1) (drop at' (patch at bs m));
  holds =
      sym (take-append-drop (length text + 1) (drop at' (patch at bs m)))
      ∙ ap (λ b. b ++ drop (length text + 1) (drop at' (patch at bs m))) same
      ∙ append_assoc text (0 ∷ []) _;
  shown = h.shown;
}
  where
    same : take (length text + 1) (drop at' (patch at bs m)) ≡ text ++ 0 ∷ []
    same =
        slice-patch_before at bs m inside at' (length text + 1) front
        ∙ ap (λ b. take (length text + 1) b) (h.holds ∙ sym (append_assoc text (0 ∷ []) h.rest))
        ∙ take-append (length text + 1) (text ++ 0 ∷ []) h.rest
            (omega (arith, length-append text (0 ∷ [])))

-- A text of the sixteen bytes from 56 on that a NUL at 72 cuts.
cut_text :
    (part m : List ℕ)
    → length m ≡ 176
    → HasText 56 part m
    → HasText 56 (take 16 part) (patch 72 (0 ∷ []) m)
cut_text part m size h = elim (Bool-cases (leb (length part) 15)) [
  | inl e ↦
      subst (λ t. HasText 56 t (patch 72 (0 ∷ []) m))
        (sym (take_all 16 part (omega (arith, leb→le _ _ e))))
        (HasText-patch_before 72 (0 ∷ []) m 56 part (omega arith) (omega (arith, leb→le _ _ e)) h)
  | inr e ↦ record {
    rest = drop 73 m;
    holds =
        sym (take-append-drop 16 (drop 56 (patch 72 (0 ∷ []) m)))
        ∙ ap₂ (λ x y. x ++ y)
            (slice-patch_before 72 (0 ∷ []) m (omega arith) 56 16 (omega arith)
              ∙ ap (λ b. take 16 b) h.holds
              ∙ take_short 16 part (0 ∷ h.rest) (omega (arith, leb→lt _ _ e)))
            (drop-drop 16 56 (patch 72 (0 ∷ []) m) ∙ drop-patch_at 72 (0 ∷ []) m (omega arith));
    shown = All-take _ 16 part h.shown;
  }
]

module _ {Sha : Type 0} where
  -- An address is in its array, and its text on the screen stands at this offset; the byte in front
  -- of the array, the last of `bip44_path`, is 0.
  pub record OnAddress (text : List ℕ) (o d : ℤ) (s : Device Sha) : Type 0 where
    pub sizes : HasSizes s
    pub address : HasText 20 text (memory s)
    pub long : 16 ≤ length text
    pub fits : length text ≤ 35
    pub front : take 1 (drop 19 (memory s)) ≡ 0 ∷ []
    pub offset : s.current_offset ≡ o
    pub direction : s.direction ≡ d
    pub position : Position (length text) o d

  kept :
      {text : List ℕ} {o d : ℤ} (at : ℕ) (bs : List ℕ) (s : Device Sha)
      → OnAddress text o d s
      → Written at bs s
      → 56 ≤ at
      → at + length bs ≤ 176
      → OnAddress text o d (store (patch at bs (memory s)) s)
  unfolding store
  kept {text} at bs s v w low high = record {
    sizes = w.sizes;
    address =
        subst (λ m. HasText 20 text m) (sym w.bytes)
          (HasText-patch_before at bs (memory s) 20 text inside (omega (arith, v.fits)) v.address);
    long = v.long;
    fits = v.fits;
    front =
        ap (λ m. take 1 (drop 19 m)) w.bytes
        ∙ slice-patch_before at bs (memory s) inside 19 1 (omega arith)
        ∙ v.front;
    offset = v.offset;
    direction = v.direction;
    position = v.position;
  }
    where
      inside : at + length bs ≤ length (memory s)
      inside = omega (arith, length-memory s v.sizes)

  -- The state behind `copy_address`.
  pub record Copied (text : List ℕ) (o d : ℤ) (part : List ℕ) (s : Device Sha) : Type 0 where
    pub after : Device Sha
    pub returns : copy_address 56 s ≡ ok tt after
    pub kept : OnAddress text o d after
    pub shows : HasText 56 (take 16 part) (memory after)

  pub copied :
      (text : List ℕ) (o d : ℤ) (from : ℕ) (part : List ℕ) (s : Device Sha)
      → OnAddress text o d s
      → pointer 20 o ≡ some from
      → HasText from part (memory s)
      → length part ≤ 35
      → from + length part < 176
      → Copied text o d part s
  unfolding copy_address
  copied text o d from part s v points h short inside = record {
    after = s2;
    returns = rw (
      ◌>>=◌,
      ◌>>◌,
      ap (λ o'. pointer 20 o') v.offset ∙ points,
      strcpy-HasText s 56 from part v.sizes h inside,
      first.returns,
      second.returns,
    );
    kept =
        kept 72 (0 ∷ []) s1 (kept 56 (part ++ 0 ∷ []) s v first (omega arith) (omega (arith, size)))
          second (omega arith) (omega arith);
    shows =
        subst (λ m. HasText 56 (take 16 part) m) (sym second.bytes)
          (cut_text part (memory s1) size1 written);
  }
    where
      size : length (part ++ 0 ∷ []) ≡ length part + 1
      size = length-append part (0 ∷ [])

      first : Written 56 (part ++ 0 ∷ []) s
      first = write_memory-Written 56 (part ++ 0 ∷ []) s v.sizes (omega arith) (omega (arith, size))

      s1 : Device Sha
      s1 = store (patch 56 (part ++ 0 ∷ []) (memory s)) s

      size1 : length (memory s1) ≡ 176
      size1 = length-memory s1 first.sizes

      written : HasText 56 part (memory s1)
      written = record {
        rest = drop (56 + length (part ++ 0 ∷ [])) (memory s);
        holds =
            ap (λ m. drop 56 m) first.bytes
            ∙ drop-patch_at 56 (part ++ 0 ∷ []) (memory s)
                (omega (arith, size, length-memory s v.sizes))
            ∙ append_assoc part (0 ∷ []) _;
        shown = h.shown;
      }

      second : Written 72 (0 ∷ []) s1
      second = write_memory-Written 72 (0 ∷ []) s1 first.sizes (omega arith) (omega arith)

      s2 : Device Sha
      s2 = store (patch 72 (0 ∷ []) (memory s1)) s1

  -- The text from a place inside the address.
  pub copies_inside :
      (text : List ℕ) (k : ℕ) (d : ℤ) (s : Device Sha)
      → OnAddress text (pos k) d s
      → k ≤ length text
      → Copied text (pos k) d (drop k text) s
  copies_inside text k d s v h =
      copied text (pos k) d (20 + k) (drop k text) s v
        (rw (le→leb 0 (20 + k) (omega arith)) (ap (λ (n : ℕ). some n) (omega arith)))
        (record {
          rest = v.address.rest;
          holds =
              sym (drop-drop k 20 (memory s))
              ∙ ap (λ b. drop k b) v.address.holds
              ∙ drop_short k text (0 ∷ v.address.rest) h;
          shown = All-drop _ k text v.address.shown;
        })
        (omega (arith, length-drop k text, v.fits)) (omega (arith, length-drop k text, v.fits))
