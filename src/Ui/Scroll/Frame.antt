-- ===== src/Ui/Scroll/Frame.antt =====
-- A whole redrawing of the approval screen: the preprocessor is called for each element of the
-- table in its order.
use mathlib.Core.Path.{subst}
use mathlib.Core.List.{append_assoc}
use ledger_nano.Base.{
  ℕ, ◌+◌, ◌≤◌, ◌≡◌, refl, sym, ap, ◌∙◌, List, [], ◌∷◌, ◌++◌, false, drop, length, arith, ◌⊎◌, inl,
  inr, length-append, ne→==,
}
use ledger_nano.Base.Int.{ℤ, pos, negsuc, is_ℤ}
use ledger_nano.Base.Exec.{ok, ◌>>=◌, ◌>>◌}
use ledger_nano.Device.{Device}
use ledger_nano.Crypto.Address.Text.{IsShown}
use ledger_nano.Ui.Memory.{memory, store}
use ledger_nano.Ui.Memory.Laws.{patch, length-memory, drop-patch_at}
use ledger_nano.Ui.Scroll.{info_line, ux_callback_set_interval}
use ledger_nano.Ui.Scroll.Position.{Position}
use ledger_nano.Ui.Scroll.Draw.{HasText, HasText-patch}
use ledger_nano.Ui.Scroll.Approving.{Approving, Kept, write-Kept, line_end-patch}
use ledger_nano.Ui.Scroll.Showing.{moved_to}

-- The label above the line, for the offset behind the drawing of the line.
abbrev pub label : ℤ → List ℕ
label (pos k) = b'A' ∷ b'd' ∷ b'd' ∷ b'r' ∷ b'e' ∷ b's' ∷ b's' ∷ b':' ∷ []
label (negsuc k) = b'S' ∷ b'K' ∷ b'Y' ∷ b':' ∷ []

abbrev address_word : List ℕ
address_word = label (pos 0)

abbrev sky_word : List ℕ
sky_word = label (negsuc 0)

address_word-IsShown : IsShown address_word
address_word-IsShown = (
  omega arith,
  (
    omega arith,
    (omega arith, (omega arith, (omega arith, (omega arith, (omega arith, (omega arith, tt)))))),
  ),
)

sky_word-IsShown : IsShown sky_word
sky_word-IsShown = (omega arith, (omega arith, (omega arith, (omega arith, tt))))

place :
    {n : ℕ} {o d : ℤ}
    → Position n o d
    → (o ≡ negsuc 0) ⊎ ((is_ℤ o (negsuc 0) ≡ false) × (label o ≡ address_word))
place Position.blank = inl refl
place (Position.forth k h) = inr (ne→== (k + 1) 0 (omega arith), refl)
place (Position.back k h) = inr (ne→== (k + 1) 0 (omega arith), refl)

module _ {Sha : Type 0} where
  -- A text written to the first line.
  record Labelled (text amount : List ℕ) (o d : ℤ) (line word : List ℕ) (s : Device Sha)
      : Type 0 where
    pub kept : Kept text amount o d 72 (word ++ 0 ∷ []) s
    pub first : HasText 72 word (memory (store (patch 72 (word ++ 0 ∷ []) (memory s)) s))
    pub second : HasText 88 line (memory (store (patch 72 (word ++ 0 ∷ []) (memory s)) s))

  labelled :
      (text amount : List ℕ) (o d : ℤ) (line word : List ℕ) (s : Device Sha)
      → Approving text amount o d s
      → HasText 88 line (memory s)
      → IsShown word
      → length word ≤ 15
      → Labelled text amount o d line word s
  labelled text amount o d line word s v h shown short = record {
    kept = k;
    first = record {
      rest = drop (72 + length (word ++ 0 ∷ [])) (memory s);
      holds =
          ap (λ m. drop 72 m) k.written.bytes
          ∙ drop-patch_at 72 (word ++ 0 ∷ []) (memory s) inside
          ∙ append_assoc word (0 ∷ []) _;
      shown = shown;
    };
    second =
        subst (λ m. HasText 88 line m) (sym k.written.bytes)
          (HasText-patch 72 (word ++ 0 ∷ []) (memory s) 88 line inside (omega (arith, size)) h);
  }
    where
      size : length (word ++ 0 ∷ []) ≡ length word + 1
      size = length-append word (0 ∷ [])

      inside : 72 + length (word ++ 0 ∷ []) ≤ length (memory s)
      inside = omega (arith, size, length-memory s v.sizes)

      k : Kept text amount o d 72 (word ++ 0 ∷ []) s
      k = write-Kept text amount o d 72 (word ++ 0 ∷ []) s v (omega arith) (omega (arith, size)) (
          line_end-patch 72 (word ++ 0 ∷ []) (memory s) (length-memory s v.sizes)
            (omega (arith, size)) v.line_end)

  -- The info line, over a line that shows something.
  pub record Informed (text amount : List ℕ) (o d : ℤ) (line : List ℕ) (s : Device Sha)
      : Type 0 where
    pub after : Device Sha
    pub returns : info_line 72 s ≡ ok tt after
    pub first : HasText 72 (label o) (memory after)
    pub second : HasText 88 line (memory after)
    pub kept : Approving text amount o d after

  pub info_line-Informed :
      (text amount : List ℕ) (o d : ℤ) (line : List ℕ) (s : Device Sha)
      → Approving text amount o d s
      → HasText 88 line (memory s)
      → Informed text amount o d line s
  unfolding info_line ux_callback_set_interval memory
  info_line-Informed text amount o d line s v h = elim (place v.position) [
    | inl e ↦ sky e
    | inr (far, e) ↦ plain far e
  ]
    where
      l : Labelled text amount o d line address_word s
      l = labelled text amount o d line address_word s v h address_word-IsShown (omega arith)

      plain : is_ℤ o (negsuc 0) ≡ false → label o ≡ address_word → Informed text amount o d line s
      plain far e = record {
        after = record s1 { callback_interval = 300 };
        returns = rw (
          ◌>>=◌,
          ◌>>◌,
          l.kept.written.returns,
          ap (λ o'. is_ℤ o' (negsuc 0)) l.kept.kept.offset ∙ far,
        );
        first = subst (λ word. HasText 72 word (memory s1)) (sym e) l.first;
        second = l.second;
        kept =
            moved_to text amount o d s1 o d s1.current_offset s1.direction 300 l.kept.kept
              l.kept.kept.offset l.kept.kept.direction v.position;
      }
        where
          s1 : Device Sha
          s1 = store (patch 72 (address_word ++ 0 ∷ []) (memory s)) s

      sky : o ≡ negsuc 0 → Informed text amount o d line s
      sky e = record {
        after = record s2 { callback_interval = 3600 };
        returns = rw (
          ◌>>=◌,
          ◌>>◌,
          l.kept.written.returns,
          ap (λ o'. is_ℤ o' (negsuc 0)) (l.kept.kept.offset ∙ e),
          l2.kept.written.returns,
        );
        first = subst (λ o'. HasText 72 (label o') (memory s2)) (sym e) l2.first;
        second = l2.second;
        kept =
            moved_to text amount o d s2 o d s2.current_offset s2.direction 3600 l2.kept.kept
              l2.kept.kept.offset l2.kept.kept.direction v.position;
      }
        where
          s1 : Device Sha
          s1 = store (patch 72 (address_word ++ 0 ∷ []) (memory s)) s

          l2 : Labelled text amount o d line sky_word s1
          l2 =
              labelled text amount o d line sky_word s1 l.kept.kept l.second sky_word-IsShown
                (omega arith)

          s2 : Device Sha
          s2 = store (patch 72 (sky_word ++ 0 ∷ []) (memory s1)) s1
