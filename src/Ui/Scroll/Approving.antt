-- ===== src/Ui/Scroll/Approving.antt =====
-- The approval of an output as a state: what is on the screen and in the memory, and that a write
-- to the lines of the screen keeps it.
use mathlib.Core.Path.{subst, ap₂}
use ledger_nano.Base.{
  ℕ, zero, suc, ◌+◌, ◌≤◌, ◌≡◌, ◌≢◌, refl, sym, ap, ◌∙◌, List, [], ◌∷◌, ◌++◌, some, ◌==◌,
  if◌then◌else◌, take, drop, length, All, arith, length-take, length-drop, take-append, drop-drop,
  take-append-drop, ◌⊎◌, inl, inr, get_or, ==_iff, Bool-cases, le→leb,
}
use ledger_nano.Base.Int.{ℤ, pos, negsuc}
use ledger_nano.Device.{Device, txn_out}
use ledger_nano.Ui.Memory.{memory, store}
use ledger_nano.Ui.Memory.Laws.{
  HasSizes, patch, Written, write_memory-Written, length-memory, drop-patch, drop-patch_at,
  slice-patch_before,
}
use ledger_nano.Ui.Scroll.{pointer}
use ledger_nano.Ui.Scroll.Position.{Position}
use ledger_nano.Ui.Scroll.Draw.{HasText, HasText-patch, window, drawn, Drawn, draw_window-Drawn}

-- Where a text of `n` characters stands after a drawing.
abbrev pub next_offset : ℕ → ℤ → ℤ → ℤ
next_offset n (negsuc k) d = pos 0
next_offset n (pos k) (pos j) = pos (suc k)
next_offset n (pos zero) (negsuc j) = negsuc 0
next_offset n (pos (suc k)) (negsuc j) = pos k

abbrev pub next_direction : ℕ → ℤ → ℤ → ℤ
next_direction n (negsuc k) d = pos 1
next_direction n (pos k) (pos j) = if k + 16 == n then negsuc 0 else pos 1
next_direction n (pos zero) (negsuc j) = pos 1
next_direction n (pos (suc k)) (negsuc j) = negsuc 0

-- What the drawing shows: fifteen characters of the address, the amount at the left end on the way
-- back, and nothing behind that.
abbrev pub shown_text : List ℕ → List ℕ → ℤ → ℤ → List ℕ
shown_text text amount (negsuc k) d = []
shown_text text amount (pos k) (pos j) = take 15 (drop k text)
shown_text text amount (pos zero) (negsuc j) = amount
shown_text text amount (pos (suc k)) (negsuc j) = take 15 (drop (suc k) text)

pub All-drop : (P : ℕ → Type 0) (n : ℕ) (xs : List ℕ) → All P xs → All P (drop n xs)
All-drop P zero xs h = h
All-drop P (suc n) [] h = tt
All-drop P (suc n) (x ∷ xs) h = All-drop P n xs h.1

pub drop_short : (n : ℕ) (xs ys : List ℕ) → n ≤ length xs → drop n (xs ++ ys) ≡ drop n xs ++ ys
drop_short zero xs ys h = refl
drop_short (suc n) [] ys h = absurd (omega arith)
drop_short (suc n) (x ∷ xs) ys h = drop_short n xs ys (omega arith)

pub take_short : (n : ℕ) (xs ys : List ℕ) → n ≤ length xs → take n (xs ++ ys) ≡ take n xs
take_short zero xs ys h = refl
take_short (suc n) [] ys h = absurd (omega arith)
take_short (suc n) (x ∷ xs) ys h = ap (λ t. x ∷ t) (take_short n xs ys (omega arith))

pub Nat-cases : (a b : ℕ) → (a ≡ b) ⊎ (a ≢ b)
Nat-cases a b = elim (Bool-cases (a == b)) [
  | inl e ↦ inl ((==_iff a b).0 e)
  | inr e ↦ inr (λ h. ground arith)
]

pub points : (k : ℕ) → pointer 124 (pos k) ≡ some (124 + k)
points k = rw (le→leb 0 (124 + k) (omega arith)) (ap (λ (n : ℕ). some n) (omega arith))

pub head_zero : (xs : List ℕ) → take 1 xs ≡ 0 ∷ [] → (ys : List ℕ) × (take 15 xs ≡ 0 ∷ ys)
head_zero [] h = absurd (omega (arith, ap (λ b. length b) h))
head_zero (x ∷ xs) h = (take 14 xs, ap (λ b. get_or b 0 0 ∷ take 14 xs) h)

-- What stands at the end of the line, where the write ends in front of it.
pub line_end-patch :
    (at : ℕ) (bs m : List ℕ)
    → length m ≡ 176
    → at + length bs ≤ 103
    → take 1 (drop 103 m) ≡ 0 ∷ []
    → take 1 (drop 103 (patch at bs m)) ≡ 0 ∷ []
line_end-patch at bs m size far end =
    ap (λ b. take 1 b) (drop-patch at bs m (omega arith) 103 far) ∙ end

module _ {Sha : Type 0} where
  -- An output with this address and this amount is on the screen, at this offset; the bytes that
  -- end the line and the display are NUL.
  pub record Approving (text amount : List ℕ) (o d : ℤ) (s : Device Sha) : Type 0 where
    pub sizes : HasSizes s
    pub approves : s.ctx.txn_state ≡ txn_out
    pub address : HasText 124 text (memory s)
    pub long : 16 ≤ length text
    pub fits : length text ≤ 35
    pub coins : HasText 160 amount (memory s)
    pub coins_fit : length amount ≤ 15
    pub line_end : take 1 (drop 103 (memory s)) ≡ 0 ∷ []
    pub display_end : take 1 (drop 123 (memory s)) ≡ 0 ∷ []
    pub offset : s.current_offset ≡ o
    pub direction : s.direction ≡ d
    pub position : Position (length text) o d

  -- A write to the lines of the screen that leaves a NUL at the end of the second.
  pub record Kept (text amount : List ℕ) (o d : ℤ) (at : ℕ) (bs : List ℕ) (s : Device Sha)
      : Type 0 where
    pub written : Written at bs s
    pub kept : Approving text amount o d (store (patch at bs (memory s)) s)

  pub write-Kept :
      (text amount : List ℕ) (o d : ℤ) (at : ℕ) (bs : List ℕ) (s : Device Sha)
      → Approving text amount o d s
      → 20 ≤ at
      → at + length bs ≤ 105
      → take 1 (drop 103 (patch at bs (memory s))) ≡ 0 ∷ []
      → Kept text amount o d at bs s
  unfolding store
  write-Kept text amount o d at bs s v low high end = record {
    written = w;
    kept = record {
      sizes = w.sizes;
      approves = v.approves;
      address = over 124 text (omega arith) v.address;
      long = v.long;
      fits = v.fits;
      coins = over 160 amount (omega arith) v.coins;
      coins_fit = v.coins_fit;
      line_end = ap (λ m. take 1 (drop 103 m)) w.bytes ∙ end;
      display_end =
          ap (λ m. take 1 (drop 123 m)) w.bytes
          ∙ ap (λ m. take 1 m) (drop-patch at bs (memory s) inside 123 (omega arith))
          ∙ v.display_end;
      offset = v.offset;
      direction = v.direction;
      position = v.position;
    };
  }
    where
      w : Written at bs s
      w = write_memory-Written at bs s v.sizes low (omega arith)

      inside : at + length bs ≤ length (memory s)
      inside = omega (arith, length-memory s v.sizes)

      over :
          (at' : ℕ) (text' : List ℕ)
          → 105 ≤ at'
          → HasText at' text' (memory s)
          → HasText at' text' (memory (store (patch at bs (memory s)) s))
      over at' text' far h =
          subst (λ m. HasText at' text' m) (sym w.bytes)
            (HasText-patch at bs (memory s) at' text' inside (omega arith) h)

  -- The state behind the drawing of the window.
  pub record Windowed (text amount : List ℕ) (o d : ℤ) (from : ℕ) (s : Device Sha) : Type 0 where
    pub drawing : Drawn from s
    pub kept : Approving text amount o d (drawn from s)
    pub line :
        drop 88 (memory (drawn from s)) ≡ window from s ++ (0 ∷ drop 104 (memory (drawn from s)))

  pub windowed :
      (text amount : List ℕ) (o d : ℤ) (from : ℕ) (s : Device Sha)
      → Approving text amount o d s
      → pointer 124 o ≡ some from
      → from + 15 ≤ 176
      → Windowed text amount o d from s
  windowed text amount o d from s v points inside = record {
    drawing = p;
    kept = second.kept;
    line =
        sym (take-append-drop 15 (drop 88 m2))
        ∙ ap₂ (λ x y. x ++ y) front
            (drop-drop 15 88 m2
              ∙ sym (take-append-drop 1 (drop 103 m2))
              ∙ ap₂ (λ x y. x ++ y) second.kept.line_end (drop-drop 1 103 m2));
  }
    where
      p : Drawn from s
      p = draw_window-Drawn s o from v.sizes v.offset points inside

      size : length (window from s) ≡ 15
      size = omega (
        arith,
        length-take 15 (drop from (memory s)),
        length-drop from (memory s),
        length-memory s v.sizes,
      )

      first : Kept text amount o d 88 (window from s) s
      first =
          write-Kept text amount o d 88 (window from s) s v (omega arith) (omega (arith, size)) (
            line_end-patch 88 (window from s) (memory s) (length-memory s v.sizes)
              (omega (arith, size)) v.line_end)

      s1 : Device Sha
      s1 = store (patch 88 (window from s) (memory s)) s

      size1 : length (memory s1) ≡ 176
      size1 = length-memory s1 first.kept.sizes

      inside1 : 88 + length (window from s) ≤ length (memory s)
      inside1 = omega (arith, size, length-memory s v.sizes)

      inside2 : 104 + 1 ≤ length (memory s1)
      inside2 = omega (arith, size1)

      second : Kept text amount o d 104 (0 ∷ []) s1
      second = write-Kept text amount o d 104 (0 ∷ []) s1 first.kept (omega arith) (omega arith) (
          slice-patch_before 104 (0 ∷ []) (memory s1) inside2 103 1 (omega arith)
          ∙ first.kept.line_end)

      m2 : List ℕ
      m2 = memory (drawn from s)

      front : take 15 (drop 88 m2) ≡ window from s
      front =
          ap (λ m. take 15 (drop 88 m)) second.written.bytes
          ∙ slice-patch_before 104 (0 ∷ []) (memory s1) inside2 88 15 (omega arith)
          ∙ ap (λ m. take 15 (drop 88 m)) first.written.bytes
          ∙ ap (λ m. take 15 m) (drop-patch_at 88 (window from s) (memory s) inside1)
          ∙ take-append 15 (window from s) _ (sym size)
