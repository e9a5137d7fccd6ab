-- ===== src/Base/Post.antt =====
-- What holds behind an action: `P` where it returns, `Q` where it throws; the fuel is enough.
use Prim.Native.Nat.{ℕ, zero, suc, ◌+◌}
use mathlib.Core.Path.{◌≡◌, refl}
use mathlib.Core.Logic.{inl, inr}
use mathlib.Core.Bool.{Bool, true, false}
use mathlib.Core.Option.{Option, none, some}
use mathlib.Core.List.{List, [], ◌∷◌}
use ledger_nano.Base.Tests.{if◌then◌else◌, leb, leb→le, Bool-cases}
use ledger_nano.Base.Lists.{length, get_elem?, set, All}
use ledger_nano.Base.Bytes.{write_bytes, length-patch}
use ledger_nano.Base.Exec.{Outcome, ok, throw, fault, stuck, Exec, bind, defined, ◌>>=◌}

abbrev pub Post : {S A : Type 0} → (S → Type 0) → (S → Type 0) → Outcome S A → Type 0
Post P Q (ok a s) = P s
Post P Q (throw e s) = Q s
Post P Q fault = Unit
Post P Q stuck = ⊥

-- What holds of a value that an access may leave undefined.
abbrev pub Yields : {A : Type 0} → (A → Type 0) → Option A → Type 0
Yields P none = Unit
Yields P (some a) = P a

-- An entry of the list has the property that all have.
pub All-get_elem? :
    {A : Type 0} (P : A → Type 0) (xs : List A) (i : ℕ) → All P xs → Yields P (get_elem? xs i)
All-get_elem? P [] i h = tt
All-get_elem? P (x ∷ xs) zero h = h.0
All-get_elem? P (x ∷ xs) (suc i) h = All-get_elem? P xs i h.1

pub All-set :
    {A : Type 0} (P : A → Type 0) (xs : List A) (i : ℕ) (v : A)
    → All P xs
    → P v
    → All P (set xs i v)
All-set P [] i v h p = tt
All-set P (x ∷ xs) zero v h p = (p, h.1)
All-set P (x ∷ xs) (suc i) v h p = (h.0, All-set P xs i v h.1 p)

module _ {S : Type 0} (P Q : S → Type 0) where
  module _ {A B : Type 0} where
    pub bind-Post :
        (R : S → Type 0) (o : Outcome S A) (f : A → Exec S B)
        → Post R Q o
        → ((a : A) (t : S) → R t → Post P Q (f a t))
        → Post P Q (bind o f)
    bind-Post R (ok a t) f h next = next a t h
    bind-Post R (throw e t) f h next = h
    bind-Post R fault f h next = tt
    bind-Post R stuck f h next = h

    pub defined-Post :
        (T : A → Type 0) (x : Option A) (k : A → Exec S B) (s : S)
        → Yields T x
        → ((a : A) → T a → Post P Q (k a s))
        → Post P Q ((defined x >>= k) s)
    defined-Post T none k s h next = tt
    defined-Post T (some a) k s h next = next a h

    pub any-Post :
        (x : Option A) (k : A → Exec S B) (s : S)
        → ((a : A) → Post P Q (k a s))
        → Post P Q ((defined x >>= k) s)
    any-Post none k s next = tt
    any-Post (some a) k s next = next a

  pub if-Post :
      {A : Type 0} (b : Bool) (m n : Exec S A) (s : S)
      → (b ≡ true → Post P Q (m s))
      → (b ≡ false → Post P Q (n s))
      → Post P Q ((if b then m else n) s)
  if-Post true m n s yes_case no_case = yes_case refl
  if-Post false m n s yes_case no_case = no_case refl

module _ {S A : Type 0} {P Q P' Q' : S → Type 0} where
  pub Post-mono :
      (o : Outcome S A)
      → ((s : S) → P s → P' s)
      → ((s : S) → Q s → Q' s)
      → Post P Q o
      → Post P' Q' o
  Post-mono (ok a s) f g h = f s h
  Post-mono (throw e s) f g h = g s h
  Post-mono fault f g h = tt
  Post-mono stuck f g h = h

abbrev pub SameLength : List ℕ → List ℕ → Type 0
SameLength old new = length new ≡ length old

-- A copy into an array changes no length.
pub write_bytes-SameLength :
    (mem : List ℕ) (off : ℕ) (bs : List ℕ) → Yields (SameLength mem) (write_bytes mem off bs)
unfolding write_bytes
write_bytes-SameLength mem off bs = elim (Bool-cases (leb (off + length bs) (length mem))) [
  | inl fits ↦ rw fits (length-patch mem off bs (leb→le (off + length bs) (length mem) fits))
  | inr over ↦ rw over tt
]

module _ {S B : Type 0} (P Q : S → Type 0) where
  pub write-Post :
      (mem : List ℕ) (off : ℕ) (bs : List ℕ) (k : List ℕ → Exec S B) (s : S)
      → ((new : List ℕ) → length new ≡ length mem → Post P Q (k new s))
      → Post P Q ((defined (write_bytes mem off bs) >>= k) s)
  write-Post mem off bs k s next =
      defined-Post P Q (SameLength mem) (write_bytes mem off bs) k s
        (write_bytes-SameLength mem off bs) next
