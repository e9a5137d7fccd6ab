-- ===== src/Base/Exec.antt =====
-- The effects of the C code: a state, exceptions of the SDK (`THROW`, which keep what was written
-- before), undefined behaviour (`fault`), and fuel that ran out (`stuck`, no C value).
use mathlib.Core.Option.{Option, none, some}
use mathlib.Core.Path.{◌≡◌}
use Prim.Native.Nat.{ℕ}

pub data Outcome (S A : Type 0) : Type 0 where
  ok : A → S → Outcome S A
  throw : ℕ → S → Outcome S A
  fault : Outcome S A
  stuck : Outcome S A

abbrev pub Exec : Type 0 → Type 0 → Type 0
Exec S A = S → Outcome S A

module _ {S A : Type 0} where
  abbrev pub pure : A → Exec S A
  pure a s = ok a s

  abbrev pub raise : ℕ → Exec S A
  raise e s = throw e s

  abbrev pub gets : (S → A) → Exec S A
  gets f s = ok (f s) s

  -- A value of an access that may be out of bounds.
  abbrev pub defined : Option A → Exec S A
  defined none s = fault
  defined (some a) s = ok a s

-- The outcome is the exception `e`.
abbrev pub Throws : {S A : Type 0} → ℕ → Outcome S A → Type 0
Throws e (ok a s) = ⊥
Throws e (throw e' s) = e' ≡ e
Throws e fault = ⊥
Throws e stuck = ⊥

abbrev pub modify : {S : Type 0} → (S → S) → Exec S (Unit {0})
modify f s = ok tt (f s)

abbrev pub bind : {S A B : Type 0} → Outcome S A → (A → Exec S B) → Outcome S B
bind (ok a s) f = f a s
bind (throw e s) f = throw e s
bind fault f = fault
bind stuck f = stuck

infixl 5 ◌>>=◌ ◌>>◌
abbrev pub ◌>>=◌ : {S A B : Type 0} → Exec S A → (A → Exec S B) → Exec S B
◌>>=◌ m f s = bind (m s) f

abbrev pub ◌>>◌ : {S B : Type 0} → Exec S (Unit {0}) → Exec S B → Exec S B
m >> k = m >>= λ _. k
