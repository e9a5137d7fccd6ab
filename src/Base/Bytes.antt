-- ===== src/Base/Bytes.antt =====
-- C arrays of bytes as lists: bounded copies (`os_memmove`), single cells, and the words of the
-- macros U4BE, U4LE and U8LE. `none` is an access outside the array, which C leaves undefined.
use Prim.Native.Nat.{ℕ, zero, suc, ◌+◌, ◌*◌, ◌/◌, ◌%◌, ◌^◌, ◌≤◌, ◌<◌}
use mathlib.Core.Path.{◌≡◌, refl, ap}
use mathlib.Core.List.{List, [], ◌∷◌, ◌++◌, append_assoc}
use mathlib.Core.Option.{Option, none, some}
use native.Mathlib.Omega.{arith}
use ledger_nano.Base.Tests.{leb, if◌then◌else◌, le→leb, lt→leb}
use ledger_nano.Base.Lists.{
  length, get_elem?, get_or, take, drop, take-append, drop-append, length-append, length-take,
  length-drop,
}

abbrev pub IsByte : ℕ → Type 0
IsByte b = b < 256

abbrev pub IsU32 : ℕ → Type 0
IsU32 w = w < 2 ^ 32

-- The `n` bytes from index `off` on.
unfoldable pub read_bytes : List ℕ → ℕ → ℕ → Option (List ℕ)
read_bytes mem off n = if leb (off + n) (length mem) then some (take n (drop off mem)) else none

-- `mem` with `bs` copied to index `off`.
unfoldable pub write_bytes : List ℕ → ℕ → List ℕ → Option (List ℕ)
write_bytes mem off bs =
    if leb (off + length bs) (length mem)
    then some (take off mem ++ (bs ++ drop (off + length bs) mem))
    else none

pub read_bytes_in :
    (mem : List ℕ) (off n : ℕ)
    → off + n ≤ length mem
    → read_bytes mem off n ≡ some (take n (drop off mem))
unfolding read_bytes
read_bytes_in mem off n h = rw (le→leb _ _ h)

pub read_bytes_out : (mem : List ℕ) (off n : ℕ) → length mem < off + n → read_bytes mem off n ≡ none
unfolding read_bytes
read_bytes_out mem off n h = rw (lt→leb _ _ h)

pub write_bytes_in :
    (mem : List ℕ) (off : ℕ) (bs : List ℕ)
    → off + length bs ≤ length mem
    → write_bytes mem off bs ≡ some (take off mem ++ (bs ++ drop (off + length bs) mem))
unfolding write_bytes
write_bytes_in mem off bs h = rw (le→leb _ _ h)

pub write_bytes_out :
    (mem : List ℕ) (off : ℕ) (bs : List ℕ)
    → length mem < off + length bs
    → write_bytes mem off bs ≡ none
unfolding write_bytes
write_bytes_out mem off bs h = rw (lt→leb _ _ h)

-- A copy changes no length.
pub length-patch :
    (mem : List ℕ) (off : ℕ) (bs : List ℕ)
    → off + length bs ≤ length mem
    → length (take off mem ++ (bs ++ drop (off + length bs) mem)) ≡ length mem
length-patch mem off bs h = omega (
  arith,
  length-append (take off mem) (bs ++ drop (off + length bs) mem),
  length-append bs (drop (off + length bs) mem),
  length-take off mem,
  length-drop (off + length bs) mem,
)

-- Big-endian and little-endian words, as the macros read them: each shifts and joins bytes.
abbrev pub u4be : ℕ → ℕ → ℕ → ℕ → ℕ
u4be a b c d = a * 2 ^ 24 + b * 2 ^ 16 + c * 2 ^ 8 + d

abbrev pub u4le : ℕ → ℕ → ℕ → ℕ → ℕ
u4le a b c d = u4be d c b a

-- `U4LE(buf, off)` inside an array.
abbrev pub u4le_at : List ℕ → ℕ → ℕ
u4le_at buf off =
    u4le (get_or buf off 0) (get_or buf (off + 1) 0) (get_or buf (off + 2) 0)
      (get_or buf (off + 3) 0)

-- `n` bytes of a number, lowest first: what a host sends for the word that U4LE or U8LE reads.
abbrev pub le_bytes : ℕ → ℕ → List ℕ
le_bytes zero w = []
le_bytes (suc n) w = w % 256 ∷ le_bytes n (w / 256)

pub length-le_bytes : (n w : ℕ) → length (le_bytes n w) ≡ n
length-le_bytes zero w = refl
length-le_bytes (suc n) w = ap suc (length-le_bytes n (w / 256))

-- A copy out of the middle, and into the middle, of an array.
pub read_bytes_middle :
    (pre mid post : List ℕ) (off n : ℕ)
    → off ≡ length pre
    → n ≡ length mid
    → read_bytes (pre ++ (mid ++ post)) off n ≡ some mid
read_bytes_middle pre mid post off n ho hn = rw (
  read_bytes_in (pre ++ (mid ++ post)) off n
      (omega (arith, length-append pre (mid ++ post), length-append mid post)),
  drop-append off pre (mid ++ post) ho,
  take-append n mid post hn,
)

pub write_bytes_middle :
    (pre old post bs : List ℕ) (off : ℕ)
    → off ≡ length pre
    → length bs ≡ length old
    → write_bytes (pre ++ (old ++ post)) off bs ≡ some (pre ++ (bs ++ post))
write_bytes_middle pre old post bs off ho hl = rw (
  write_bytes_in (pre ++ (old ++ post)) off bs
      (omega (arith, length-append pre (old ++ post), length-append old post)),
  take-append off pre (old ++ post) ho,
  ← append_assoc pre old post,
  drop-append (off + length bs) (pre ++ old) post (omega (arith, length-append pre old)),
)

pub get_elem?-append :
    (xs ys : List ℕ) (i j : ℕ) → j ≡ length xs + i → get_elem? (xs ++ ys) j ≡ get_elem? ys i
get_elem?-append [] ys i j h = ap (λ k. get_elem? ys k) (omega arith)
get_elem?-append (x ∷ xs) ys i zero h = absurd (omega arith)
get_elem?-append (x ∷ xs) ys i (suc j) h = get_elem?-append xs ys i j (omega arith)
