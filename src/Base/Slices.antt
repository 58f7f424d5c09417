-- ===== src/Base/Slices.antt =====
-- Python's slices of `bytes` and `bytearray`, at bounds that are not negative.
use Prim.Native.Nat.{ℕ, ◌+◌, ◌-◌, ◌≤◌, max}
use mathlib.Core.Path.{◌≡◌, refl}
use mathlib.Core.Logic.{◌⊎◌, ◌↔◌}
use mathlib.Core.List.{List, [], ◌∷◌, ◌++◌}
use mathlib.Core.Bool.{Bool, true, false, ◌&&◌}
use mathlib.Core.Option.{none}
use native.Mathlib.Omega.{arith}
use ram_link.Base.Tests.{ltb, ◌==◌, if◌then◌else◌}
use ram_link.Base.Lists.{
  length, get_elem?, take, drop, length-append, length-take, length-drop, get_elem?-append,
  get_elem?-take, get_elem?-drop, get_elem?_of_length-le, ext_get_elem?, take-append-drop,
  take_of_length-le,
}

abbrev pub Bytes : Type 0
Bytes = List ℕ

-- `m[a:b]`
unfoldable pub slice : Bytes → ℕ → ℕ → Bytes
slice m a b = take (b - a) (drop a m)

-- `m[a:b] = v`; the list takes another length where `v` is not `b - a` long.
unfoldable pub set_slice : Bytes → ℕ → ℕ → Bytes → Bytes
set_slice m a b v = take a m ++ (v ++ drop (max a b) m)

pub length-slice : (m : Bytes) (a b : ℕ) → a ≤ b → b ≤ length m → length (slice m a b) + a ≡ b
unfolding slice
length-slice m a b p q = omega (arith, length-take (b - a) (drop a m), length-drop a m)

pub length-slice-le : (m : Bytes) (a b : ℕ) → length (slice m a b) ≤ b - a
unfolding slice
length-slice-le m a b = omega (arith, length-take (b - a) (drop a m))

pub length-set_slice :
    (m : Bytes) (a b : ℕ) (v : Bytes)
    → a + length v ≡ b
    → b ≤ length m
    → length (set_slice m a b v) ≡ length m
unfolding set_slice
length-set_slice m a b v p q = omega (
  arith,
  length-append (take a m) (v ++ drop (max a b) m),
  length-append v (drop (max a b) m),
  length-take a m,
  length-drop (max a b) m,
)

pub get_elem?-slice :
    (m : Bytes) (a b i : ℕ)
    → get_elem? (slice m a b) i ≡ (if ltb i (b - a) then get_elem? m (a + i) else none)
unfolding slice
get_elem?-slice m a b i = ground (arith, get_elem?-take (b - a) (drop a m) i, get_elem?-drop a m i)

pub get_elem?-set_slice :
    (m : Bytes) (a b : ℕ) (v : Bytes) (i : ℕ)
    → a + length v ≡ b
    → a ≤ length m
    → get_elem? (set_slice m a b v) i ≡ (
        if ltb i a then get_elem? m i else (if ltb i b then get_elem? v (i - a) else get_elem? m i))
unfolding set_slice
get_elem?-set_slice m a b v i p q = ground (
  arith,
  get_elem?-append (take a m) (v ++ drop (max a b) m) i,
  get_elem?-append v (drop (max a b) m) (i - length (take a m)),
  get_elem?-take a m i,
  get_elem?-drop (max a b) m (i - length (take a m) - length v),
  length-take a m,
)

-- What was written is read back.
pub slice-set_slice_self :
    (m : Bytes) (a b : ℕ) (v : Bytes)
    → a + length v ≡ b
    → a ≤ length m
    → slice (set_slice m a b v) a b ≡ v
slice-set_slice_self m a b v p q = ext_get_elem? _ _ λ i. ground (
  arith,
  get_elem?-slice (set_slice m a b v) a b i,
  get_elem?-set_slice m a b v (a + i),
  get_elem?_of_length-le v i,
)

-- A slice apart from the written one is what it was.
pub slice-set_slice_apart :
    (m : Bytes) (a b c d : ℕ) (v : Bytes)
    → a + length v ≡ b
    → a ≤ length m
    → (d ≤ a) ⊎ (b ≤ c)
    → slice (set_slice m a b v) c d ≡ slice m c d
slice-set_slice_apart m a b c d v p q r = ext_get_elem? _ _ λ i. ground (
  arith,
  get_elem?-slice (set_slice m a b v) c d i,
  get_elem?-slice m c d i,
  get_elem?-set_slice m a b v (c + i),
)

-- Adjacent slices join.
pub slice-append :
    (m : Bytes) (a b c : ℕ)
    → a ≤ b
    → b ≤ c
    → b ≤ length m
    → slice m a b ++ slice m b c ≡ slice m a c
slice-append m a b c p q r = ext_get_elem? _ _ λ i. ground (
  arith,
  get_elem?-append (slice m a b) (slice m b c) i,
  get_elem?-slice m a b i,
  get_elem?-slice m b c (i - length (slice m a b)),
  get_elem?-slice m a c i,
  length-slice m a b p r,
)

-- Two adjacent writes are one.
pub set_slice-append :
    (m : Bytes) (a b c : ℕ) (v w : Bytes)
    → a + length v ≡ b
    → b + length w ≡ c
    → c ≤ length m
    → set_slice (set_slice m a b v) b c w ≡ set_slice m a c (v ++ w)
set_slice-append m a b c v w p q r = ext_get_elem? _ _ λ i. ground (
  arith,
  get_elem?-set_slice (set_slice m a b v) b c w i,
  get_elem?-set_slice m a b v i,
  get_elem?-set_slice m a c (v ++ w) i,
  get_elem?-append v w (i - a),
  length-set_slice m a b v,
  length-append v w,
)

-- `a == b` on bytes
unfoldable pub bytes_eq : Bytes → Bytes → Bool
bytes_eq [] [] = true
bytes_eq [] (y ∷ ys) = false
bytes_eq (x ∷ xs) [] = false
bytes_eq (x ∷ xs) (y ∷ ys) = x == y && bytes_eq xs ys

pub bytes_eq_iff : (xs ys : Bytes) → (bytes_eq xs ys ≡ true) ↔ (xs ≡ ys)
unfolding bytes_eq
bytes_eq_iff [] [] = (λ h. refl, λ h. refl)
bytes_eq_iff [] (y ∷ ys) = ground arith
bytes_eq_iff (x ∷ xs) [] = ground arith
bytes_eq_iff (x ∷ xs) (y ∷ ys) = ground (arith, bytes_eq_iff xs ys)

pub slice_empty : (m : Bytes) (a b : ℕ) → b ≤ a → slice m a b ≡ []
unfolding slice
slice_empty m a b h = let none_left : b - a ≡ 0 = omega arith in rw (slice, none_left) refl

pub set_slice_empty : (m : Bytes) (a : ℕ) → set_slice m a a [] ≡ m
unfolding set_slice
set_slice_empty m a =
    let same : max a a ≡ a = omega arith in rw (set_slice, same) (take-append-drop a m)

pub slice_all : (m : Bytes) (b : ℕ) → length m ≤ b → slice m 0 b ≡ m
unfolding slice
slice_all m b h = take_of_length-le (b - 0) m (omega arith)

-- A part of a part.
pub slice-slice :
    (m : Bytes) (low size a b : ℕ)
    → b ≤ size
    → slice (slice m low (low + size)) a b ≡ slice m (low + a) (low + b)
slice-slice m low size a b p = ext_get_elem? _ _ λ i. ground (
  arith,
  get_elem?-slice (slice m low (low + size)) a b i,
  get_elem?-slice m low (low + size) (a + i),
  get_elem?-slice m (low + a) (low + b) i,
)
