-- ===== src/Base/Dicts.antt =====
-- Python's dict keyed by numbers, in insertion order. `OrderedDict` is one whose order matters.
use Prim.Native.Nat.{ℕ, ◌+◌}
use mathlib.Core.Path.{◌≡◌, refl}
use mathlib.Core.Bool.{Bool, true, false}
use mathlib.Core.Logic.{◌⊎◌, inl, inr}
use mathlib.Core.List.{List, [], ◌∷◌, ◌++◌}
use mathlib.Core.Option.{Option, none, some}
use native.Mathlib.Omega.{arith}
use ram_link.Base.Tests.{◌==◌, if◌then◌else◌, Option-cases}
use ram_link.Base.Lists.{length}

abbrev pub Dict {ℓ} : Type ℓ → Type ℓ
Dict V = List (ℕ × V)

module _ {ℓ} {V : Type ℓ} where
  -- `entries.get(key)`
  abbrev pub lookup : ℕ → Dict V → Option V
  lookup key [] = none
  lookup key ((other, value) ∷ entries) = if other == key then some value else lookup key entries

  -- `entries[key] = value`: in place, or at the end if the key is new
  abbrev pub insert : ℕ → V → Dict V → Dict V
  insert key value [] = (key, value) ∷ []
  insert key value ((other, old) ∷ entries) =
      if other == key then (key, value) ∷ entries else (other, old) ∷ insert key value entries

  -- `entries.pop(key)`
  abbrev pub erase : ℕ → Dict V → Dict V
  erase key [] = []
  erase key ((other, value) ∷ entries) =
      if other == key then entries else (other, value) ∷ erase key entries

  -- `key in entries`
  abbrev pub contains : ℕ → Dict V → Bool
  contains key entries = elim (lookup key entries) [ some _ ↦ true | none ↦ false ]

  -- `d.move_to_end(k)`; the source calls it at a key that is there
  abbrev pub move_to_end : ℕ → Dict V → Dict V
  move_to_end k d = elim (lookup k d) [ none ↦ d | some v ↦ erase k d ++ ((k, v) ∷ []) ]

  -- No key stands twice.
  abbrev pub HasDistinctKeys : Dict V → Type ℓ
  HasDistinctKeys [] = Unit {ℓ}
  HasDistinctKeys ((k, v) ∷ d) = (lookup k d ≡ none) × HasDistinctKeys d

  pub lookup-insert :
      (j k : ℕ) (v : V) (d : Dict V)
      → lookup j (insert k v d) ≡ (if j == k then some v else lookup j d)
  lookup-insert j k v [] = ground arith
  lookup-insert j k v (e ∷ d) = ground (arith, lookup-insert j k v d)

  pub lookup-insert_self : (k : ℕ) (v : V) (d : Dict V) → lookup k (insert k v d) ≡ some v
  lookup-insert_self k v d = ground (arith, lookup-insert k k v d)

  pub lookup-append :
      (j : ℕ) (d e : Dict V)
      → lookup j (d ++ e) ≡ elim (lookup j d) [ none ↦ lookup j e | some v ↦ some v ]
  lookup-append j [] e = refl
  lookup-append j (x ∷ d) e = ground (arith, lookup-append j d e)

  pub lookup-erase :
      (j k : ℕ) (d : Dict V)
      → HasDistinctKeys d
      → lookup j (erase k d) ≡ (if j == k then none else lookup j d)
  lookup-erase j k [] h = ground arith
  lookup-erase j k (e ∷ d) h = ground (arith, lookup-erase j k d h.1)

  pub lookup-move_to_end :
      (j k : ℕ) (d : Dict V) → HasDistinctKeys d → lookup j (move_to_end k d) ≡ lookup j d
  lookup-move_to_end j k d h = elim (Option-cases (lookup k d)) [
    | inl absent ↦ ground arith
    | inr (v, found) ↦
        ground (arith, lookup-erase j k d h, lookup-append j (erase k d) ((k, v) ∷ []))
  ]

  pub insert_new :
      (k : ℕ) (v : V) (d : Dict V) → lookup k d ≡ none → insert k v d ≡ d ++ ((k, v) ∷ [])
  insert_new k v [] h = refl
  insert_new k v (e ∷ d) h = ground (arith, insert_new k v d)

  pub insert-HasDistinctKeys :
      (k : ℕ) (v : V) (d : Dict V) → HasDistinctKeys d → HasDistinctKeys (insert k v d)
  insert-HasDistinctKeys k v [] h = (refl, tt)
  insert-HasDistinctKeys k v (e ∷ d) h =
      ground (arith, insert-HasDistinctKeys k v d h.1, lookup-insert e.0 k v d)

  pub erase-HasDistinctKeys : (k : ℕ) (d : Dict V) → HasDistinctKeys d → HasDistinctKeys (erase k d)
  erase-HasDistinctKeys k [] h = tt
  erase-HasDistinctKeys k (e ∷ d) h =
      ground (arith, erase-HasDistinctKeys k d h.1, lookup-erase e.0 k d h.1)

  pub append-HasDistinctKeys :
      (k : ℕ) (v : V) (d : Dict V)
      → HasDistinctKeys d
      → lookup k d ≡ none
      → HasDistinctKeys (d ++ ((k, v) ∷ []))
  append-HasDistinctKeys k v [] h e = (refl, tt)
  append-HasDistinctKeys k v (x ∷ d) h e =
      ground (arith, append-HasDistinctKeys k v d h.1, lookup-append x.0 d ((k, v) ∷ []))

  pub length-erase :
      (k : ℕ) (v : V) (d : Dict V) → lookup k d ≡ some v → length (erase k d) + 1 ≡ length d
  length-erase k v [] h = cc
  length-erase k v (e ∷ d) h = ground (arith, length-erase k v d)

  pub erase_absent : (k : ℕ) (d : Dict V) → lookup k d ≡ none → erase k d ≡ d
  erase_absent k [] h = refl
  erase_absent k (e ∷ d) h = ground (arith, erase_absent k d)

  pub move_to_end-HasDistinctKeys :
      (k : ℕ) (d : Dict V) → HasDistinctKeys d → HasDistinctKeys (move_to_end k d)
  move_to_end-HasDistinctKeys k d h = elim (Option-cases (lookup k d)) [
    | inl absent ↦ rw (absent, move_to_end) h
    | inr (v, found) ↦
        rw (found, move_to_end)
          (append-HasDistinctKeys k v (erase k d) (erase-HasDistinctKeys k d h)
            (ground (arith, lookup-erase k k d h)))
  ]

  pub Dict-cases :
      (d : Dict V) → (d ≡ []) ⊎ ((k : ℕ) × (v : V) × (rest : Dict V) × (d ≡ (k, v) ∷ rest))
  Dict-cases [] = inl refl
  Dict-cases ((k, v) ∷ rest) = inr (k, v, rest, refl)
