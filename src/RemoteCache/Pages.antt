-- ===== src/RemoteCache/Pages.antt =====
-- The dict of pages: what `trim` keeps, and the bound on the number of pages.
use ram_link.Base.{
  ℕ, ◌≤◌, ◌<◌, ◌≡◌, refl, none, some, Option-cases, inl, inr, arith, [], ◌∷◌, ◌++◌, length,
  length-append, Bytes, Dict, lookup, insert, erase, move_to_end, length-erase, lookup-append,
  HasDistinctKeys,
}
use ram_link.RemoteCache.Defs.{RemoteCache, trim}

pub length-trim : (n : ℕ) (d : Dict Bytes) → length (trim n d) ≤ n
unfolding trim
length-trim n [] = omega arith
length-trim n (e ∷ d) = ground (arith, length-trim n d)

pub trim-HasDistinctKeys : (n : ℕ) (d : Dict Bytes) → HasDistinctKeys d → HasDistinctKeys (trim n d)
unfolding trim
trim-HasDistinctKeys n [] h = h
trim-HasDistinctKeys n (e ∷ d) h = ground (arith, trim-HasDistinctKeys n d h.1, h)

-- The newest page stays.
pub trim_last :
    (n p : ℕ) (v : Bytes) (d : Dict Bytes)
    → 0 < n
    → lookup p d ≡ none
    → lookup p (trim n (d ++ ((p, v) ∷ []))) ≡ some v
unfolding trim
trim_last n p v [] pos absent = ground arith
trim_last n p v (e ∷ d) pos absent =
    ground (arith, trim_last n p v d pos, lookup-append p d ((p, v) ∷ []))

pub length-insert_present :
    (k : ℕ) (v w : Bytes) (d : Dict Bytes) → lookup k d ≡ some v → length (insert k w d) ≡ length d
length-insert_present k v w [] found = cc found
length-insert_present k v w (e ∷ d) found = ground (arith, length-insert_present k v w d)

pub length-move_to_end : (k : ℕ) (d : Dict Bytes) → length (move_to_end k d) ≡ length d
length-move_to_end k d = elim (Option-cases (lookup k d)) [
  | inl absent ↦ ground (arith, absent)
  | inr (v, found) ↦
      ground (arith, found, length-erase k v d found, length-append (erase k d) ((k, v) ∷ []))
]

pub newest :
    (p : ℕ) (v : Bytes) (d : Dict Bytes)
    → lookup p d ≡ some v
    → move_to_end p d ≡ erase p d ++ ((p, v) ∷ [])
newest p v d found = rw (found, move_to_end) refl

-- At most `capacity` pages are cached, and no page twice.
pub record IsBounded (c : RemoteCache) : Type 0 where
  pub room : 0 < c.capacity
  pub few : length c.pages ≤ c.capacity
  pub distinct : HasDistinctKeys c.pages
