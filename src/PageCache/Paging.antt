-- ===== src/PageCache/Paging.antt =====
-- Addresses and pages of a memory of `size` bytes.
use native.Mathlib.Nat.{
  div-add-mod', mod-lt, mul-add-div_right, add-mul-mod_self_right, div-eq_of_lt, mod-eq_of_lt,
  add_comm,
}
use ram_link.Base.{
  ℕ, suc, zero, ◌+◌, ◌-◌, ◌*◌, ◌/◌, ◌%◌, ◌≤◌, ◌<◌, min, ◌≡◌, ◌∙◌, ap, sym, some, inl, inr, arith,
  length, slice, get_elem?, get_elem?-slice, get_elem?_of_length-le, Bytes, Dict, lookup, erase,
  HasDistinctKeys, erase-HasDistinctKeys, lookup-erase, length-erase, erase_absent, Option-cases,
  [], ◌∷◌,
}

-- The length of page `p`: the last page can be shorter.
abbrev pub page_length : ℕ → ℕ → ℕ → ℕ
page_length page_size size p = min page_size (size - p * page_size)

pub div_page : (p ps r : ℕ) → r < ps → (p * ps + r) / ps ≡ p
div_page p ps r h = mul-add-div_right {m = ps} (omega arith) p r ∙ omega (arith, div-eq_of_lt h)

pub mod_page : (p ps r : ℕ) → r < ps → (p * ps + r) % ps ≡ r
mod_page p ps r h =
    ap (λ (t : ℕ). t % ps) (add_comm (p * ps) r) ∙ add-mul-mod_self_right r p ps ∙ mod-eq_of_lt h

-- An address is its place on its page.
pub page_split : (i ps : ℕ) → 0 < ps → ((i / ps) * ps + i % ps ≡ i) × (i % ps < ps)
page_split i ps h = (div-add-mod' i ps, mod-lt i h)

-- A page of a memory of at most `count` pages is one of the first `count`.
pub page_below : (p ps size count : ℕ) → p * ps < size → size ≤ count * ps → p < count
page_below p ps size count h k = grind arith

-- Where a page holds the memory's own bytes, its bytes are those of the memory.
pub get_elem?-page :
    (m : Bytes) (ps size p i : ℕ)
    → 0 < ps
    → length m ≡ size
    → i / ps ≡ p
    → get_elem? (slice m (p * ps) (p * ps + page_length ps size p)) (i % ps) ≡ get_elem? m i
get_elem?-page m ps size p i pos e on =
    let (whole, small) = page_split i ps pos in
    let back : p * ps + i % ps ≡ i = ap (λ (q : ℕ). q * ps + i % ps) (sym on) ∙ whole in
    ground (
      arith,
      get_elem?-slice m (p * ps) (p * ps + page_length ps size p) (i % ps),
      get_elem?_of_length-le m i,
      back,
      ap (get_elem? m) back,
    )

-- No more pages than there are numbers below `n`.
pub length-le_of_keys :
    {V : Type 0} (n : ℕ) (d : Dict V)
    → HasDistinctKeys d
    → ((k : ℕ) (v : V) → lookup k d ≡ some v → k < n)
    → length d ≤ n
length-le_of_keys zero [] distinct below = omega arith
length-le_of_keys zero ((k, v) ∷ d) distinct below =
    absurd (omega (arith, below k v (ground arith)))
length-le_of_keys {V} (suc n) d distinct below =
    let shorter : length (erase n d) ≤ n =
      length-le_of_keys n (erase n d) (erase-HasDistinctKeys n d distinct)
        (λ k v e. ground (arith, lookup-erase k n d distinct, below k v)) in
    elim (Option-cases (lookup n d)) [
      | inl absent ↦ omega (arith, ap (length {A = ℕ × V}) (erase_absent n d absent))
      | inr (v, found) ↦ omega (arith, length-erase n v d found)
    ]

-- The page of an address between two multiples of the page size.
pub page_of : (i p ps : ℕ) → p * ps ≤ i → i < p * ps + ps → i / ps ≡ p
page_of i p ps low high =
    let split : p * ps + (i - p * ps) ≡ i = omega arith in
    ap (λ (a : ℕ). a / ps) (sym split) ∙ div_page p ps (i - p * ps) (omega arith)
