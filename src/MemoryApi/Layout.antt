-- ===== src/MemoryApi/Layout.antt =====
-- The regions of a memory do not meet.
use mathlib.Core.Option.{some-injective}
use ram_link.Base.{
  ◌≢◌, lt-or-le, ℕ, zero, suc, ◌+◌, ◌≤◌, ◌<◌, ◌≡◌, refl, ◌∙◌, ap, sym, subst, inl, inr, ◌⊎◌, [],
  ◌∷◌, ◌++◌, List, some, false, arith, length, get_elem?, ok, err, value_error, memory_error,
}
use ram_link.MemoryApi.Regions.{MemoryRegion, RamLinkMemory, allocate, set_closed, all_closed}

-- The regions stand one behind the other, from `start` to `stop`.
abbrev pub IsLaid : ℕ → ℕ → List MemoryRegion → Type 0
IsLaid start stop [] = start ≡ stop
IsLaid start stop (r ∷ rs) = (r.offset ≡ start) × (0 < r.size) × IsLaid (start + r.size) stop rs

-- The memory is divided from its beginning to `next_offset`, which it does not exceed.
pub record IsDivided {Remote : Type 0} (m : RamLinkMemory Remote) : Type 0 where
  pub laid : IsLaid 0 m.next_offset m.regions
  pub within : m.next_offset ≤ m.store.cache.remote_size

IsLaid-le : (start stop : ℕ) (rs : List MemoryRegion) → IsLaid start stop rs → start ≤ stop
IsLaid-le start stop [] h = omega arith
IsLaid-le start stop (r ∷ rs) h = omega (arith, IsLaid-le (start + r.size) stop rs h.2)

IsLaid-bounds :
    (start stop : ℕ) (rs : List MemoryRegion) (i : ℕ) (r : MemoryRegion)
    → IsLaid start stop rs
    → get_elem? rs i ≡ some r
    → (start ≤ r.offset) × (r.offset + r.size ≤ stop) × (0 < r.size)
IsLaid-bounds start stop [] i r h e = cc
IsLaid-bounds start stop (x ∷ rs) zero r h e =
    subst (λ (r : MemoryRegion). (start ≤ r.offset) × (r.offset + r.size ≤ stop) × (0 < r.size))
      (some-injective x r e)
      (omega arith, omega (arith, IsLaid-le (start + x.size) stop rs h.2), h.1)
IsLaid-bounds start stop (x ∷ rs) (suc i) r h e =
    let (low, high, pos) = IsLaid-bounds (start + x.size) stop rs i r h.2 e in
    (omega arith, high, pos)

-- Two regions of the list do not meet.
IsLaid-apart :
    (start stop : ℕ) (rs : List MemoryRegion) (i j : ℕ) (r q : MemoryRegion)
    → IsLaid start stop rs
    → i < j
    → get_elem? rs i ≡ some r
    → get_elem? rs j ≡ some q
    → r.offset + r.size ≤ q.offset
IsLaid-apart start stop [] i j r q h lt e f = cc
IsLaid-apart start stop (x ∷ rs) i zero r q h lt e f = absurd (omega arith)
IsLaid-apart start stop (x ∷ rs) zero (suc j) r q h lt e f =
    let (low, _, _) = IsLaid-bounds (start + x.size) stop rs j q h.2 f in
    subst (λ (r : MemoryRegion). r.offset + r.size ≤ q.offset) (some-injective x r e) (omega arith)
IsLaid-apart start stop (x ∷ rs) (suc i) (suc j) r q h lt e f =
    IsLaid-apart (start + x.size) stop rs i j r q h.2 (omega arith) e f

pub IsLaid-append :
    (start stop : ℕ) (rs : List MemoryRegion) (r : MemoryRegion)
    → IsLaid start stop rs
    → r.offset ≡ stop
    → 0 < r.size
    → IsLaid start (stop + r.size) (rs ++ (r ∷ []))
IsLaid-append start stop [] r h at pos = (at ∙ sym h, pos, ap (λ (n : ℕ). n + r.size) h)
IsLaid-append start stop (x ∷ rs) r h at pos =
    (h.0, h.1, IsLaid-append (start + x.size) stop rs r h.2 at pos)

pub IsLaid-set_closed :
    (start stop : ℕ) (rs : List MemoryRegion) (i : ℕ)
    → IsLaid start stop rs
    → IsLaid start stop (set_closed rs i)
IsLaid-set_closed start stop [] i h = h
IsLaid-set_closed start stop (x ∷ rs) zero h = h
IsLaid-set_closed start stop (x ∷ rs) (suc i) h =
    (h.0, h.1, IsLaid-set_closed (start + x.size) stop rs i h.2)

pub IsLaid-all_closed :
    (start stop : ℕ) (rs : List MemoryRegion)
    → IsLaid start stop rs
    → IsLaid start stop (all_closed rs)
IsLaid-all_closed start stop [] h = h
IsLaid-all_closed start stop (x ∷ rs) h = (h.0, h.1, IsLaid-all_closed (start + x.size) stop rs h.2)

module _ {Remote : Type 0} where
  -- Regions of a divided memory lie in the remote memory.
  pub region-bounds :
      (m : RamLinkMemory Remote) (i : ℕ) (r : MemoryRegion)
      → IsDivided m
      → get_elem? m.regions i ≡ some r
      → (0 < r.size) × (r.offset + r.size ≤ m.store.cache.remote_size)
  region-bounds m i r h e =
      let (_, high, pos) = IsLaid-bounds 0 m.next_offset m.regions i r h.laid e in
      (pos, omega (arith, high, h.within))

  pub regions-apart :
      (m : RamLinkMemory Remote) (i j : ℕ) (r q : MemoryRegion)
      → IsDivided m
      → i ≢ j
      → get_elem? m.regions i ≡ some r
      → get_elem? m.regions j ≡ some q
      → (r.offset + r.size ≤ q.offset) ⊎ (q.offset + q.size ≤ r.offset)
  regions-apart m i j r q h ne e f = elim (lt-or-le i j) [
    | inl lt ↦ inl (IsLaid-apart 0 m.next_offset m.regions i j r q h.laid lt e f)
    | inr le ↦ inr (IsLaid-apart 0 m.next_offset m.regions j i q r h.laid (strict le) f e)
  ]
    where
      strict : j ≤ i → j < i
      strict le = elim (lt-or-le j i) [ inl lt ↦ lt | inr ge ↦ absurd (ne (omega arith)) ]

module _ {Remote : Type 0} (m : RamLinkMemory Remote) (size : ℕ) where
  -- The memory with one region more.
  abbrev pub grown : RamLinkMemory Remote
  grown = record m {
    next_offset = m.next_offset + size;
    regions = m.regions ++ (record { offset = m.next_offset; size = size; closed = false } ∷ []);
  }

  pub allocate-none : size ≡ 0 → allocate size m ≡ (err value_error, m)
  unfolding allocate
  allocate-none h = ground arith

  pub allocate-full :
      0 < size
      → m.store.cache.remote_size < m.next_offset + size
      → allocate size m ≡ (err memory_error, m)
  unfolding allocate
  allocate-full pos full = ground arith

  pub allocate-grown :
      0 < size
      → m.next_offset + size ≤ m.store.cache.remote_size
      → allocate size m ≡ (ok (length m.regions), grown)
  unfolding allocate
  allocate-grown pos fits = ground arith

  pub grown-IsDivided :
      0 < size → m.next_offset + size ≤ m.store.cache.remote_size → IsDivided m → IsDivided grown
  grown-IsDivided pos fits d = record {
    laid =
        IsLaid-append 0 m.next_offset m.regions
          (record { offset = m.next_offset; size = size; closed = false }) d.laid refl pos;
    within = fits;
  }
