-- ===== src/Server/Regions.antt =====
-- `find_free_region` (android/termux/server.py) is first fit: the region that it returns is free, and
-- there is none before it.
use ram_link.Base.{
  subst, ◌==◌, ℕ, ◌+◌, ◌≤◌, ◌<◌, max, ◌≡◌, ◌⊎◌, inl, inr, true, List, [], ◌∷◌, some, arith, ltb,
  leb, Bool-cases, if◌then◌else◌, All, All-mono, Dict, lookup, HasDistinctKeys, lt→ltb,
}
use ram_link.Server.Leases.{
  Lease, RamLinkServer, live, insert_by_offset, sort_by_offset, scan_regions, find_free_region,
}

-- The region does not meet the lease's.
abbrev pub Apart : ℕ → ℕ → Lease → Type 0
Apart offset size lease = (offset + size ≤ lease.offset) ⊎ (lease.offset + lease.length ≤ offset)

abbrev pub IsSorted : List Lease → Type 0
IsSorted [] = Unit
IsSorted (lease ∷ leases) = All (λ other. lease.offset ≤ other.offset) leases × IsSorted leases

module _ (P : Lease → Type 0) where
  All-insert : (l : Lease) (ls : List Lease) → P l → All P ls → All P (insert_by_offset l ls)
  unfolding insert_by_offset
  All-insert l [] h k = (h, tt)
  All-insert l (m ∷ ls) h k = elim (Bool-cases (leb l.offset m.offset)) [
    | inl first ↦ rw first (h, k)
    | inr later ↦ rw later (k.0, All-insert l ls h k.1)
  ]

  insert-All : (l : Lease) (ls : List Lease) → All P (insert_by_offset l ls) → P l × All P ls
  unfolding insert_by_offset
  insert-All l [] h = h
  insert-All l (m ∷ ls) h = elim (Bool-cases (leb l.offset m.offset)) [
    | inl first ↦ rw first at h
    | inr later ↦
        let k : P m × All P (insert_by_offset l ls) = rw later at h in
        let (here, there) = insert-All l ls k.1 in (here, (k.0, there))
  ]

  pub All-sort : (ls : List Lease) → All P ls → All P (sort_by_offset ls)
  unfolding sort_by_offset
  All-sort [] h = tt
  All-sort (l ∷ ls) h = All-insert l (sort_by_offset ls) h.0 (All-sort ls h.1)

  pub sort-All : (ls : List Lease) → All P (sort_by_offset ls) → All P ls
  unfolding sort_by_offset
  sort-All [] h = tt
  sort-All (l ∷ ls) h =
      let (here, there) = insert-All l (sort_by_offset ls) h in (here, sort-All ls there)

insert-IsSorted : (l : Lease) (ls : List Lease) → IsSorted ls → IsSorted (insert_by_offset l ls)
unfolding insert_by_offset
insert-IsSorted l [] h = (tt, tt)
insert-IsSorted l (m ∷ ls) h = elim (Bool-cases (leb l.offset m.offset)) [
  | inl first ↦
      let le : l.offset ≤ m.offset = ground arith in
      rw first ((le, All-mono ls (λ other (k : m.offset ≤ other.offset). omega arith) h.0), h)
  | inr later ↦ rw later (
    All-insert (λ other. m.offset ≤ other.offset) l ls (ground arith) h.0,
    insert-IsSorted l ls h.1,
  )
]

pub sort-IsSorted : (ls : List Lease) → IsSorted (sort_by_offset ls)
unfolding sort_by_offset
sort-IsSorted [] = tt
sort-IsSorted (l ∷ ls) = insert-IsSorted l (sort_by_offset ls) (sort-IsSorted ls)

scan-le :
    (size length cursor c : ℕ) (ls : List Lease)
    → scan_regions size length cursor ls ≡ some c
    → cursor ≤ c
unfolding scan_regions
scan-le size length cursor c [] h = ground arith
scan-le size length cursor c (l ∷ ls) h =
    ground (arith, scan-le size length (max cursor (l.offset + l.length)) c ls)

pub scan-fits :
    (size length cursor c : ℕ) (ls : List Lease)
    → All (λ l. l.offset + l.length ≤ size) ls
    → scan_regions size length cursor ls ≡ some c
    → c + length ≤ size
unfolding scan_regions
scan-fits size length cursor c [] b h = ground arith
scan-fits size length cursor c (l ∷ ls) b h =
    ground (arith, scan-fits size length (max cursor (l.offset + l.length)) c ls b.1)

pub scan-Apart :
    (size length cursor c : ℕ) (ls : List Lease)
    → IsSorted ls
    → scan_regions size length cursor ls ≡ some c
    → All (Apart c length) ls
unfolding scan_regions
scan-Apart size length cursor c [] sorted h = tt
scan-Apart size length cursor c (l ∷ ls) sorted h =
    elim (Bool-cases (leb (cursor + length) l.offset)) [
      | inl free ↦
          let le : c + length ≤ l.offset = ground arith in
          (inl le, All-mono ls (λ m (k : l.offset ≤ m.offset). inl (omega arith)) sorted.0)
      | inr taken ↦
          let next : ℕ = max cursor (l.offset + l.length) in
          let h' : scan_regions size length next ls ≡ some c = rw taken at h in
          let le = scan-le size length next c ls h' in
          (inr (omega arith), scan-Apart size length next c ls sorted.1 h')
    ]

-- No region that is free begins before the one returned.
scan-first :
    (size length cursor o : ℕ) (ls : List Lease)
    → 0 < length
    → o + length ≤ size
    → cursor ≤ o
    → All (Apart o length) ls
    → (c : ℕ) × (scan_regions size length cursor ls ≡ some c) × (c ≤ o)
unfolding scan_regions
scan-first size length cursor o [] pos fits low h = (cursor, ground arith, low)
scan-first size length cursor o (l ∷ ls) pos fits low h =
    elim (Bool-cases (leb (cursor + length) l.offset)) [
      | inl free ↦ (cursor, rw free, low)
      | inr taken ↦ rw taken (
          scan-first size length (max cursor (l.offset + l.length)) o ls pos fits (ground arith)
            h.1)
    ]

-- Between the leases of the table and the list of those that are alive.
live-All :
    (P : Lease → Type 0) (now : ℕ) (d : Dict Lease)
    → HasDistinctKeys d
    → ((k : ℕ) (l : Lease) → lookup k d ≡ some l → now < l.expires_at → P l)
    → All P (live now d)
unfolding live
live-All P now [] distinct h = tt
live-All P now ((j, m) ∷ d) distinct h =
    let rest : All P (live now d) =
      live-All P now d distinct.1 (λ k l e a. h k l (ground arith) a) in
    elim (Bool-cases (ltb now m.expires_at)) [
      | inl alive ↦ rw alive (h j m (ground arith) (ground arith), rest)
      | inr dead ↦ rw dead rest
    ]

-- The alive leases behind the first, whether that one is alive or not.
live-tail :
    (P : Lease → Type 0) (now : ℕ) (m : Lease) (rest : List Lease)
    → All P (if ltb now m.expires_at then m ∷ rest else rest)
    → All P rest
live-tail P now m rest h = elim (Bool-cases (ltb now m.expires_at)) [
  | inl alive ↦ let both : All P (m ∷ rest) = rw alive at h in both.1
  | inr dead ↦ rw dead at h
]

All-live :
    (P : Lease → Type 0) (now : ℕ) (d : Dict Lease)
    → All P (live now d)
    → (k : ℕ) (l : Lease) → lookup k d ≡ some l
    → now < l.expires_at
    → P l
unfolding live
All-live P now [] h k l e a = cc
All-live P now ((j, m) ∷ d) h k l e a = elim (Bool-cases (j == k)) [
  | inl here ↦
      let same : m ≡ l = ground arith in
      let alive : ltb now m.expires_at ≡ true = rw same (lt→ltb now l.expires_at a) in
      let head : All P (m ∷ live now d) = rw alive at h in subst P same head.0
  | inr later ↦
      let found : lookup k d ≡ some l = rw later at e in
      All-live P now d (live-tail P now m (live now d) h) k l found a
]

-- The region that is found meets no lease of the table that is alive.
pub find_free_region-Apart :
    (now length c : ℕ) (s : RamLinkServer)
    → HasDistinctKeys s.leases
    → find_free_region now length s ≡ some c
    → (k : ℕ) (l : Lease) → lookup k s.leases ≡ some l
    → now < l.expires_at
    → Apart c length l
unfolding find_free_region
find_free_region-Apart now length c s distinct e = All-live (Apart c length) now s.leases (
    sort-All (Apart c length) (live now s.leases)
      (scan-Apart s.size length 0 c _ (sort-IsSorted (live now s.leases)) e))

pub find_free_region-fits :
    (now length c : ℕ) (s : RamLinkServer)
    → HasDistinctKeys s.leases
    → ((k : ℕ) (l : Lease) → lookup k s.leases ≡ some l → l.offset + l.length ≤ s.size)
    → find_free_region now length s ≡ some c
    → c + length ≤ s.size
unfolding find_free_region
find_free_region-fits now length c s distinct bounded e =
    scan-fits s.size length 0 c _
      (All-sort (λ l. l.offset + l.length ≤ s.size) (live now s.leases)
        (live-All (λ l. l.offset + l.length ≤ s.size) now s.leases distinct
          (λ k l f a. bounded k l f)))
      e

-- If some region of the length is free, one is found, and none that is free begins before it.
pub find_free_region-first :
    (now length o : ℕ) (s : RamLinkServer)
    → HasDistinctKeys s.leases
    → 0 < length
    → o + length ≤ s.size
    → ((k : ℕ) (l : Lease) → lookup k s.leases ≡ some l → now < l.expires_at → Apart o length l)
    → (c : ℕ) × (find_free_region now length s ≡ some c) × (c ≤ o)
unfolding find_free_region
find_free_region-first now length o s distinct pos fits free =
    scan-first s.size length 0 o _ pos fits (omega arith) (
      All-sort (Apart o length) (live now s.leases)
        (live-All (Apart o length) now s.leases distinct free))
