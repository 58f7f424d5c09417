-- ===== src/MemoryApi/Steps.antt =====
-- Any sequence of calls keeps the division of a memory into regions.
use ram_link.Base.{
  ◌≢◌, ◌⊎◌, ℕ, zero, suc, ◌+◌, ◌-◌, min, ◌≤◌, ◌≡◌, inl, inr, [], ◌∷◌, List, some, arith, ltb, ◌==◌,
  length, get_elem?, take, replicate, Bytes, Result, ok, err, stuck, lt-or-le, Bool-cases,
  Option-cases,
}
use ram_link.Exec.{Exec, ◌>>=◌, modify}
use ram_link.Backend.{Backend, max_transfer}
use ram_link.MemoryApi.Cache.{Store, read, write, flush}
use ram_link.MemoryApi.Regions.{
  MemoryRegion, RamLinkMemory, new_memory, allocate, all_closed, close_region, in_store,
  read_region, write_region, fill_loop, fill, flush_memory, close_memory, deref, check_region,
}
use ram_link.MemoryApi.Layout.{
  IsDivided, regions-apart, region-bounds, allocate-none, allocate-full, allocate-grown,
  grown-IsDivided, IsLaid-set_closed, IsLaid-all_closed,
}
use ram_link.MemoryApi.Steady.{Steady, read-Steady, write-Steady, flush-Steady}

-- What an application can call.
pub data Call : Type 0 where
  allocates : ℕ → Call
  reads : ℕ → ℕ → ℕ → Call
  writes : ℕ → ℕ → Bytes → Call
  fills : ℕ → ℕ → Call
  closes_region : ℕ → Call
  flushes closes : Call

-- The call keeps the division, however it ends.
abbrev Keeps : {Remote A : Type 0} → Exec (RamLinkMemory Remote) A → Type 0
Keeps f = (m : RamLinkMemory _) → IsDivided m → IsDivided (f m).1

module _ {Remote : Type 0} where
  >>=-Keeps :
      {A B : Type 0} (f : Exec (RamLinkMemory Remote) A) (g : A → Exec (RamLinkMemory Remote) B)
      → Keeps f
      → ((a : A) → Keeps (g a))
      → Keeps (f >>= g)
  >>=-Keeps {A} {B} f g h k m d = go (f m) (h m d)
    where
      go :
          (r : Result A × RamLinkMemory Remote)
          → IsDivided r.1
          → IsDivided
              (elim r.0 as (λ _. Result B × RamLinkMemory Remote) [
                | ok a ↦ g a r.1
                | err e ↦ (err e, r.1)
                | stuck ↦ (stuck, r.1)
              ]).1
      go (ok a, m') d = k a m' d
      go (err x, m') d = d
      go (stuck, m') d = d

  in_store-Keeps : {A : Type 0} (f : Exec (Store Remote) A) → Steady f → Keeps (in_store f)
  in_store-Keeps f steady m d = record {
    laid = d.laid;
    within = omega (arith, steady m.store, d.within);
  }

  allocate-Keeps : (size : ℕ) → Keeps {Remote = Remote} (allocate size)
  allocate-Keeps size m d = elim (lt-or-le 0 size) [
    | inr nothing ↦ rw (allocate-none m size (omega arith)) d
    | inl pos ↦ elim (lt-or-le m.store.cache.remote_size (m.next_offset + size)) [
      | inl full ↦ rw (allocate-full m size pos full) d
      | inr fits ↦ rw (allocate-grown m size pos fits) (grown-IsDivided m size pos fits d)
    ]
  ]

  check_region-Keeps :
      (region offset size : ℕ) → Keeps {Remote = Remote} (check_region region offset size)
  unfolding check_region deref
  check_region-Keeps region offset size m d = elim (Option-cases (get_elem? m.regions region)) [
    | inl lost ↦ ground (arith, lost)
    | inr (r, found) ↦ elim (Bool-cases r.closed) [
      | inl shut ↦ ground (arith, found, shut)
      | inr open_ ↦ elim (Bool-cases (ltb r.size (offset + size))) [
        | inl far ↦ ground (arith, found, open_, far)
        | inr near ↦ ground (arith, found, open_, near)
      ]
    ]
  ]

module _ {Remote : Type 0} (service : Backend Remote) where
  read_region-Keeps : (region offset size : ℕ) → Keeps (read_region service region offset size)
  unfolding read_region
  read_region-Keeps region offset size =
      >>=-Keeps (check_region region offset size)
        (λ r. in_store (read service (r.offset + offset) size))
        (check_region-Keeps region offset size)
        (λ r.
          in_store-Keeps (read service (r.offset + offset) size)
            (read-Steady service (r.offset + offset) size))

  write_region-Keeps :
      (region offset : ℕ) (bytes : Bytes) → Keeps (write_region service region offset bytes)
  unfolding write_region
  write_region-Keeps region offset bytes =
      >>=-Keeps (check_region region offset (length bytes))
        (λ r. in_store (write service (r.offset + offset) bytes))
        (check_region-Keeps region offset (length bytes))
        (λ r.
          in_store-Keeps (write service (r.offset + offset) bytes)
            (write-Steady service (r.offset + offset) bytes))

  fill_loop-Keeps :
      (fuel region : ℕ) (chunk : Bytes) (left pos : ℕ)
      → Keeps (fill_loop service fuel region chunk left pos)
  unfolding fill_loop
  fill_loop-Keeps zero region chunk left pos m d = d
  fill_loop-Keeps (suc fuel) region chunk left pos m d = elim (Bool-cases (left == 0)) [
    | inl done ↦ ground (arith, done)
    | inr more ↦
        let n = min left max_transfer in
        rw (fill_loop, more)
          (>>=-Keeps (write_region service region pos (take n chunk))
            (λ _. fill_loop service fuel region chunk (left - n) (pos + n))
            (write_region-Keeps region pos (take n chunk))
            (λ _. fill_loop-Keeps fuel region chunk (left - n) (pos + n)) m d)
  ]

  fill-Keeps : (region value : ℕ) → Keeps (fill service region value)
  unfolding fill deref
  fill-Keeps region value m d = elim (Bool-cases (ltb 255 value)) [
    | inl large ↦ ground (arith, large)
    | inr byte ↦ elim (Option-cases (get_elem? m.regions region)) [
      | inl lost ↦ ground (arith, byte, lost)
      | inr (r, found) ↦
          let same : fill service region value m
              ≡ fill_loop service r.size region (replicate max_transfer value) r.size 0 m =
            ground (arith, byte, found) in
          rw same (fill_loop-Keeps r.size region (replicate max_transfer value) r.size 0 m d)
    ]
  ]

  close_memory-Keeps : Keeps (close_memory service)
  unfolding close_memory flush_memory
  close_memory-Keeps =
      >>=-Keeps (in_store (flush service))
        (λ _. modify (λ m. record m { regions = all_closed m.regions }))
        (in_store-Keeps (flush service) (flush-Steady service))
        (λ _ m d. record {
          laid = IsLaid-all_closed 0 m.next_offset m.regions d.laid;
          within = d.within;
        })

  -- The memory after a call, whether it returned or raised.
  abbrev pub step : Call → RamLinkMemory Remote → RamLinkMemory Remote
  step (allocates size) m = (allocate size m).1
  step (reads region offset size) m = (read_region service region offset size m).1
  step (writes region offset bytes) m = (write_region service region offset bytes m).1
  step (fills region value) m = (fill service region value m).1
  step (closes_region region) m = (close_region region m).1
  step flushes m = (flush_memory service m).1
  step closes m = (close_memory service m).1

  abbrev pub run : List Call → RamLinkMemory Remote → RamLinkMemory Remote
  run [] m = m
  run (c ∷ cs) m = run cs (step c m)

  step-IsDivided : (c : Call) (m : RamLinkMemory Remote) → IsDivided m → IsDivided (step c m)
  unfolding close_region flush_memory
  step-IsDivided (allocates size) m d = allocate-Keeps size m d
  step-IsDivided (reads region offset size) m d = read_region-Keeps region offset size m d
  step-IsDivided (writes region offset bytes) m d = write_region-Keeps region offset bytes m d
  step-IsDivided (fills region value) m d = fill-Keeps region value m d
  step-IsDivided (closes_region region) m d = record {
    laid = IsLaid-set_closed 0 m.next_offset m.regions region d.laid;
    within = d.within;
  }
  step-IsDivided flushes m d = in_store-Keeps (flush service) (flush-Steady service) m d
  step-IsDivided closes m d = close_memory-Keeps m d

  run-IsDivided : (cs : List Call) (m : RamLinkMemory Remote) → IsDivided m → IsDivided (run cs m)
  run-IsDivided [] m d = d
  run-IsDivided (c ∷ cs) m d = run-IsDivided cs (step c m) (step-IsDivided c m d)

  -- Whatever calls an application makes of a new memory, and whether they return or raise, two different
  -- regions do not meet, and each lies in the remote memory.
  pub run-apart :
      (remote_mb cache_mb : ℕ) (remote : Remote) (m : RamLinkMemory Remote) (cs : List Call)
      (i j : ℕ) (r q : MemoryRegion)
      → new_memory remote_mb cache_mb remote ≡ ok m
      → i ≢ j
      → get_elem? (run cs m).regions i ≡ some r
      → get_elem? (run cs m).regions j ≡ some q
      → ((r.offset + r.size ≤ q.offset) ⊎ (q.offset + q.size ≤ r.offset))
        × (r.offset + r.size ≤ (run cs m).store.cache.remote_size)
  unfolding new_memory
  run-apart remote_mb cache_mb remote m cs i j r q made ne e f =
      let start : IsDivided m = ground (arith, made) in
      let d = run-IsDivided cs m start in
      (regions-apart (run cs m) i j r q d ne e f, (region-bounds (run cs m) i r d e).1)
