-- ===== src/MemoryApi/Isolation.antt =====
-- What an application sees through its regions: what it wrote, and nothing of what others write.
use ram_link.Base.{
  ℕ, ◌+◌, ◌-◌, ◌≤◌, ◌<◌, ◌≡◌, ◌≢◌, ◌∙◌, ap, sym, inl, inr, some, true, false, arith, length,
  get_elem?, get_elem?_of_length-le, ext_get_elem?, Bytes, Result, ok, err, value_error,
  runtime_error, lt-or-le,
}
use ram_link.Backend.{Backend, IsMemory}
use ram_link.MemoryApi.Cache.{Store, read, write}
use ram_link.MemoryApi.Contents.{
  seen, IsSound, HasRoom, ReadsStore, read-ReadsStore, WritesStore, write-WritesStore,
}
use ram_link.MemoryApi.Regions.{
  MemoryRegion, RamLinkMemory, in_store, read_region, write_region, check_region, deref,
}
use ram_link.MemoryApi.Layout.{IsDivided, regions-apart, region-bounds}

module _ {Remote : Type 0} (service : Backend Remote) (m : RamLinkMemory Remote) (i : ℕ)
    (r : MemoryRegion) (found : get_elem? m.regions i ≡ some r) where
  -- A call at a region that is open, inside it, is a call of the cache.
  read_region-open :
      (offset size : ℕ)
      → r.closed ≡ false
      → offset + size ≤ r.size
      → read_region service i offset size m ≡ in_store (read service (r.offset + offset) size) m
  unfolding read_region check_region deref
  read_region-open offset size is_open fits = ground (arith, found)

  write_region-open :
      (offset : ℕ) (bytes : Bytes)
      → r.closed ≡ false
      → offset + length bytes ≤ r.size
      → write_region service i offset bytes m ≡ in_store (write service (r.offset + offset) bytes) m
  unfolding write_region check_region deref
  write_region-open offset bytes is_open fits = ground (arith, found)

  -- A read or a write at a closed region raises RuntimeError and changes nothing.
  pub closed_refused :
      (offset : ℕ) (bytes : Bytes)
      → r.closed ≡ true
      → (read_region service i offset (length bytes) m ≡ (err runtime_error, m))
        × (write_region service i offset bytes m ≡ (err runtime_error, m))
  unfolding read_region write_region check_region deref
  closed_refused offset bytes shut = (ground (arith, found), ground (arith, found))

  -- A read or a write that leaves its region, which is open, raises ValueError and changes nothing, also where
  -- the remote memory goes on behind the region.
  pub overrun_refused :
      (offset : ℕ) (bytes : Bytes)
      → r.closed ≡ false
      → r.size < offset + length bytes
      → (read_region service i offset (length bytes) m ≡ (err value_error, m))
        × (write_region service i offset bytes m ≡ (err value_error, m))
  unfolding read_region write_region check_region deref
  overrun_refused offset bytes is_open far = (ground (arith, found), ground (arith, found))

module _ {Remote : Type 0} (service : Backend Remote) (contents : Remote → Bytes) where
  -- Reads of the same bytes.
  same-bytes :
      (s s' : Store Remote) (offset size : ℕ) (a : ReadsStore service contents s offset size)
      (b : ReadsStore service contents s' offset size)
      → ((k : ℕ) → k < size → seen contents s' (offset + k) ≡ seen contents s (offset + k))
      → b.bytes ≡ a.bytes
  same-bytes s s' offset size a b same = ext_get_elem? b.bytes a.bytes λ k. elim (lt-or-le k size) [
    | inl below ↦ b.shown k below ∙ same k below ∙ sym (a.shown k below)
    | inr above ↦
        get_elem?_of_length-le b.bytes k (omega (arith, b.sized))
        ∙ sym (get_elem?_of_length-le a.bytes k (omega (arith, a.sized)))
  ]

  -- An open region of a memory whose cache is sound and has room for all pages.
  module _ (works : IsMemory service contents) (m : RamLinkMemory Remote)
      (sound : IsSound contents m.store) (room : HasRoom m.store) (d : IsDivided m) (i : ℕ)
      (r : MemoryRegion) (found : get_elem? m.regions i ≡ some r) (is_open : r.closed ≡ false)
      (offset : ℕ) (bytes : Bytes) (fits : offset + length bytes ≤ r.size) where
    written : WritesStore service contents m.store (r.offset + offset) bytes
    written =
        write-WritesStore service contents m.store (r.offset + offset) bytes works
          (omega (arith, (region-bounds m i r d found).1)) sound room

    after : RamLinkMemory Remote
    after = record m { store = written.after }

    write_region-ok : write_region service i offset bytes m ≡ (ok tt, after)
    unfolding after
    write_region-ok =
        write_region-open service m i r found offset bytes is_open fits
        ∙ ap (λ (x : Result (Unit {0}) × Store Remote). (x.0, record m { store = x.1 }))
            written.returns

    -- A read after the write, at a region of the same list.
    read_after :
        (j : ℕ) (q : MemoryRegion) (o n : ℕ)
        → get_elem? m.regions j ≡ some q
        → o + n ≤ q.size
        → ReadsStore service contents written.after (q.offset + o) n
    read_after j q o n there inside =
        let (size, pages) = written.shape in
        read-ReadsStore service contents written.after (q.offset + o) n works
          (omega (arith, (region-bounds m j q d there).1, size)) written.sound
          (inr (rw (size, pages) room))

    -- A write at an open region, inside it, succeeds, and a read of the same bytes of the region then gives the
    -- bytes written, where the backend works, the cache is sound, and all pages fit the cache.
    pub region_read_after_write :
        (w : RamLinkMemory Remote) × (write_region service i offset bytes m ≡ (ok tt, w))
        × ((read_region service i offset (length bytes) w).0 ≡ ok bytes)
    unfolding after
    region_read_after_write =
        let back = read_after i r offset (length bytes) found fits in
        let same : back.bytes ≡ bytes = ext_get_elem? back.bytes bytes λ k.
          elim (lt-or-le k (length bytes)) [
            | inl below ↦ ground (
              arith,
              back.shown k below,
              written.shown (r.offset + offset + k),
              ap (get_elem? bytes) (gap k),
            )
            | inr above ↦
                get_elem?_of_length-le back.bytes k (omega (arith, back.sized))
                ∙ sym (get_elem?_of_length-le bytes k above)
          ] in
        (
          after,
          write_region-ok,
          ap (λ (x : Result Bytes × RamLinkMemory Remote). x.0)
                (read_region-open service after i r found offset (length bytes) is_open fits)
              ∙ ap (λ (x : Result Bytes × Store Remote). x.0) back.returns
              ∙ ap (λ (b : Bytes). ok b) same,
        )
      where
        gap : (k : ℕ) → r.offset + offset + k - (r.offset + offset) ≡ k
        gap k = omega arith

    -- A write at an open region, inside it, changes nothing that a read at another open region gives, where the
    -- backend works, the cache is sound, and all pages fit the cache.
    pub regions_isolated :
        (j : ℕ) (q : MemoryRegion) (o n : ℕ)
        → i ≢ j
        → get_elem? m.regions j ≡ some q
        → q.closed ≡ false
        → o + n ≤ q.size
        → (b : Bytes) × ((read_region service j o n (write_region service i offset bytes m).1).0
            ≡ ok b)
          × ((read_region service j o n m).0 ≡ ok b)
    unfolding after
    regions_isolated j q o n ne there open_too inside =
        let now = read_after j q o n there inside in
        let before =
          read-ReadsStore service contents m.store (q.offset + o) n works
            (omega (arith, (region-bounds m j q d there).1)) sound (inr room) in
        let apart = regions-apart m i j r q d ne found there in
        let same : now.bytes ≡ before.bytes =
          same-bytes m.store written.after (q.offset + o) n before now
            (λ k below. ground (arith, written.shown (q.offset + o + k), apart)) in
        (
          before.bytes,
          ap (λ (x : Result (Unit {0}) × RamLinkMemory Remote). (read_region service j o n x.1).0)
                write_region-ok
              ∙ ap (λ (x : Result Bytes × RamLinkMemory Remote). x.0)
                  (read_region-open service after j q there o n open_too inside)
              ∙ ap (λ (x : Result Bytes × Store Remote). x.0) now.returns
              ∙ ap (λ (b : Bytes). ok b) same,
          ap (λ (x : Result Bytes × RamLinkMemory Remote). x.0)
                (read_region-open service m j q there o n open_too inside)
              ∙ ap (λ (x : Result Bytes × Store Remote). x.0) before.returns,
        )
