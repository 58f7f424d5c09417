-- ===== src/MemoryApi/Contents.antt =====
-- The memory that a `_Cache` stands for, and what its methods do to it: the laws of `RemoteMemoryCache`, carried
-- over.
use ram_link.Base.{
  ℕ, ◌+◌, ◌-◌, ◌*◌, ◌/◌, ◌%◌, slice, ◌≤◌, ◌<◌, ◌≡◌, refl, ◌∙◌, ap, sym, subst, ◌⊎◌, [], Option,
  arith, ltb, if◌then◌else◌, length, get_elem?, Bytes, Result, ok,
}
use ram_link.Backend.{Backend, IsMemory}
use ram_link.PageCache.Defs.{World}
use ram_link.PageCache.Paging.{page_length}
use ram_link.PageCache.View.{view, IsCoherent}
use ram_link.PageCache.Read.{read-Reads}
use ram_link.PageCache.Write.{write-Writes}
use ram_link.PageCache.Flush.{flush-Flushes}
use ram_link.MemoryApi.Cache.{page_bytes, Cache, Store}
use ram_link.MemoryApi.Cache as Api
use ram_link.MemoryApi.Mirror.{project}
use ram_link.MemoryApi.Methods.{methods-Mirrors}

module _ {Remote : Type 0} where
  -- The same cache as a `RemoteMemoryCache`.
  abbrev pub lift : Store Remote → World Remote
  lift s = record {
    cache = record {
      capacity = 0;
      remote_size = s.cache.remote_size;
      page_size = page_bytes;
      max_pages = s.cache.max_pages;
      pages = s.cache.pages;
      dirty = s.cache.dirty;
      hits = s.cache.hits;
      misses = s.cache.misses;
      remote_reads = s.cache.remote_reads;
      remote_writes = s.cache.remote_writes;
      evictions = 0;
    };
    remote = s.remote;
  }

module _ {Remote : Type 0} (contents : Remote → Bytes) where
  -- The byte that a read at an address gives.
  abbrev pub seen : Store Remote → ℕ → Option ℕ
  seen s i = view contents (lift s) i

  -- The invariant of the cache.
  abbrev pub IsSound : Store Remote → Type 0
  IsSound s = IsCoherent contents (lift s)

  project-IsSound :
      (w : World Remote)
      → w.cache.page_size ≡ page_bytes
      → IsCoherent contents w
      → IsSound (project w)
  project-IsSound w e h = record {
    page_pos = omega arith;
    page_short = omega arith;
    room = h.room;
    sized = h.sized;
    distinct = h.distinct;
    inside = λ p b f. subst (λ (n : ℕ). p * n < w.cache.remote_size) e (h.inside p b f);
    full =
        λ p b f. subst (λ (n : ℕ). length b ≡ page_length n w.cache.remote_size p) e (h.full p b f);
    clean = λ p b f m.
        subst
          (λ (n : ℕ).
            b ≡ slice (contents w.remote) (p * n) (p * n + page_length n w.cache.remote_size p))
          e (h.clean p b f m);
  }

  view-project :
      (w : World Remote) (i : ℕ)
      → w.cache.page_size ≡ page_bytes
      → seen (project w) i ≡ view contents w i
  unfolding view
  view-project w i e = ground (arith, e, ap (λ (n : ℕ). i / n) e, ap (λ (n : ℕ). i % n) e)

-- All pages of the memory fit the cache.
abbrev pub HasRoom : {Remote : Type 0} → Store Remote → Type 0
HasRoom s = s.cache.remote_size ≤ s.cache.max_pages * page_bytes

-- The sizes stay.
abbrev pub SameShape : {Remote : Type 0} → Store Remote → Store Remote → Type 0
SameShape s s' =
    (s'.cache.remote_size ≡ s.cache.remote_size) × (s'.cache.max_pages ≡ s.cache.max_pages)

module _ {Remote : Type 0} (service : Backend Remote) (contents : Remote → Bytes) where
  pub record ReadsStore (s : Store Remote) (offset size : ℕ) : Type 0 where
    pub bytes : Bytes
    pub after : Store Remote
    pub returns : Api.read service offset size s ≡ (ok bytes, after)
    pub sound : IsSound contents after
    pub shape : SameShape s after
    pub same : (i : ℕ) → seen contents after i ≡ seen contents s i
    pub sized : length bytes ≡ size
    pub shown : (i : ℕ) → i < size → get_elem? bytes i ≡ seen contents s (offset + i)

  pub read-ReadsStore :
      (s : Store Remote) (offset size : ℕ)
      → IsMemory service contents
      → offset + size ≤ s.cache.remote_size
      → IsSound contents s
      → (s.cache.dirty ≡ []) ⊎ HasRoom s
      → ReadsStore s offset size
  read-ReadsStore s offset size works fits h safe =
      let r = read-Reads service contents (lift s) offset size works fits h safe in
      let e : r.after.cache.page_size ≡ page_bytes = r.agrees.page_size in
      let (same, _) = (methods-Mirrors service (lift s) offset size [] refl).0 in
      record {
        bytes = r.bytes;
        after = project r.after;
        returns = same ∙ ap (λ (x : Result Bytes × World Remote). (x.0, project x.1)) r.returns;
        sound = project-IsSound contents r.after e r.coherent;
        shape = (r.agrees.remote_size, r.agrees.max_pages);
        same = λ i. view-project contents r.after i e ∙ r.agrees.bytes i;
        sized = r.sized;
        shown = r.viewed;
      }

  pub record WritesStore (s : Store Remote) (offset : ℕ) (bytes : Bytes) : Type 0 where
    pub after : Store Remote
    pub returns : Api.write service offset bytes s ≡ (ok tt, after)
    pub sound : IsSound contents after
    pub shape : SameShape s after
    pub shown :
        (i : ℕ)
        → seen contents after i ≡ (
            if ltb i offset
            then seen contents s i
            else (if ltb i (offset + length bytes)
                then get_elem? bytes (i - offset)
                else seen contents s i))

  pub write-WritesStore :
      (s : Store Remote) (offset : ℕ) (bytes : Bytes)
      → IsMemory service contents
      → offset + length bytes ≤ s.cache.remote_size
      → IsSound contents s
      → HasRoom s
      → WritesStore s offset bytes
  write-WritesStore s offset bytes works fits h room =
      let r = write-Writes service contents (lift s) offset bytes works fits h room in
      let (same, _) = (methods-Mirrors service (lift s) offset 0 bytes refl).1 in
      record {
        after = project r.after;
        returns =
            same ∙ ap (λ (x : Result (Unit {0}) × World Remote). (x.0, project x.1)) r.returns;
        sound = project-IsSound contents r.after r.sizes.page_size r.coherent;
        shape = (r.sizes.remote_size, r.sizes.max_pages);
        shown = λ i. view-project contents r.after i r.sizes.page_size ∙ r.viewed i;
      }

  pub record FlushesStore (s : Store Remote) : Type 0 where
    pub after : Store Remote
    pub returns : Api.flush service s ≡ (ok tt, after)
    pub sound : IsSound contents after
    pub none_dirty : after.cache.dirty ≡ []
    pub same : (i : ℕ) → seen contents after i ≡ seen contents s i
    pub stored : (i : ℕ) → get_elem? (contents after.remote) i ≡ seen contents s i

  pub flush-FlushesStore :
      (s : Store Remote) → IsMemory service contents → IsSound contents s → FlushesStore s
  flush-FlushesStore s works h =
      let r = flush-Flushes service contents (lift s) works h in
      let (same, e) = (methods-Mirrors service (lift s) 0 0 [] refl).2 in
      let size : r.after.cache.page_size ≡ page_bytes =
        ap (λ (x : Result (Unit {0}) × World Remote). x.1.cache.page_size) (sym r.returns) ∙ e in
      record {
        after = project r.after;
        returns =
            same ∙ ap (λ (x : Result (Unit {0}) × World Remote). (x.0, project x.1)) r.returns;
        sound = project-IsSound contents r.after size r.coherent;
        none_dirty = r.none_dirty;
        same = λ i. view-project contents r.after i size ∙ r.viewed i;
        stored = r.stored;
      }
