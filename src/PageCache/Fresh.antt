-- ===== src/PageCache/Fresh.antt =====
-- A new page cache stands for the remote memory.
use ram_link.Base.{ℕ, ◌*◌, ◌/◌, ◌≤◌, ◌<◌, ◌≡◌, refl, arith, length, get_elem?, Bytes, ok, []}
use ram_link.Backend.{max_transfer}
use ram_link.PageCache.Defs.{RemoteMemoryCache, World, init}
use ram_link.PageCache.View.{view, IsCoherent}

module _ {Remote : Type 0} (contents : Remote → Bytes) where
  -- What holds of a new cache beside the remote memory.
  pub record Fresh (w : World Remote) : Type 0 where
    pub coherent : IsCoherent contents w
    pub none_dirty : w.cache.dirty ≡ []
    pub viewed : (i : ℕ) → view contents w i ≡ get_elem? (contents w.remote) i

  -- A cache that was made for the size of the remote memory, with pages of at least one byte that a transfer
  -- can hold, keeps the invariant, has no dirty page, and stands for the bytes of the remote memory.
  pub init-Fresh :
      (capacity_mb remote_size page_size : ℕ) (cache : RemoteMemoryCache) (remote : Remote)
      → init capacity_mb remote_size page_size ≡ ok cache
      → 0 < page_size
      → page_size ≤ max_transfer
      → length (contents remote) ≡ remote_size
      → Fresh (record { cache = cache; remote = remote })
  unfolding init view
  init-Fresh capacity_mb remote_size page_size cache remote made pos short sized =
      let max_pages = capacity_mb * 1024 * 1024 / page_size in
      let room : 0 < max_pages = ground (arith, made) in
      let new : RemoteMemoryCache = record {
        capacity = capacity_mb * 1024 * 1024;
        remote_size = remote_size;
        page_size = page_size;
        max_pages = max_pages;
        pages = [];
        dirty = [];
        hits = 0;
        misses = 0;
        remote_reads = 0;
        remote_writes = 0;
        evictions = 0;
      } in
      let e : cache ≡ new = ground (arith, made, room) in
      rw e (record {
        coherent = record {
          page_pos = pos;
          page_short = short;
          room = room;
          sized = sized;
          distinct = tt;
          inside = λ p bytes found. cc;
          full = λ p bytes found. cc;
          clean = λ p bytes found m. cc;
        };
        none_dirty = refl;
        viewed = λ i. refl;
      })
