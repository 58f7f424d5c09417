-- ===== src/PageCache/Eviction.antt =====
-- What `_load_page` of the page cache does when the page that it evicts holds a change: `popitem` takes the page
-- out of the dict before `_flush_page` looks for it there.
use ram_link.Base.{
  ℕ, ◌+◌, ◌-◌, ◌*◌, ◌/◌, ◌≤◌, ◌<◌, min, ◌≡◌, refl, ap, sym, subst, none, true, false, arith, length,
  Bytes, ◌==◌, Dict, lookup, insert, lookup-insert, HasDistinctKeys, get_elem?, ◌∷◌, ok,
}
use ram_link.Backend.{Backend, IsMemory}
use ram_link.PageCache.Defs.{
  World, member, discard, flush_page, evict_oldest, fetch_page, load_page,
}
use ram_link.PageCache.View.{view, IsCoherent}

module _ {Remote : Type 0} (api : Backend Remote) (contents : Remote → Bytes) where
  -- The changes of page `old` are lost when page `p` is loaded.
  pub record Loses (w : World Remote) (old p : ℕ) : Type 0 where
    pub page : Bytes
    pub after : World Remote
    pub returns : load_page api p w ≡ (ok page, after)
    pub unchanged : contents after.remote ≡ contents w.remote
    pub unwritten : after.cache.remote_writes ≡ w.cache.remote_writes
    pub gone : lookup old after.cache.pages ≡ none
    pub unmarked : after.cache.dirty ≡ discard old w.cache.dirty
    pub viewed :
        (i : ℕ)
        → i / w.cache.page_size ≡ old
        → view contents after i ≡ get_elem? (contents w.remote) i

  -- Once the remote memory has answered with the bytes of the page.
  loses :
      (w : World Remote) (old p : ℕ) (bytes : Bytes) (rest : Dict Bytes) (page : Bytes)
      (remote : Remote)
      → api.read
          (p * w.cache.page_size)
          (min w.cache.page_size (w.cache.remote_size - p * w.cache.page_size))
          w.remote
        ≡ (ok page, remote)
      → contents remote ≡ contents w.remote
      → lookup old rest ≡ none
      → w.cache.pages ≡ (old, bytes) ∷ rest
      → member old w.cache.dirty ≡ true
      → w.cache.max_pages ≤ length w.cache.pages
      → lookup p w.cache.pages ≡ none
      → Loses w old p
  unfolding load_page fetch_page evict_oldest flush_page view
  loses w old p bytes rest page remote reads unchanged gone e marked is_full absent =
      let other : (old == p) ≡ false = ground (arith, ap (lookup p) (sym e), absent) in
      let gone' : lookup old (insert p page rest) ≡ none =
        ground (arith, lookup-insert old p page rest, gone, other) in
      record {
        page = page;
        after = record {
          cache = record w.cache {
            pages = insert p page rest;
            dirty = discard old w.cache.dirty;
            misses = w.cache.misses + 1;
            remote_reads = w.cache.remote_reads + 1;
            evictions = w.cache.evictions + 1;
          };
          remote = remote;
        };
        returns = ground (arith, absent, reads, is_full, e, gone, marked);
        unchanged = unchanged;
        unwritten = refl;
        gone = gone';
        unmarked = refl;
        viewed = λ i on. ground (arith, on, gone', unchanged);
      }

  -- On a backend that works, and where the cache is full and its oldest page is dirty, the load of another
  -- page takes the oldest one out and its mark too, writes nothing to the remote memory, and what is read on
  -- that page afterwards is what the remote memory held: the changes of the page are lost.
  pub load_page-Loses :
      (w : World Remote) (old p : ℕ) (bytes : Bytes) (rest : Dict Bytes)
      → IsMemory api contents
      → IsCoherent contents w
      → w.cache.pages ≡ (old, bytes) ∷ rest
      → member old w.cache.dirty ≡ true
      → w.cache.max_pages ≤ length w.cache.pages
      → lookup p w.cache.pages ≡ none
      → p * w.cache.page_size < w.cache.remote_size
      → Loses w old p
  load_page-Loses w old p bytes rest works h e marked is_full absent within =
      let (remote, reads, unchanged) =
        works.reads (p * w.cache.page_size)
          (min w.cache.page_size (w.cache.remote_size - p * w.cache.page_size)) w.remote
          (omega (arith, h.page_short)) (omega (arith, h.sized)) in
      loses w old p bytes rest _ remote reads unchanged (subst HasDistinctKeys e h.distinct).0 e
        marked is_full absent
