-- ===== src/PageCache/Load.antt =====
-- `_load_page` brings a page in and changes nothing that can be read, if no page that it evicts is dirty.
use ram_link.Base.{
  ℕ, ◌+◌, ◌-◌, ◌*◌, ◌≤◌, ◌<◌, min, ◌≡◌, refl, ◌∙◌, ap, sym, subst, none, some, false, inl, inr,
  arith, length, Bytes, lt-or-le, Dict, lookup, lookup-insert_self, lookup-move_to_end,
  HasDistinctKeys, Dict-cases, Option-cases, ◌∷◌, ok,
}
use ram_link.Backend.{Backend, IsMemory}
use ram_link.PageCache.Defs.{World, member, evict_oldest, fetch_page, load_page}
use ram_link.PageCache.View.{remote_page, IsCoherent, IsSafe, has_room, Agrees}
use ram_link.PageCache.States.{
  after_hit, after_hit-IsCoherent, after_hit-Agrees, after_miss, after_miss-IsCoherent,
  after_miss-Agrees,
}

module _ {Remote : Type 0} (api : Backend Remote) (contents : Remote → Bytes) where
  -- What `_load_page` gives at page `p`.
  pub record Loads (w : World Remote) (p : ℕ) : Type 0 where
    pub page : Bytes
    pub after : World Remote
    pub returns : load_page api p w ≡ (ok page, after)
    pub coherent : IsCoherent contents after
    pub agrees : Agrees contents w after
    pub cached : lookup p after.cache.pages ≡ some page

  module _ (works : IsMemory api contents) (w : World Remote) (p : ℕ) (h : IsCoherent contents w)
      (within : p * w.cache.page_size < w.cache.remote_size) where
    hit : (bytes : Bytes) → lookup p w.cache.pages ≡ some bytes → Loads w p
    unfolding load_page
    hit bytes found = record {
      page = bytes;
      after = after_hit contents w p h;
      returns = rw (load_page, found) refl;
      coherent = after_hit-IsCoherent contents w p h;
      agrees = after_hit-Agrees contents w p h;
      cached = lookup-move_to_end p p w.cache.pages h.distinct ∙ found;
    }

    -- The answer of the remote memory to the read of the page.
    module _ (absent : lookup p w.cache.pages ≡ none) (remote : Remote)
        (reads : api.read
            (p * w.cache.page_size)
            (min w.cache.page_size (w.cache.remote_size - p * w.cache.page_size))
            w.remote
          ≡ (ok (remote_page contents w p), remote))
        (unchanged : contents remote ≡ contents w.remote) where
      miss_with_room : length w.cache.pages < w.cache.max_pages → Loads w p
      unfolding load_page fetch_page
      miss_with_room room =
          let m = w.cache.misses + 1 in
          let r = w.cache.remote_reads + 1 in
          record {
            page = remote_page contents w p;
            after = after_miss contents w p h w.cache.pages remote m r w.cache.evictions;
            returns = ground (arith, absent, reads, room);
            coherent =
                after_miss-IsCoherent contents w p h w.cache.pages remote m r w.cache.evictions
                  within absent h.distinct (λ q b e. e) (λ q b e e'. cc) unchanged;
            agrees =
                after_miss-Agrees contents w p h w.cache.pages remote m r w.cache.evictions within
                  absent h.distinct (λ q b e. e) (λ q b e e'. cc) unchanged;
            cached = lookup-insert_self p (remote_page contents w p) w.cache.pages;
          }

      miss_with_eviction :
          (old : ℕ) (bytes : Bytes) (rest : Dict Bytes)
          → w.cache.pages ≡ (old, bytes) ∷ rest
          → w.cache.max_pages ≤ length w.cache.pages
          → member old w.cache.dirty ≡ false
          → Loads w p
      unfolding load_page fetch_page evict_oldest
      miss_with_eviction old bytes rest e is_full is_clean =
          let m = w.cache.misses + 1 in
          let r = w.cache.remote_reads + 1 in
          let v = w.cache.evictions + 1 in
          let kept_distinct = subst HasDistinctKeys e h.distinct in
          let from : (q : ℕ) (b : Bytes)
              → lookup q rest ≡ some b
              → lookup q w.cache.pages ≡ some b =
            λ q b f. rw e (ground (arith, kept_distinct.0)) in
          let dropped : (q : ℕ) (b : Bytes)
              → lookup q rest ≡ none
              → lookup q w.cache.pages ≡ some b
              → member q w.cache.dirty ≡ false =
            λ q b gone there.
              let there' = ap (lookup q) (sym e) ∙ there in ground (arith, is_clean, there') in
          record {
            page = remote_page contents w p;
            after = after_miss contents w p h rest remote m r v;
            returns = ground (arith, absent, reads, is_full, e, is_clean);
            coherent =
                after_miss-IsCoherent contents w p h rest remote m r v within absent kept_distinct.1
                  from dropped unchanged;
            agrees =
                after_miss-Agrees contents w p h rest remote m r v within absent kept_distinct.1
                  from dropped unchanged;
            cached = lookup-insert_self p (remote_page contents w p) rest;
          }

  miss :
      (works : IsMemory api contents) (w : World Remote) (p : ℕ)
      → IsCoherent contents w
      → IsSafe w
      → p * w.cache.page_size < w.cache.remote_size
      → lookup p w.cache.pages ≡ none
      → Loads w p
  miss works w p h safe within absent =
      let (remote, reads, unchanged) =
        works.reads (p * w.cache.page_size)
          (min w.cache.page_size (w.cache.remote_size - p * w.cache.page_size)) w.remote
          (omega (arith, h.page_short)) (omega (arith, h.sized)) in
      elim (lt-or-le (length w.cache.pages) w.cache.max_pages) [
        | inl roomy ↦ miss_with_room works w p h within absent remote reads unchanged roomy
        | inr is_full ↦ elim (Dict-cases w.cache.pages) [
          | inl e ↦ absurd (omega (arith, ap (length {A = ℕ × Bytes}) e, h.room))
          | inr (old, bytes, rest, e) ↦
              miss_with_eviction works w p h within absent remote reads unchanged old bytes rest e
                is_full
                (elim safe [
                  | inl none_dirty ↦ ap (member old) none_dirty
                  | inr fits ↦ absurd (omega (arith, has_room contents w p h fits within absent))
                ])
        ]
      ]

  -- `_load_page` returns the page, cached now, and what can be read stays as it was.
  pub load_page-Loads :
      (works : IsMemory api contents) (w : World Remote) (p : ℕ)
      → IsCoherent contents w
      → IsSafe w
      → p * w.cache.page_size < w.cache.remote_size
      → Loads w p
  load_page-Loads works w p h safe within = elim (Option-cases (lookup p w.cache.pages)) [
    | inl absent ↦ miss works w p h safe within absent
    | inr (bytes, found) ↦ hit works w p h within bytes found
  ]
