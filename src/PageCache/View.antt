-- ===== src/PageCache/View.antt =====
-- The memory that a cache stands for, and the invariant under which it does.
use ram_link.Base.{
  ℕ, ◌+◌, ◌*◌, ◌/◌, ◌%◌, ◌≤◌, ◌<◌, ◌≡◌, none, some, Option, false, ◌⊎◌, arith, length, slice,
  get_elem?, Bytes, lookup, HasDistinctKeys, [], ◌∷◌,
}
use ram_link.Backend.{max_transfer}
use ram_link.PageCache.Defs.{World, member}
use ram_link.PageCache.Paging.{page_length, page_below, length-le_of_keys}

-- No page that is evicted holds a change: none holds one, or all pages fit the cache.
abbrev pub IsSafe : {Remote : Type 0} → World Remote → Type 0
IsSafe w = (w.cache.dirty ≡ []) ⊎ (w.cache.remote_size ≤ w.cache.max_pages * w.cache.page_size)

module _ {Remote : Type 0} (contents : Remote → Bytes) where
  -- The byte at an address: that of the cached page, or that of the remote memory.
  unfoldable pub view : World Remote → ℕ → Option ℕ
  view w i = elim (lookup (i / w.cache.page_size) w.cache.pages) [
    | none ↦ get_elem? (contents w.remote) i
    | some bytes ↦ get_elem? bytes (i % w.cache.page_size)
  ]

  -- The bytes of a page in the remote memory.
  abbrev pub remote_page : World Remote → ℕ → Bytes
  remote_page w p =
      let base = p * w.cache.page_size in
      slice (contents w.remote) base (base + page_length w.cache.page_size w.cache.remote_size p)

  -- Every cached page is a page of the memory, and differs from it only if it is marked as dirty.
  pub record IsCoherent (w : World Remote) : Type 0 where
    pub page_pos : 0 < w.cache.page_size
    pub page_short : w.cache.page_size ≤ max_transfer
    pub room : 0 < w.cache.max_pages
    pub sized : length (contents w.remote) ≡ w.cache.remote_size
    pub distinct : HasDistinctKeys w.cache.pages
    pub inside :
        (p : ℕ) (bytes : Bytes)
        → lookup p w.cache.pages ≡ some bytes
        → p * w.cache.page_size < w.cache.remote_size
    pub full :
        (p : ℕ) (bytes : Bytes)
        → lookup p w.cache.pages ≡ some bytes
        → length bytes ≡ page_length w.cache.page_size w.cache.remote_size p
    pub clean :
        (p : ℕ) (bytes : Bytes)
        → lookup p w.cache.pages ≡ some bytes
        → member p w.cache.dirty ≡ false
        → bytes ≡ remote_page w p

  -- Where all pages fit, a page that is not cached has room.
  pub has_room :
      (w : World Remote) (p : ℕ)
      → IsCoherent w
      → w.cache.remote_size ≤ w.cache.max_pages * w.cache.page_size
      → p * w.cache.page_size < w.cache.remote_size
      → lookup p w.cache.pages ≡ none
      → length w.cache.pages < w.cache.max_pages
  has_room w p h fits within absent =
      length-le_of_keys w.cache.max_pages ((p, []) ∷ w.cache.pages) (absent, h.distinct)
        λ k v e.
          page_below k w.cache.page_size w.cache.remote_size w.cache.max_pages
            (ground (arith, h.inside k v)) fits

  -- The same view, sizes and marks.
  pub record Agrees (w w' : World Remote) : Type 0 where
    pub page_size : w'.cache.page_size ≡ w.cache.page_size
    pub remote_size : w'.cache.remote_size ≡ w.cache.remote_size
    pub max_pages : w'.cache.max_pages ≡ w.cache.max_pages
    pub dirty : w'.cache.dirty ≡ w.cache.dirty
    pub bytes : (i : ℕ) → view w' i ≡ view w i
