-- ===== src/PageCache/Flush.antt =====
-- `flush` of the page cache: the remote memory becomes the memory that the cache stands for.
use ram_link.Base.{
  ℕ, ◌+◌, ◌*◌, ◌/◌, ◌≤◌, ◌≡◌, refl, ◌∙◌, ap, none, some, inl, inr, ◌⊎◌, ◌≢◌, arith, length, Bytes,
  lt-or-le, ◌==◌, ==_iff, lookup, set_slice, slice-set_slice_self, slice-set_slice_apart, get_elem?,
  get_elem?-set_slice, length-set_slice, Bool-cases, Option-cases, List, [], ◌∷◌, ok,
}
use ram_link.Backend.{Backend, IsMemory}
use ram_link.PageCache.Defs.{World, member, flush_page, flush_pages, flush}
use ram_link.PageCache.Paging.{page_length, page_of, get_elem?-page}
use ram_link.PageCache.View.{view, IsCoherent}

-- Two pages do not meet.
pages_apart :
    (p q ps size : ℕ)
    → q ≢ p
    → (q * ps + page_length ps size q ≤ p * ps) ⊎ (p * ps + page_length ps size p ≤ q * ps)
pages_apart p q ps size other = elim (lt-or-le q p) [
  | inl below ↦ inl (grind arith)
  | inr above ↦ inr (grind arith)
]

module _ {Remote : Type 0} (contents : Remote → Bytes) where
  -- The same world, with other pages marked as dirty.
  abbrev with_dirty : List ℕ → World Remote → World Remote
  with_dirty ms w = record w { cache = record w.cache { dirty = ms } }

  -- The state after the write of a page.
  abbrev after_write : World Remote → Remote → World Remote
  after_write w remote = record {
    cache = record w.cache { remote_writes = w.cache.remote_writes + 1 };
    remote = remote;
  }

  module _ (w : World Remote) (p : ℕ) (ms : List ℕ) (bytes : Bytes) (remote : Remote)
      (h : IsCoherent contents (with_dirty (p ∷ ms) w))
      (found : lookup p w.cache.pages ≡ some bytes)
      (written : contents remote
        ≡ set_slice
            (contents w.remote)
            (p * w.cache.page_size)
            (p * w.cache.page_size + length bytes)
            bytes) where
    after_write-IsCoherent : IsCoherent contents (with_dirty ms (after_write w remote))
    after_write-IsCoherent = record {
      page_pos = h.page_pos;
      page_short = h.page_short;
      room = h.room;
      sized =
          ap (length {A = ℕ}) written
          ∙ length-set_slice (contents w.remote) (p * w.cache.page_size)
              (p * w.cache.page_size + length bytes) bytes refl
              (omega (arith, h.sized, h.full p bytes found, h.inside p bytes found))
          ∙ h.sized;
      distinct = h.distinct;
      inside = h.inside;
      full = h.full;
      clean = λ q b f m.
          let start = p * w.cache.page_size in
          let bound : start ≤ length (contents w.remote) =
            omega (arith, h.sized, h.inside p bytes found) in
          elim (Bool-cases (q == p)) [
            | inl e ↦
                let same = (==_iff q p).0 e in
                ground (
                  arith,
                  same,
                  found,
                  h.full p bytes found,
                  written,
                  slice-set_slice_self (contents w.remote) start (start + length bytes) bytes refl
                      bound,
                )
            | inr other ↦ ground (
              arith,
              written,
              h.clean q b f (ground (arith, other, m)),
              slice-set_slice_apart (contents w.remote) start (start + length bytes)
                  (q * w.cache.page_size)
                  (q * w.cache.page_size + page_length w.cache.page_size w.cache.remote_size q)
                  bytes refl bound
                  (elim (pages_apart p q w.cache.page_size w.cache.remote_size
                    (λ same. ground (arith, other, same))) [
                      | inl before ↦ inl before
                      | inr after ↦ inr (omega (arith, after, h.full p bytes found))
                    ]),
            )
          ];
    }

    view-after_write : (i : ℕ) → view contents (after_write w remote) i ≡ view contents w i
    unfolding view
    view-after_write i = elim (Option-cases (lookup (i / w.cache.page_size) w.cache.pages)) [
      | inr (b, here) ↦ rw (view, here) refl
      | inl absent ↦ ground (
        arith,
        absent,
        found,
        written,
        get_elem?-set_slice (contents w.remote) (p * w.cache.page_size)
            (p * w.cache.page_size + length bytes) bytes i refl
            (omega (arith, h.sized, h.inside p bytes found)),
        page_of i p w.cache.page_size,
        h.full p bytes found,
      )
    ]

module _ {Remote : Type 0} (api : Backend Remote) (contents : Remote → Bytes) where
  -- What the loop of `flush` does with the pages `ms`.
  record FlushesOn (ms : List ℕ) (w : World Remote) : Type 0 where
    after : World Remote
    returns : flush_pages api ms w ≡ (ok tt, after)
    coherent : IsCoherent contents (with_dirty contents [] after)
    pages : after.cache.pages ≡ w.cache.pages
    sizes :
        (after.cache.page_size ≡ w.cache.page_size)
        × (after.cache.remote_size ≡ w.cache.remote_size)
        × (after.cache.max_pages ≡ w.cache.max_pages)
    viewed : (i : ℕ) → view contents after i ≡ view contents w i

  -- A page that the cache does not hold is skipped.
  skip :
      (w : World Remote) (p : ℕ) (ms : List ℕ)
      → IsCoherent contents (with_dirty contents (p ∷ ms) w)
      → lookup p w.cache.pages ≡ none
      → IsCoherent contents (with_dirty contents ms w)
  skip w p ms h absent = record {
    page_pos = h.page_pos;
    page_short = h.page_short;
    room = h.room;
    sized = h.sized;
    distinct = h.distinct;
    inside = h.inside;
    full = h.full;
    clean = λ q b f m. h.clean q b f (ground (arith, f, m, absent));
  }

  flush_pages-FlushesOn :
      (ms : List ℕ) (w : World Remote)
      → IsMemory api contents
      → IsCoherent contents (with_dirty contents ms w)
      → FlushesOn ms w
  unfolding flush_pages flush_page
  flush_pages-FlushesOn [] w works h = record {
    after = w;
    returns = refl;
    coherent = h;
    pages = refl;
    sizes = (refl, refl, refl);
    viewed = λ i. refl;
  }
  flush_pages-FlushesOn (p ∷ ms) w works h = elim (Option-cases (lookup p w.cache.pages)) [
    | inl absent ↦
        let rest = flush_pages-FlushesOn ms w works (skip w p ms h absent) in
        record {
          after = rest.after;
          returns = ground (arith, absent, rest.returns);
          coherent = rest.coherent;
          pages = rest.pages;
          sizes = rest.sizes;
          viewed = rest.viewed;
        }
    | inr (bytes, found) ↦
        let size = h.full p bytes found in
        let (remote, writes, written) =
          works.writes (p * w.cache.page_size) bytes w.remote (omega (arith, size, h.page_short))
            (omega (arith, size, h.sized, h.inside p bytes found)) in
        let rest =
          flush_pages-FlushesOn ms (after_write contents w remote) works
            (after_write-IsCoherent contents w p ms bytes remote h found written) in
        record {
          after = rest.after;
          returns = ground (arith, found, writes, rest.returns);
          coherent = rest.coherent;
          pages = rest.pages;
          sizes = rest.sizes;
          viewed =
              λ i. rest.viewed i ∙ view-after_write contents w p ms bytes remote h found written i;
        }
  ]

  -- What `flush` does: nothing that can be read changes, no page is dirty, and the remote memory holds all.
  pub record Flushes (w : World Remote) : Type 0 where
    pub after : World Remote
    pub returns : flush api w ≡ (ok tt, after)
    pub coherent : IsCoherent contents after
    pub none_dirty : after.cache.dirty ≡ []
    pub sizes :
        (after.cache.page_size ≡ w.cache.page_size)
        × (after.cache.remote_size ≡ w.cache.remote_size)
        × (after.cache.max_pages ≡ w.cache.max_pages)
    pub viewed : (i : ℕ) → view contents after i ≡ view contents w i
    pub stored : (i : ℕ) → get_elem? (contents after.remote) i ≡ view contents w i

  -- Where no page is dirty, the remote memory is what the cache stands for.
  view_clean :
      (w : World Remote) (i : ℕ)
      → IsCoherent contents w
      → w.cache.dirty ≡ []
      → get_elem? (contents w.remote) i ≡ view contents w i
  unfolding view
  view_clean w i h none_dirty = elim (Option-cases (lookup (i / w.cache.page_size) w.cache.pages)) [
    | inl absent ↦ rw (view, absent) refl
    | inr (b, found) ↦
        let q = i / w.cache.page_size in
        ground (
          arith,
          found,
          h.clean q b found (ap (member q) none_dirty),
          get_elem?-page (contents w.remote) w.cache.page_size w.cache.remote_size q i h.page_pos
              h.sized refl,
        )
  ]

  whole : (w : World Remote) → FlushesOn w.cache.dirty w → Flushes w
  unfolding flush view
  whole w on =
      let after = with_dirty contents [] on.after in
      record {
        after = after;
        returns = ground (arith, on.returns);
        coherent = on.coherent;
        none_dirty = refl;
        sizes = on.sizes;
        viewed = on.viewed;
        stored = λ i. view_clean after i on.coherent refl ∙ on.viewed i;
      }

  -- On a backend that works, `flush` writes the dirty pages back: afterwards none is dirty, and the remote
  -- memory is, byte by byte, the memory that the cache stood for before and stands for still.
  pub flush-Flushes : (w : World Remote) → IsMemory api contents → IsCoherent contents w → Flushes w
  flush-Flushes w works h = whole w (flush_pages-FlushesOn w.cache.dirty w works h)
