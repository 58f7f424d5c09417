-- ===== src/PageCache/States.antt =====
-- The states that a hit and a miss of `_load_page` leave, if no page that it evicts is dirty.
use ram_link.Base.{
  ℕ, ◌+◌, ◌*◌, ◌/◌, ◌%◌, ◌<◌, ◌≡◌, refl, ◌∙◌, ap, sym, none, some, Option, false, inl, inr, arith,
  length, get_elem?, Bytes, Dict, lookup, insert, move_to_end, lookup-insert,
  insert-HasDistinctKeys, lookup-move_to_end, move_to_end-HasDistinctKeys, HasDistinctKeys,
  Option-cases, length-slice,
}
use ram_link.PageCache.Defs.{World, member}
use ram_link.PageCache.Paging.{page_length, get_elem?-page}
use ram_link.PageCache.View.{view, remote_page, IsCoherent, Agrees}

module _ {Remote : Type 0} (contents : Remote → Bytes) (w : World Remote) (p : ℕ)
    (h : IsCoherent contents w) where
  open h use {page_pos, page_short, room, sized, distinct, inside, full, clean}
  open w.cache use {page_size, remote_size, max_pages, pages, dirty}

  -- The state after a hit.
  abbrev pub after_hit : World Remote
  after_hit = record w {
    cache = record w.cache { pages = move_to_end p pages; hits = w.cache.hits + 1 };
  }

  same : (q : ℕ) → lookup q (move_to_end p pages) ≡ lookup q pages
  same q = lookup-move_to_end q p pages distinct

  pub after_hit-IsCoherent : IsCoherent contents after_hit
  after_hit-IsCoherent = record {
    page_pos = page_pos;
    page_short = page_short;
    room = room;
    sized = sized;
    distinct = move_to_end-HasDistinctKeys p pages distinct;
    inside = λ q bytes e. inside q bytes (sym (same q) ∙ e);
    full = λ q bytes e. full q bytes (sym (same q) ∙ e);
    clean = λ q bytes e. clean q bytes (sym (same q) ∙ e);
  }

  pub after_hit-Agrees : Agrees contents w after_hit
  unfolding view
  after_hit-Agrees = record {
    page_size = refl;
    remote_size = refl;
    max_pages = refl;
    dirty = refl;
    bytes = λ i.
        ap
          (λ (o : Option Bytes). elim o [
            | none ↦ get_elem? (contents w.remote) i
            | some bytes ↦ get_elem? bytes (i % page_size)
          ])
          (same (i / page_size));
  }

  module _ (kept : Dict Bytes) (remote : Remote) (misses remote_reads evictions : ℕ) where
    -- The state after a miss, with the pages that were kept.
    abbrev pub after_miss : World Remote
    after_miss = record {
      cache = record w.cache {
        pages = insert p (remote_page contents w p) kept;
        misses = misses;
        remote_reads = remote_reads;
        evictions = evictions;
      };
      remote = remote;
    }

    module _ (within : p * page_size < remote_size) (absent : lookup p pages ≡ none)
        (kept_distinct : HasDistinctKeys kept)
        (from : (q : ℕ) (bytes : Bytes) → lookup q kept ≡ some bytes → lookup q pages ≡ some bytes)
        (dropped : (q : ℕ) (bytes : Bytes)
          → lookup q kept ≡ none
          → lookup q pages ≡ some bytes
          → member q dirty ≡ false)
        (unchanged : contents remote ≡ contents w.remote) where
      length-remote_page : length (remote_page contents w p) ≡ page_length page_size remote_size p
      length-remote_page = omega (
        arith,
        length-slice (contents w.remote) (p * page_size)
            (p * page_size + page_length page_size remote_size p) (omega arith) (omega arith),
      )

      pub after_miss-IsCoherent : IsCoherent contents after_miss
      after_miss-IsCoherent = record {
        page_pos = page_pos;
        page_short = page_short;
        room = room;
        sized = rw unchanged sized;
        distinct = insert-HasDistinctKeys p (remote_page contents w p) kept kept_distinct;
        inside = λ q bytes e. ground (
          arith,
          lookup-insert q p (remote_page contents w p) kept,
          from q bytes,
          inside q bytes,
        );
        full = λ q bytes e. ground (
          arith,
          lookup-insert q p (remote_page contents w p) kept,
          from q bytes,
          full q bytes,
          length-remote_page,
        );
        clean = λ q bytes e m. ground (
          arith,
          lookup-insert q p (remote_page contents w p) kept,
          from q bytes,
          clean q bytes,
          unchanged,
        );
      }

      pub after_miss-Agrees : Agrees contents w after_miss
      unfolding view
      after_miss-Agrees = record {
        page_size = refl;
        remote_size = refl;
        max_pages = refl;
        dirty = refl;
        bytes = λ i.
            let found = lookup-insert (i / page_size) p (remote_page contents w p) kept in
            let on_page =
              get_elem?-page (contents w.remote) page_size remote_size (i / page_size) i page_pos
                sized refl in
            elim (Option-cases (lookup (i / page_size) kept)) [
              | inr (b, stays) ↦
                  ground (arith, found, from (i / page_size) b stays, on_page, unchanged, absent)
              | inl gone ↦ elim (Option-cases (lookup (i / page_size) pages)) [
                | inl none_here ↦ ground (arith, found, on_page, unchanged)
                | inr (b, some_here) ↦ ground (
                  arith,
                  found,
                  dropped (i / page_size) b gone some_here,
                  clean (i / page_size) b some_here,
                  on_page,
                  unchanged,
                )
              ]
            ];
      }
