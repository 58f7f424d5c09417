-- ===== src/PageCache/Tests.antt =====
-- Runs of the page cache, and examples of its theorems at them.
use ram_link.Base.{
  ℕ, ◌<◌, ◌≡◌, refl, inr, arith, Bytes, slice, set_slice, List, [], ◌∷◌, ok, err, value_error,
}
use ram_link.Backend.{list_backend, list_backend-IsMemory}
use ram_link.PageCache.Defs.{
  World, read, write, load_page, fetch_page, RemoteMemoryCache, init, flush,
}
use ram_link.PageCache.Session.{Call, write_at, read_at, flush_all, run, cache_refines}
use ram_link.PageCache.Fresh.{Fresh, init-Fresh}
use ram_link.PageCache.View.{IsCoherent}
use ram_link.PageCache.Read.{Reads, read-Reads, outside_refused}
use ram_link.PageCache.Write.{Writes, write-Writes}
use ram_link.PageCache.Flush.{Flushes, flush-Flushes}
use ram_link.PageCache.Eviction.{Loses, load_page-Loses}

-- Ten bytes in pages of four, with page 1 cached and changed.
abbrev cached : ℕ → World Bytes
cached max_pages = record {
  cache = record {
    capacity = 8;
    remote_size = 10;
    page_size = 4;
    max_pages = max_pages;
    pages = (1, 4 ∷ 50 ∷ 6 ∷ 7 ∷ []) ∷ [];
    dirty = 1 ∷ [];
    hits = 0;
    misses = 1;
    remote_reads = 1;
    remote_writes = 0;
    evictions = 0;
  };
  remote = 0 ∷ 1 ∷ 2 ∷ 3 ∷ 4 ∷ 5 ∷ 6 ∷ 7 ∷ 8 ∷ 9 ∷ [];
}

cached-IsCoherent : (max_pages : ℕ) → 0 < max_pages → IsCoherent (λ r. r) (cached max_pages)
cached-IsCoherent max_pages room = record {
  page_pos = omega arith;
  page_short = omega arith;
  room = room;
  sized = refl;
  distinct = (refl, tt);
  inside = λ p bytes e. ground arith;
  full = λ p bytes e. ground arith;
  clean = λ p bytes e m. ground arith;
}

read_test : (read list_backend 3 6 (cached 3)).0 ≡ ok (3 ∷ 4 ∷ 50 ∷ 6 ∷ 7 ∷ 8 ∷ [])
unfolding read load_page fetch_page slice
read_test = refl

read-Reads_example : Reads list_backend (λ r. r) (cached 3) 3 6
read-Reads_example =
    read-Reads list_backend (λ r. r) (cached 3) 3 6 list_backend-IsMemory (omega arith)
      (cached-IsCoherent 3 (omega arith)) (inr (omega arith))

outside_refused_run :
    (read list_backend 9 2 (cached 3) ≡ (err value_error, cached 3))
    × (write list_backend 9 (1 ∷ 2 ∷ []) (cached 3) ≡ (err value_error, cached 3))
outside_refused_run = outside_refused list_backend (cached 3) 9 2 (1 ∷ 2 ∷ []) (omega arith) refl

write-Writes_example : Writes list_backend (λ r. r) (cached 3) 3 (11 ∷ 12 ∷ [])
write-Writes_example =
    write-Writes list_backend (λ r. r) (cached 3) 3 (11 ∷ 12 ∷ []) list_backend-IsMemory
      (omega arith) (cached-IsCoherent 3 (omega arith)) (omega arith)

flush-Flushes_example : Flushes list_backend (λ r. r) (cached 3)
flush-Flushes_example =
    flush-Flushes list_backend (λ r. r) (cached 3) list_backend-IsMemory
      (cached-IsCoherent 3 (omega arith))

load_page-Loses_example : Loses list_backend (λ r. r) (cached 1) 1 2
load_page-Loses_example =
    load_page-Loses list_backend (λ r. r) (cached 1) 1 2 (4 ∷ 50 ∷ 6 ∷ 7 ∷ []) []
      list_backend-IsMemory (cached-IsCoherent 1 (omega arith)) refl refl (omega arith) refl
      (omega arith)

-- A cache of 1 MiB in pages of 64 KiB.
abbrev sixteen_pages : RemoteMemoryCache
sixteen_pages = record {
  capacity = 1048576;
  remote_size = 10;
  page_size = 65536;
  max_pages = 16;
  pages = [];
  dirty = [];
  hits = 0;
  misses = 0;
  remote_reads = 0;
  remote_writes = 0;
  evictions = 0;
}

init-Fresh_run : Fresh (λ r. r) (record { cache = sixteen_pages; remote = (cached 1).remote })
unfolding init
init-Fresh_run =
    init-Fresh (λ r. r) 1 10 65536 sixteen_pages (cached 1).remote refl (omega arith) (omega arith)
      refl

abbrev three_calls : List Call
three_calls = write_at 3 (11 ∷ 12 ∷ []) ∷ (read_at 2 4 ∷ (flush_all ∷ []))

cache_refines_example :
    (w w' : World Bytes) × (run list_backend three_calls
        (record { cache = sixteen_pages; remote = (cached 1).remote })
      ≡ (ok ([] ∷ ((2 ∷ 11 ∷ 12 ∷ 5 ∷ []) ∷ ([] ∷ []))), w))
    × (flush list_backend w ≡ (ok tt, w'))
    × (w'.remote ≡ 0 ∷ 1 ∷ 2 ∷ 11 ∷ 12 ∷ 5 ∷ 6 ∷ 7 ∷ 8 ∷ 9 ∷ [])
unfolding init slice set_slice
cache_refines_example =
    cache_refines list_backend (λ r. r) list_backend-IsMemory 1 65536 sixteen_pages
      (cached 1).remote three_calls refl (omega arith) (omega arith) (omega arith)
      (omega arith, (omega arith, (tt, tt)))
