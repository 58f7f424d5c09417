-- ===== src/MemoryApi/Tests.antt =====
-- Runs of the memory regions, and the theorems about them at concrete inputs.
use ram_link.Base.{
  ◌+◌, ◌≤◌, ◌≡◌, refl, ◌⊎◌, false, true, arith, slice, Bytes, List, [], ◌∷◌, ok, err, value_error,
  runtime_error,
}
use ram_link.Backend.{list_backend, list_backend-IsMemory}
use ram_link.PageCache.Defs.{World}
use ram_link.PageCache.Defs as PageCache
use ram_link.MemoryApi.Cache.{page_bytes, Store}
use ram_link.MemoryApi.Cache as Api
use ram_link.MemoryApi.Mirror.{Alike}
use ram_link.MemoryApi.Methods.{methods-Mirrors}
use ram_link.MemoryApi.Contents.{IsSound, lift}
use ram_link.MemoryApi.Regions.{
  RamLinkMemory, new_memory, allocate, close_region, read_region, write_region,
}
use ram_link.MemoryApi.Layout.{IsDivided}
use ram_link.MemoryApi.Steps.{Call, run, run-apart}
use ram_link.MemoryApi.Isolation.{
  closed_refused, overrun_refused, region_read_after_write, regions_isolated,
}

-- Ten bytes, three regions, the last one closed.
abbrev three_regions : RamLinkMemory Bytes
three_regions = record {
  store = record {
    cache = record {
      remote_size = 10;
      max_pages = 1;
      pages = [];
      dirty = [];
      hits = 0;
      misses = 0;
      remote_reads = 0;
      remote_writes = 0;
    };
    remote = 0 ∷ 1 ∷ 2 ∷ 3 ∷ 4 ∷ 5 ∷ 6 ∷ 7 ∷ 8 ∷ 9 ∷ [];
  };
  next_offset = 10;
  regions =
      record { offset = 0; size = 4; closed = false }
      ∷ record { offset = 4; size = 4; closed = false }
      ∷ record { offset = 8; size = 2; closed = true }
      ∷ [];
}

three_regions-IsSound : IsSound (λ r. r) three_regions.store
three_regions-IsSound = record {
  page_pos = omega arith;
  page_short = omega arith;
  room = omega arith;
  sized = refl;
  distinct = tt;
  inside = λ p bytes e. cc;
  full = λ p bytes e. cc;
  clean = λ p bytes e m. cc;
}

three_regions-IsDivided : IsDivided three_regions
three_regions-IsDivided = record { laid = omega arith; within = omega arith }

methods-Mirrors_example :
    Alike
      (PageCache.read list_backend 3 2 (lift three_regions.store))
      (Api.read list_backend 3 2 three_regions.store)
    × Alike
        (PageCache.write list_backend 3 (7 ∷ []) (lift three_regions.store))
        (Api.write list_backend 3 (7 ∷ []) three_regions.store)
    × Alike
        (PageCache.flush list_backend (lift three_regions.store))
        (Api.flush list_backend three_regions.store)
methods-Mirrors_example = methods-Mirrors list_backend (lift three_regions.store) 3 2 (7 ∷ []) refl

read_region_run : (read_region list_backend 1 1 2 three_regions).0 ≡ ok (5 ∷ 6 ∷ [])
unfolding read_region Api.read Api.load Api.load_new slice
read_region_run = refl

closed_refused_run :
    (read_region list_backend 2 0 1 three_regions ≡ (err runtime_error, three_regions))
    × (write_region list_backend 2 0 (7 ∷ []) three_regions ≡ (err runtime_error, three_regions))
closed_refused_run =
    closed_refused list_backend three_regions 2 (record { offset = 8; size = 2; closed = true })
      refl 0 (7 ∷ []) refl

overrun_refused_run :
    (read_region list_backend 1 3 2 three_regions ≡ (err value_error, three_regions))
    × (write_region list_backend 1 3 (7 ∷ 7 ∷ []) three_regions ≡ (err value_error, three_regions))
overrun_refused_run =
    overrun_refused list_backend three_regions 1 (record { offset = 4; size = 4; closed = false })
      refl 3 (7 ∷ 7 ∷ []) refl (omega arith)

region_read_after_write_example :
    (w : RamLinkMemory Bytes) × (write_region list_backend 1 1 (7 ∷ 8 ∷ []) three_regions
      ≡ (ok tt, w))
    × ((read_region list_backend 1 1 2 w).0 ≡ ok (7 ∷ 8 ∷ []))
region_read_after_write_example =
    region_read_after_write list_backend (λ r. r) list_backend-IsMemory three_regions
      three_regions-IsSound (omega arith) three_regions-IsDivided 1
      (record { offset = 4; size = 4; closed = false }) refl refl 1 (7 ∷ 8 ∷ []) (omega arith)

regions_isolated_example :
    (b : Bytes) × ((read_region list_backend 0 2 2
        (write_region list_backend 1 0 (7 ∷ 8 ∷ []) three_regions).1).0
      ≡ ok b)
    × ((read_region list_backend 0 2 2 three_regions).0 ≡ ok b)
regions_isolated_example =
    regions_isolated list_backend (λ r. r) list_backend-IsMemory three_regions three_regions-IsSound
      (omega arith) three_regions-IsDivided 1 (record { offset = 4; size = 4; closed = false }) refl
      refl 0 (7 ∷ 8 ∷ []) (omega arith) 0 (record { offset = 0; size = 4; closed = false }) 2 2
      (omega arith) refl refl (omega arith)

-- A new memory of a MiB.
abbrev new_one : RamLinkMemory Bytes
new_one = record {
  store = record {
    cache = record {
      remote_size = 1048576;
      max_pages = 16;
      pages = [];
      dirty = [];
      hits = 0;
      misses = 0;
      remote_reads = 0;
      remote_writes = 0;
    };
    remote = [];
  };
  next_offset = 0;
  regions = [];
}

-- Two regions, and a close of the first.
abbrev calls : List Call
calls = Call.allocates 5 ∷ Call.closes_region 0 ∷ Call.allocates 7 ∷ []

run-apart_example :
    ((0 + 5 ≤ 5) ⊎ (5 + 7 ≤ 0)) × (0 + 5 ≤ (run list_backend calls new_one).store.cache.remote_size)
unfolding new_memory allocate close_region
run-apart_example =
    run-apart list_backend 1 1 [] new_one calls 0 1 (record { offset = 0; size = 5; closed = true })
      (record { offset = 5; size = 7; closed = false }) refl (omega arith) refl refl
