-- ===== src/RemoteCache/Tests.antt =====
-- A cache of two pages with a scripted server, and the theorems about it at concrete inputs.
use ram_link.Base.{◌≡◌, refl, arith, some, [], ◌∷◌, take, drop, slice, lookup, Bytes, ok}
use ram_link.Exec.Triple.{Ends}
use ram_link.Client.Host.{Host}
use ram_link.RemoteCache.Defs.{Holder, load_page, read, write}
use ram_link.RemoteCache.Pages.{IsBounded}
use ram_link.RemoteCache.Loading.{load_page_kept}
use ram_link.RemoteCache.Bounded.{methods-IsBounded}
use ram_link.RemoteCache.Hit.{cached_read}

-- A server that sends the bytes that it is given.
abbrev sender : Host Bytes
sender = record {
  connect = λ net. (ok 1, net);
  sendall = λ sock bytes net. (ok tt, net);
  recv = λ sock n net. (ok (take n net), drop n net);
  close = λ sock net. (ok tt, net);
  time = λ net. (0, net);
}

abbrev two_pages : Holder Bytes
two_pages = record {
  cache = record {
    sock = 1;
    lease_id = 7;
    base = 512;
    remote_size = 1048576;
    capacity = 2;
    pages = (3, 10 ∷ 11 ∷ 12 ∷ []) ∷ (0, 20 ∷ 21 ∷ 22 ∷ 23 ∷ []) ∷ [];
    hits = 0;
    misses = 2;
  };
  net = [];
}

two_pages-IsBounded : IsBounded two_pages.cache
two_pages-IsBounded = record {
  room = omega arith;
  few = omega arith;
  distinct = (refl, (refl, tt));
}

methods-IsBounded_example :
    IsBounded (read sender 196608 2 two_pages).1.cache
    × IsBounded (write sender 196608 (1 ∷ 2 ∷ []) two_pages).1.cache
methods-IsBounded_example =
    methods-IsBounded sender two_pages 196608 2 (1 ∷ 2 ∷ []) two_pages-IsBounded

load_page_kept_run :
    Ends
      (λ _ s. IsBounded s.cache × ((bytes : Bytes) × (lookup 5 s.cache.pages ≡ some bytes)))
      (λ s. IsBounded s.cache)
      (load_page sender 5 two_pages)
load_page_kept_run = load_page_kept sender 5 two_pages two_pages-IsBounded

cached_read_example :
    read sender 1 2 two_pages
    ≡ (ok (21 ∷ 22 ∷ []), record two_pages { cache = record two_pages.cache { hits = 1 } })
unfolding slice
cached_read_example =
    cached_read sender two_pages 1 2 (20 ∷ 21 ∷ 22 ∷ 23 ∷ []) refl (omega arith) (omega arith)
      (omega arith)
