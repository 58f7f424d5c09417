-- ===== src/MemoryApi/Mirror.antt =====
-- `_Cache` does what `RemoteMemoryCache` does with pages of PAGE_SIZE, the count of evictions aside.
use ram_link.Base.{
  ℕ, ◌+◌, ◌-◌, ◌*◌, min, Bool, insert, ◌≡◌, refl, ◌∙◌, ap, sym, subst, true, false, [], ◌∷◌, some,
  inl, inr, arith, leb, if◌then◌else◌, length, Bytes, Dict, lookup, Result, ok, err, stuck,
  Option-cases, Bool-cases,
}
use ram_link.Exec.{Exec, ◌>>=◌, ◌>>◌, pure}
use ram_link.Backend.{Backend}
use ram_link.PageCache.Defs.{RemoteMemoryCache, World, member}
use ram_link.PageCache.Defs as PageCache
use ram_link.MemoryApi.Cache.{page_bytes, Cache, Store}
use ram_link.MemoryApi.Cache as Api

module _ {Remote : Type 0} where
  -- What the cache of pages keeps, without the fields that `_Cache` lacks.
  abbrev pub project : World Remote → Store Remote
  project w = record {
    cache = record {
      remote_size = w.cache.remote_size;
      max_pages = w.cache.max_pages;
      pages = w.cache.pages;
      dirty = w.cache.dirty;
      hits = w.cache.hits;
      misses = w.cache.misses;
      remote_reads = w.cache.remote_reads;
      remote_writes = w.cache.remote_writes;
    };
    remote = w.remote;
  }

  -- The two calls ended alike, and the pages have the size still.
  abbrev pub Alike : {A : Type 0} → Result A × World Remote → Result A × Store Remote → Type 0
  Alike (r, w) r' = (r' ≡ (r, project w)) × (w.cache.page_size ≡ page_bytes)

  -- From a world with pages of PAGE_SIZE both calls end alike.
  abbrev pub Mirrors : {A : Type 0} → Exec (World Remote) A → Exec (Store Remote) A → Type 0
  Mirrors m m' = (w : World Remote) → w.cache.page_size ≡ page_bytes → Alike (m w) (m' (project w))

  pub >>=-Mirrors :
      {A B : Type 0} (m : Exec (World Remote) A) (m' : Exec (Store Remote) A)
      (f : A → Exec (World Remote) B) (f' : A → Exec (Store Remote) B)
      → Mirrors m m'
      → ((a : A) → Mirrors (f a) (f' a))
      → Mirrors (m >>= f) (m' >>= f')
  >>=-Mirrors {A} {B} m m' f f' h k w e = go (m w) (m' (project w)) (h w e)
    where
      go :
          (r : Result A × World Remote) (r' : Result A × Store Remote)
          → Alike {A = A} r r'
          → Alike {A = B}
              (elim r.0 [ ok a ↦ f a r.1 | err e ↦ (err e, r.1) | stuck ↦ (stuck, r.1) ])
              (elim r'.0 [ ok a ↦ f' a r'.1 | err e ↦ (err e, r'.1) | stuck ↦ (stuck, r'.1) ])
      go (ok a, w) r' (same, e) =
          subst
            (λ x.
              Alike {A = B} (f a w)
                (elim x.0 [ ok a ↦ f' a x.1 | err e ↦ (err e, x.1) | stuck ↦ (stuck, x.1) ]))
            (sym same) (k a w e)
      go (err x, w) r' (same, e) = (
        ap (λ y. elim y.0 [ ok a ↦ f' a y.1 | err e ↦ (err e, y.1) | stuck ↦ (stuck, y.1) ]) same,
        e,
      )
      go (stuck, w) r' (same, e) = (
        ap (λ y. elim y.0 [ ok a ↦ f' a y.1 | err e ↦ (err e, y.1) | stuck ↦ (stuck, y.1) ]) same,
        e,
      )

module _ {Remote : Type 0} (api : Backend Remote) where
  written :
      (page : ℕ) (bytes : Bytes) (w : World Remote)
      → w.cache.page_size ≡ page_bytes
      → lookup page w.cache.pages ≡ some bytes
      → page * w.cache.page_size ≡ page * page_bytes
      → (r : Result (Unit {0}) × Remote) → api.write (page * page_bytes) bytes w.remote ≡ r
      → Alike (PageCache.flush_page api page w) (Api.flush_page api page (project w))
  unfolding PageCache.flush_page Api.flush_page
  written page bytes w e found place (ok a, remote) answer =
      (ground (arith, found, place, answer), ground (arith, found, place, answer))
  written page bytes w e found place (err x, remote) answer =
      (ground (arith, found, place, answer), ground (arith, found, place, answer))
  written page bytes w e found place (stuck, remote) answer =
      (ground (arith, found, place, answer), ground (arith, found, place, answer))

  pub flush_page-Mirrors :
      (page : ℕ) → Mirrors (PageCache.flush_page api page) (Api.flush_page api page)
  unfolding PageCache.flush_page Api.flush_page
  flush_page-Mirrors page w e = elim (Option-cases (lookup page w.cache.pages)) [
    | inl absent ↦ (ground (arith, absent), ground (arith, absent))
    | inr (bytes, found) ↦
        let place : page * w.cache.page_size ≡ page * page_bytes = ap (λ (n : ℕ). page * n) e in
        written page bytes w e found place (api.write (page * page_bytes) bytes w.remote) refl
  ]

  -- The same step on both caches.
  update-Mirrors :
      (f : RemoteMemoryCache → RemoteMemoryCache) (f' : Cache → Cache)
      → ((w : World Remote)
          → project (record w { cache = f w.cache })
            ≡ record (project w) { cache = f' (project w).cache })
      → ((c : RemoteMemoryCache) → (f c).page_size ≡ c.page_size)
      → Mirrors {Remote = Remote} (PageCache.update f) (Api.alter f')
  update-Mirrors f f' same kept w e =
      (ap (λ (s : Store Remote). (ok tt, s)) (sym (same w)), kept w.cache ∙ e)

  -- A dirty page that the dict still held would be written back by both.
  evicted :
      (old : ℕ) (b bytes : Bytes) (pages : Dict Bytes) (w : World Remote)
      → w.cache.page_size ≡ page_bytes
      → member old w.cache.dirty ≡ true
      → lookup old pages ≡ some bytes
      → old * w.cache.page_size ≡ old * page_bytes
      → (r : Result (Unit {0}) × Remote) → api.write (old * page_bytes) bytes w.remote ≡ r
      → Alike
          (PageCache.evict_oldest api ((old, b) ∷ pages) w)
          (Api.drop_oldest api ((old, b) ∷ pages) (project w))
  unfolding PageCache.evict_oldest Api.drop_oldest PageCache.flush_page Api.flush_page
      Api.remove_dirty
  evicted old b bytes pages w e marked found place (ok a, remote) answer =
      (ground (arith, marked, found, place, answer), ground (arith, marked, found, place, answer))
  evicted old b bytes pages w e marked found place (err x, remote) answer =
      (ground (arith, marked, found, place, answer), ground (arith, marked, found, place, answer))
  evicted old b bytes pages w e marked found place (stuck, remote) answer =
      (ground (arith, marked, found, place, answer), ground (arith, marked, found, place, answer))

  evict_oldest-Mirrors :
      (pages : Dict Bytes) → Mirrors (PageCache.evict_oldest api pages) (Api.drop_oldest api pages)
  unfolding PageCache.evict_oldest Api.drop_oldest PageCache.flush_page Api.flush_page
      Api.remove_dirty
  evict_oldest-Mirrors [] w e = (refl, e)
  evict_oldest-Mirrors ((old, b) ∷ pages) w e = elim (Bool-cases (member old w.cache.dirty)) [
    | inr unmarked ↦ (ground (arith, unmarked), ground (arith, unmarked, e))
    | inl marked ↦ elim (Option-cases (lookup old pages)) [
      | inl absent ↦ (ground (arith, marked, absent), ground (arith, marked, absent, e))
      | inr (bytes, found) ↦
          evicted old b bytes pages w e marked found (ap (λ (n : ℕ). old * n) e)
            (api.write (old * page_bytes) bytes w.remote) refl
    ]
  ]

  -- The page that was read is put in, once there is room.
  abbrev keep : ℕ → Bytes → Bool → Dict Bytes → Exec (World Remote) Bytes
  keep page bytes full pages =
      (if full then PageCache.evict_oldest api pages else pure tt)
      >> (PageCache.update (λ c. record c { pages = insert page bytes c.pages }) >> pure bytes)

  abbrev keep_here : ℕ → Bytes → Bool → Dict Bytes → Exec (Store Remote) Bytes
  keep_here page bytes full pages =
      (if full then Api.drop_oldest api pages else pure tt)
      >> (Api.alter (λ c. record c { pages = insert page bytes c.pages }) >> pure bytes)

  keep-Mirrors :
      (page : ℕ) (bytes : Bytes) (full : Bool) (pages : Dict Bytes)
      → Mirrors (keep page bytes full pages) (keep_here page bytes full pages)
  keep-Mirrors page bytes false pages w e = (refl, e)
  keep-Mirrors page bytes true pages w e =
      >>=-Mirrors (PageCache.evict_oldest api pages) (Api.drop_oldest api pages)
        (λ _.
          (PageCache.update (λ c. record c { pages = insert page bytes c.pages }) >> pure bytes))
        (λ _. (Api.alter (λ c. record c { pages = insert page bytes c.pages }) >> pure bytes))
        (evict_oldest-Mirrors pages) (λ _ w e. (refl, e)) w e

  -- A miss, by the answer of the service.
  missed :
      (page : ℕ) (w : World Remote)
      → w.cache.page_size ≡ page_bytes
      → page * w.cache.page_size ≡ page * page_bytes
      → (r : Result Bytes × Remote)
      → api.read
          (page * page_bytes)
          (min page_bytes (w.cache.remote_size - page * page_bytes))
          w.remote
        ≡ r
      → Alike (PageCache.fetch_page api page w) (Api.load_new api page (project w))
  unfolding PageCache.fetch_page Api.load_new
  missed page w e place (ok bytes, remote) answer =
      let w1 : World Remote = record {
        cache = record w.cache {
          misses = w.cache.misses + 1;
          remote_reads = w.cache.remote_reads + 1;
        };
        remote = remote;
      } in
      let full = leb w.cache.max_pages (length w.cache.pages) in
      let there : PageCache.fetch_page api page w ≡ keep page bytes full w.cache.pages w1 =
        ground (arith, e, place, answer) in
      let here : Api.load_new api page (project w)
          ≡ keep_here page bytes full w.cache.pages (project w1) =
        ground (arith, answer) in
      rw (there, here) (keep-Mirrors page bytes full w.cache.pages w1 e)
  missed page w e place (err x, remote) answer =
      (ground (arith, e, place, answer), ground (arith, e, place, answer))
  missed page w e place (stuck, remote) answer =
      (ground (arith, e, place, answer), ground (arith, e, place, answer))

  pub load-Mirrors : (page : ℕ) → Mirrors (PageCache.load_page api page) (Api.load api page)
  unfolding PageCache.load_page Api.load
  load-Mirrors page w e = elim (Option-cases (lookup page w.cache.pages)) [
    | inr (bytes, found) ↦ (ground (arith, found), ground (arith, found, e))
    | inl absent ↦
        rw (PageCache.load_page, Api.load, absent)
          (missed page w e (ap (λ (n : ℕ). page * n) e)
            (api.read (page * page_bytes) (min page_bytes (w.cache.remote_size - page * page_bytes))
              w.remote)
            refl)
  ]
