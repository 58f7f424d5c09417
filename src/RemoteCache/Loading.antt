-- ===== src/RemoteCache/Loading.antt =====
-- The bound on the number of cached pages, where a page is fetched.
use ram_link.Base.{
  ℕ, ◌+◌, ◌*◌, ◌≡◌, refl, sym, subst, Bool, true, false, none, some, Option, arith, if◌then◌else◌,
  Bytes, Dict, lookup, insert, contains, erase, move_to_end, lookup-erase, lookup-insert_self,
  insert-HasDistinctKeys, move_to_end-HasDistinctKeys, Result, ok, err, stuck, key_error,
}
use ram_link.Exec.{Exec, ◌>>=◌, ◌>>◌, pure, or_raise}
use ram_link.Exec.Triple.{Ends, Triple, Ends-mono, >>=-Ends}
use ram_link.Client.Host.{Host}
use ram_link.RemoteCache.Defs.{
  page, RemoteCache, Holder, trim, change, over, page_at, load_page, remote_read, hit_page,
  miss_page, get_page,
}
use ram_link.RemoteCache.Pages.{
  IsBounded, length-trim, trim-HasDistinctKeys, trim_last, length-move_to_end, newest,
}

pub moved :
    (p : ℕ) (c : RemoteCache) → IsBounded c → IsBounded (record c { pages = move_to_end p c.pages })
moved p c b = record {
  room = b.room;
  few = omega (arith, length-move_to_end p c.pages, b.few);
  distinct = move_to_end-HasDistinctKeys p c.pages b.distinct;
}

-- What `load_page` does to the pages.
abbrev loaded : ℕ → Bytes → RemoteCache → RemoteCache
loaded p bytes c = record c { pages = trim c.capacity (move_to_end p (insert p bytes c.pages)) }

loaded-IsBounded :
    (p : ℕ) (bytes : Bytes) (c : RemoteCache) → IsBounded c → IsBounded (loaded p bytes c)
loaded-IsBounded p bytes c b = record {
  room = b.room;
  few = length-trim c.capacity (move_to_end p (insert p bytes c.pages));
  distinct =
      trim-HasDistinctKeys c.capacity _
        (move_to_end-HasDistinctKeys p _ (insert-HasDistinctKeys p bytes c.pages b.distinct));
}

loaded-last :
    (p : ℕ) (bytes : Bytes) (c : RemoteCache)
    → IsBounded c
    → lookup p (loaded p bytes c).pages ≡ some bytes
loaded-last p bytes c b =
    let d = insert p bytes c.pages in
    subst (λ (e : Dict Bytes). lookup p (trim c.capacity e) ≡ some bytes)
      (sym (newest p bytes d (lookup-insert_self p bytes c.pages)))
      (trim_last c.capacity p bytes (erase p d) b.room
        (ground (arith, lookup-erase p p d (insert-HasDistinctKeys p bytes c.pages b.distinct))))

-- The counts of hits and misses do not matter.
pub counted :
    (c : RemoteCache) (hits misses : ℕ)
    → IsBounded c
    → IsBounded (record c { hits = hits; misses = misses })
counted c hits misses b = record { room = b.room; few = b.few; distinct = b.distinct }

module _ {Net : Type 0} where
  abbrev pub Holds : Holder Net → Type 0
  Holds s = IsBounded s.cache

  -- A call after which the bound holds, however it ends.
  abbrev pub Keeps : {A : Type 0} → Exec (Holder Net) A → Type 0
  Keeps m = Triple Holds m (λ _. Holds) Holds

  pub >>=-Keeps :
      {A B : Type 0} (m : Exec (Holder Net) A) (f : A → Exec (Holder Net) B)
      → Keeps m
      → ((a : A) → Keeps (f a))
      → Keeps (m >>= f)
  >>=-Keeps m f h k s b = >>=-Ends f (λ _. Holds) (λ _. Holds) Holds k m s (h s b)

  pub over-Keeps : {A : Type 0} (f : Exec Net A) → Keeps (over f)
  over-Keeps {A} f s b = go (f s.net)
    where
      go : (r : Result A × Net) → Ends (λ _. Holds) Holds (r.0, record s { net = r.1 })
      go (ok a, net) = b
      go (err e, net) = b
      go (stuck, net) = b

  -- The page is cached.
  abbrev Has : ℕ → Holder Net → Type 0
  Has p s = (bytes : Bytes) × (lookup p s.cache.pages ≡ some bytes)

  pub page_at-Cached :
      (p : ℕ)
      → Triple Holds (page_at p) (λ bytes s. Holds s × (lookup p s.cache.pages ≡ some bytes)) Holds
  page_at-Cached p s b = go (lookup p s.cache.pages) refl
    where
      go :
          (o : Option Bytes)
          → lookup p s.cache.pages ≡ o
          → Ends
              (λ bytes s. Holds s × (lookup p s.cache.pages ≡ some bytes))
              Holds
              (or_raise o key_error s)
      go none e = b
      go (some bytes) e = (b, e)

  pub if-Keeps :
      {A : Type 0} (c : Bool) (m m' : Exec (Holder Net) A)
      → Keeps m
      → Keeps m'
      → Keeps (if c then m else m')
  if-Keeps true m m' h k = h
  if-Keeps false m m' h k = k

  pub page_at-Keeps : (p : ℕ) → Keeps (page_at p)
  page_at-Keeps p s b =
      Ends-mono _ (λ _. Holds) Holds Holds (λ _ _ h. h.0) (λ _ h. h) (page_at p s)
        (page_at-Cached p s b)

  pub elim-Keeps :
      {A : Type 0} (c : Bool) (m m' : Exec (Holder Net) A)
      → Keeps m
      → Keeps m'
      → Keeps {A = A} (λ s. elim c [ true ↦ m s | false ↦ m' s ])
  elim-Keeps true m m' h k = h
  elim-Keeps false m m' h k = k

  pub ended : {A : Type 0} (c : Bool) (a : A) → Keeps {A = A} (λ s. (if c then ok a else stuck, s))
  ended true a s b = b
  ended false a s b = b

module _ {Net : Type 0} (host : Host Net) where
  -- After `load_page` the page is there, however small the cache.
  pub load_page-Loaded : (p : ℕ) → Triple Holds (load_page host p) (λ _ s. Holds s × Has p s) Holds
  unfolding load_page
  load_page-Loaded p s b =
      >>=-Ends
        (λ bytes.
          (change (λ c. record c { pages = insert p bytes c.pages })
            >> change (λ c. record c { pages = move_to_end p c.pages }))
          >> change (λ c. record c { pages = trim c.capacity c.pages }))
        (λ _. Holds) (λ _ s. Holds s × Has p s) Holds
        (λ bytes s' b'.
          (loaded-IsBounded p bytes s'.cache b', (bytes, loaded-last p bytes s'.cache b')))
        (over (remote_read host s.cache (p * page) page)) s
        (over-Keeps (remote_read host s.cache (p * page) page) s b)

  pub load_page-Keeps : (p : ℕ) → Keeps (load_page host p)
  load_page-Keeps p s b =
      Ends-mono _ (λ _. Holds) Holds Holds (λ _ _ h. h.0) (λ _ h. h) (load_page host p s)
        (load_page-Loaded p s b)

  pub missed :
      (p : ℕ) → Keeps (change (λ c. record c { misses = c.misses + 1 }) >> load_page host p)
  missed p s b = load_page-Keeps p _ (counted s.cache s.cache.hits (s.cache.misses + 1) b)

  hit_page-Keeps : (p : ℕ) → Keeps (hit_page host p)
  unfolding hit_page
  hit_page-Keeps p s b =
      let s1 : Holder Net = record s { cache = record s.cache { hits = s.cache.hits + 1 } } in
      >>=-Ends (λ bytes. change (λ c. record c { pages = move_to_end p c.pages }) >> pure bytes)
        (λ bytes s. Holds s × (lookup p s.cache.pages ≡ some bytes)) (λ _. Holds) Holds
        (λ bytes s' h. moved p s'.cache h.0) (page_at p) s1
        (page_at-Cached p s1 (counted s.cache (s.cache.hits + 1) s.cache.misses b))

  miss_page-Keeps : (p : ℕ) → Keeps (miss_page host p)
  unfolding miss_page
  miss_page-Keeps p s b =
      let s1 : Holder Net = record s { cache = record s.cache { misses = s.cache.misses + 1 } } in
      >>=-Keeps (load_page host p) (λ _. page_at p) (load_page-Keeps p) (λ _. page_at-Keeps p) s1
        (counted s.cache s.cache.hits (s.cache.misses + 1) b)

  pub get_page-Keeps : (p : ℕ) → Keeps (get_page host p)
  unfolding get_page
  get_page-Keeps p s b =
      if-Keeps (contains p s.cache.pages) (hit_page host p) (miss_page host p) (hit_page-Keeps p)
        (miss_page-Keeps p) s b

  -- A page that `load_page` has brought is not among those that leave the cache, however small that is.
  pub load_page_kept :
      (p : ℕ) (s : Holder Net)
      → IsBounded s.cache
      → Ends
          (λ _ s'. IsBounded s'.cache × ((bytes : Bytes) × (lookup p s'.cache.pages ≡ some bytes)))
          (λ s'. IsBounded s'.cache)
          (load_page host p s)
  load_page_kept p s b = load_page-Loaded p s b
