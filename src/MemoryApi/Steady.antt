-- ===== src/MemoryApi/Steady.antt =====
-- The calls of `_Cache` leave the size of the remote memory as it is.
use ram_link.Base.{
  ℕ, zero, suc, ◌+◌, ◌-◌, ◌*◌, ◌/◌, ◌%◌, min, ◌≡◌, refl, ◌∙◌, inl, inr, [], ◌∷◌, ◌++◌, List, Bool,
  true, false, arith, leb, ◌==◌, if◌then◌else◌, length, slice, Bytes, Dict, lookup, insert, Result,
  ok, err, stuck, Bool-cases, Option-cases,
}
use ram_link.Exec.{Exec, ◌>>=◌, ◌>>◌, pure, gets}
use ram_link.Backend.{Backend}
use ram_link.PageCache.Defs.{member}
use ram_link.MemoryApi.Cache.{Store}
use ram_link.MemoryApi.Cache as Api

-- The call leaves the size of the remote memory as it is, however it ends.
abbrev pub Steady : {Remote A : Type 0} → Exec (Store Remote) A → Type 0
Steady f = (s : Store _) → (f s).1.cache.remote_size ≡ s.cache.remote_size

module _ {Remote : Type 0} (service : Backend Remote) where
  >>=-Steady :
      {A B : Type 0} (m : Exec (Store Remote) A) (f : A → Exec (Store Remote) B)
      → Steady m
      → ((a : A) → Steady (f a))
      → Steady (m >>= f)
  >>=-Steady {A} {B} m f h k s = go (m s) (h s)
    where
      go :
          (r : Result A × Store Remote)
          → r.1.cache.remote_size ≡ s.cache.remote_size
          → (elim r.0 as (λ _. Result B × Store Remote) [
            | ok a ↦ f a r.1
            | err e ↦ (err e, r.1)
            | stuck ↦ (stuck, r.1)
          ]).1.cache.remote_size
            ≡ s.cache.remote_size
      go (ok a, s') e = k a s' ∙ e
      go (err x, s') e = e
      go (stuck, s') e = e

  flush_page-Steady : (page : ℕ) → Steady (Api.flush_page service page)
  unfolding Api.flush_page
  flush_page-Steady page s = elim (Option-cases (lookup page s.cache.pages)) [
    | inl absent ↦ ground (arith, absent)
    | inr (bytes, found) ↦
        rw (Api.flush_page, found)
          (>>=-Steady (Api.at_service (service.write (page * Api.page_bytes) bytes))
            (λ _. Api.alter (λ c. record c { remote_writes = c.remote_writes + 1 })) (λ s. refl)
            (λ _ s. refl) s)
  ]

  remove_dirty-Steady : (page : ℕ) → Steady {Remote = Remote} (Api.remove_dirty page)
  unfolding Api.remove_dirty
  remove_dirty-Steady page s = elim (Bool-cases (member page s.cache.dirty)) [
    | inl marked ↦ ground (arith, marked)
    | inr clean ↦ ground (arith, clean)
  ]

  drop_oldest-Steady : (pages : Dict Bytes) → Steady (Api.drop_oldest service pages)
  unfolding Api.drop_oldest Api.remove_dirty
  drop_oldest-Steady [] s = refl
  drop_oldest-Steady ((old, b) ∷ pages) s = elim (Bool-cases (member old s.cache.dirty)) [
    | inr clean ↦ ground (arith, clean)
    | inl marked ↦
        rw (Api.drop_oldest, marked)
          (>>=-Steady (Api.flush_page service old) (λ _. Api.remove_dirty old)
            (flush_page-Steady old) (λ _. remove_dirty-Steady old)
            (record s { cache = record s.cache { pages = pages } }))
  ]

  kept-Steady :
      (page : ℕ) (bytes : Bytes) (full : Bool) (pages : Dict Bytes)
      → Steady (
          (if full then Api.drop_oldest service pages else pure tt)
          >> (Api.alter (λ c. record c { pages = insert page bytes c.pages }) >> pure bytes))
  kept-Steady page bytes false pages s = refl
  kept-Steady page bytes true pages s =
      >>=-Steady (Api.drop_oldest service pages)
        (λ _. (Api.alter (λ c. record c { pages = insert page bytes c.pages }) >> pure bytes))
        (drop_oldest-Steady pages) (λ _ _. refl) s

  load_new-Steady : (page : ℕ) → Steady (Api.load_new service page)
  unfolding Api.load_new
  load_new-Steady page s =
      >>=-Steady
        (Api.at_service (
          service.read (page * Api.page_bytes)
            (min Api.page_bytes (s.cache.remote_size - page * Api.page_bytes))))
        (λ bytes s'.
          (do
            c ← gets (λ s. s.cache)
            if leb c.max_pages (length c.pages) then Api.drop_oldest service c.pages else pure tt
            Api.alter (λ c. record c { pages = insert page bytes c.pages })
            pure bytes)
            (record s' { cache = record s'.cache { remote_reads = s'.cache.remote_reads + 1 } }))
        (λ _. refl)
        (λ bytes s'.
          kept-Steady page bytes (leb s'.cache.max_pages (length s'.cache.pages)) s'.cache.pages
            (record s' { cache = record s'.cache { remote_reads = s'.cache.remote_reads + 1 } }))
        (record s { cache = record s.cache { misses = s.cache.misses + 1 } })

  load-Steady : (page : ℕ) → Steady (Api.load service page)
  unfolding Api.load
  load-Steady page s = elim (Option-cases (lookup page s.cache.pages)) [
    | inl absent ↦ rw (Api.load, absent) (load_new-Steady page s)
    | inr (bytes, found) ↦ ground (arith, found)
  ]

  reading-Steady :
      (fuel offset size : ℕ) (out : Bytes) → Steady (Api.reading service fuel offset size out)
  unfolding Api.reading
  reading-Steady zero offset size out s = refl
  reading-Steady (suc fuel) offset size out s = elim (Bool-cases (size == 0)) [
    | inl all ↦ ground (arith, all)
    | inr left ↦
        rw (Api.reading, left)
          (>>=-Steady (Api.load service (offset / Api.page_bytes))
            (λ bytes.
              let inside = offset % Api.page_bytes in
              let n = min size (length bytes - inside) in
              Api.reading service fuel (offset + n) (size - n)
                (out ++ slice bytes inside (inside + n)))
            (load-Steady (offset / Api.page_bytes)) (λ bytes. reading-Steady fuel _ _ _) s)
  ]

  writing-Steady :
      (fuel offset : ℕ) (bytes : Bytes) (pos : ℕ)
      → Steady (Api.writing service fuel offset bytes pos)
  unfolding Api.writing Api.put_in_page
  writing-Steady zero offset bytes pos s = refl
  writing-Steady (suc fuel) offset bytes pos s = elim (Bool-cases (leb (length bytes) pos)) [
    | inl all ↦ ground (arith, all)
    | inr left ↦
        rw (Api.writing, left)
          (>>=-Steady (Api.load service (offset / Api.page_bytes))
            (λ page_data.
              let inside = offset % Api.page_bytes in
              let n = min (length bytes - pos) (length page_data - inside) in
              Api.put_in_page service (offset / Api.page_bytes) inside page_data
                (slice bytes pos (pos + n))
              >> Api.writing service fuel (offset + n) bytes (pos + n))
            (load-Steady (offset / Api.page_bytes)) (λ page_data s. writing-Steady fuel _ bytes _ _)
            s)
  ]

  flush_each-Steady : (pages : List ℕ) → Steady (Api.flush_each service pages)
  unfolding Api.flush_each
  flush_each-Steady [] s = refl
  flush_each-Steady (page ∷ rest) s =
      >>=-Steady (Api.flush_page service page) (λ _. Api.flush_each service rest)
        (flush_page-Steady page) (λ _. flush_each-Steady rest) s

  pub read-Steady : (offset size : ℕ) → Steady (Api.read service offset size)
  unfolding Api.read Api.check
  read-Steady offset size s =
      >>=-Steady (Api.check offset size) (λ _. Api.reading service size offset size []) (λ _. refl)
        (λ _. reading-Steady size offset size []) s

  pub write-Steady : (offset : ℕ) (bytes : Bytes) → Steady (Api.write service offset bytes)
  unfolding Api.write Api.check
  write-Steady offset bytes s =
      >>=-Steady (Api.check offset (length bytes))
        (λ _. Api.writing service (length bytes) offset bytes 0) (λ _. refl)
        (λ _. writing-Steady (length bytes) offset bytes 0) s

  pub flush-Steady : Steady (Api.flush service)
  unfolding Api.flush
  flush-Steady s =
      >>=-Steady (Api.flush_each service s.cache.dirty)
        (λ _. Api.alter (λ c. record c { dirty = [] })) (flush_each-Steady s.cache.dirty)
        (λ _ _. refl) s
