-- ===== src/MemoryApi/Methods.antt =====
-- The methods of `_Cache` end as those of `RemoteMemoryCache` do, and what follows for them.
use ram_link.Base.{
  ℕ, zero, suc, ◌+◌, ◌-◌, ◌/◌, ◌%◌, min, ◌≡◌, refl, ap, List, [], ◌∷◌, ◌++◌, inl, inr, arith, leb,
  ◌==◌, length, slice, Bytes, Bool-cases,
}
use ram_link.Exec.{Exec, ◌>>=◌, ◌>>◌}
use ram_link.Backend.{Backend}
use ram_link.PageCache.Defs.{RemoteMemoryCache, World, member}
use ram_link.PageCache.Defs as PageCache
use ram_link.MemoryApi.Cache.{page_bytes, Cache, Store}
use ram_link.MemoryApi.Cache as Api
use ram_link.MemoryApi.Mirror.{
  project, Alike, Mirrors, >>=-Mirrors, flush_page-Mirrors, load-Mirrors,
}

module _ {Remote : Type 0} (api : Backend Remote) where
  reading-Mirrors :
      (fuel offset size : ℕ) (out : Bytes)
      → Mirrors
          (PageCache.read_loop api fuel offset size out)
          (Api.reading api fuel offset size out)
  unfolding PageCache.read_loop Api.reading
  reading-Mirrors zero offset size out w e = (refl, e)
  reading-Mirrors (suc fuel) offset size out w e = elim (Bool-cases (size == 0)) [
    | inl all ↦ (ground (arith, all), ground (arith, all, e))
    | inr left ↦
        let page = offset / page_bytes in
        let round : ℕ → Bytes → Exec (World Remote) Bytes = λ ps bytes.
          let n = min size (length bytes - offset % ps) in
          PageCache.read_loop api fuel (offset + n) (size - n)
            (out ++ slice bytes (offset % ps) (offset % ps + n)) in
        let round_here : Bytes → Exec (Store Remote) Bytes = λ bytes.
          let inside = offset % page_bytes in
          let n = min size (length bytes - inside) in
          Api.reading api fuel (offset + n) (size - n) (out ++ slice bytes inside (inside + n)) in
        let there : PageCache.read_loop api (suc fuel) offset size out w
            ≡ (PageCache.load_page api page >>= round page_bytes) w =
          rw (PageCache.read_loop, left)
            (ap (λ (ps : ℕ). (PageCache.load_page api (offset / ps) >>= round ps) w) e) in
        let here : Api.reading api (suc fuel) offset size out (project w)
            ≡ (Api.load api page >>= round_here) (project w) =
          rw (Api.reading, left) refl in
        rw (there, here)
          (>>=-Mirrors (PageCache.load_page api page) (Api.load api page) (round page_bytes)
            round_here (load-Mirrors api page) (λ bytes w e. reading-Mirrors fuel _ _ _ w e) w e)
  ]

  writing-Mirrors :
      (fuel offset : ℕ) (bytes : Bytes) (pos : ℕ)
      → Mirrors
          (PageCache.write_loop api fuel offset bytes pos)
          (Api.writing api fuel offset bytes pos)
  unfolding PageCache.write_loop Api.writing PageCache.put_bytes Api.put_in_page
  writing-Mirrors zero offset bytes pos w e = (refl, e)
  writing-Mirrors (suc fuel) offset bytes pos w e = elim (Bool-cases (leb (length bytes) pos)) [
    | inl all ↦ (ground (arith, all), ground (arith, all, e))
    | inr left ↦
        let inside = offset % page_bytes in
        let page = offset / page_bytes in
        let round : ℕ → Bytes → Exec (World Remote) (Unit {0}) = λ ps page_data.
          let n = min (length bytes - pos) (length page_data - offset % ps) in
          PageCache.put_bytes api (offset / ps) (offset % ps) page_data (slice bytes pos (pos + n))
          >> PageCache.write_loop api fuel (offset + n) bytes (pos + n) in
        let round_here : Bytes → Exec (Store Remote) (Unit {0}) = λ page_data.
          let n = min (length bytes - pos) (length page_data - inside) in
          Api.put_in_page api page inside page_data (slice bytes pos (pos + n))
          >> Api.writing api fuel (offset + n) bytes (pos + n) in
        let there : PageCache.write_loop api (suc fuel) offset bytes pos w
            ≡ (PageCache.load_page api page >>= round page_bytes) w =
          rw (PageCache.write_loop, left)
            (ap (λ (ps : ℕ). (PageCache.load_page api (offset / ps) >>= round ps) w) e) in
        let here : Api.writing api (suc fuel) offset bytes pos (project w)
            ≡ (Api.load api page >>= round_here) (project w) =
          rw (Api.writing, left) refl in
        rw (there, here)
          (>>=-Mirrors (PageCache.load_page api page) (Api.load api page) (round page_bytes)
            round_here (load-Mirrors api page) (λ page_data w e. writing-Mirrors fuel _ bytes _ _ e)
            w e)
  ]

  flush_each-Mirrors :
      (pages : List ℕ) → Mirrors (PageCache.flush_pages api pages) (Api.flush_each api pages)
  unfolding PageCache.flush_pages Api.flush_each
  flush_each-Mirrors [] w e = (refl, e)
  flush_each-Mirrors (page ∷ rest) w e =
      >>=-Mirrors (PageCache.flush_page api page) (Api.flush_page api page)
        (λ _. PageCache.flush_pages api rest) (λ _. Api.flush_each api rest)
        (flush_page-Mirrors api page) (λ _. flush_each-Mirrors rest) w e

  check-Mirrors :
      (offset size : ℕ)
      → Mirrors {Remote = Remote} (PageCache.check api offset size) (Api.check offset size)
  unfolding PageCache.check Api.check
  check-Mirrors offset size w e = (refl, e)

  read-Mirrors :
      (offset size : ℕ) → Mirrors (PageCache.read api offset size) (Api.read api offset size)
  unfolding PageCache.read Api.read
  read-Mirrors offset size w e =
      >>=-Mirrors (PageCache.check api offset size) (Api.check offset size)
        (λ _. PageCache.read_loop api size offset size [])
        (λ _. Api.reading api size offset size []) (check-Mirrors offset size)
        (λ _. reading-Mirrors size offset size []) w e

  write-Mirrors :
      (offset : ℕ) (bytes : Bytes)
      → Mirrors (PageCache.write api offset bytes) (Api.write api offset bytes)
  unfolding PageCache.write Api.write
  write-Mirrors offset bytes w e =
      >>=-Mirrors (PageCache.check api offset (length bytes)) (Api.check offset (length bytes))
        (λ _. PageCache.write_loop api (length bytes) offset bytes 0)
        (λ _. Api.writing api (length bytes) offset bytes 0) (check-Mirrors offset (length bytes))
        (λ _. writing-Mirrors (length bytes) offset bytes 0) w e

  flush-Mirrors : Mirrors (PageCache.flush api) (Api.flush api)
  unfolding PageCache.flush Api.flush
  flush-Mirrors w e =
      >>=-Mirrors (PageCache.flush_pages api w.cache.dirty) (Api.flush_each api w.cache.dirty)
        (λ _. PageCache.update (λ c. record c { dirty = [] }))
        (λ _. Api.alter (λ c. record c { dirty = [] })) (flush_each-Mirrors w.cache.dirty)
        (λ _ w e. (refl, e)) w e

  -- `read`, `write` and `flush` of `_Cache` return and raise what those of `RemoteMemoryCache` with pages of
  -- PAGE_SIZE do, and leave the same fields, the remote memory among them.
  pub methods-Mirrors :
      (w : World Remote) (offset size : ℕ) (bytes : Bytes)
      → w.cache.page_size ≡ page_bytes
      → Alike (PageCache.read api offset size w) (Api.read api offset size (project w))
        × Alike (PageCache.write api offset bytes w) (Api.write api offset bytes (project w))
        × Alike (PageCache.flush api w) (Api.flush api (project w))
  methods-Mirrors w offset size bytes e =
      (read-Mirrors offset size w e, write-Mirrors offset bytes w e, flush-Mirrors w e)
