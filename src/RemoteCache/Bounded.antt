-- ===== src/RemoteCache/Bounded.antt =====
-- The bound on the number of cached pages, in reads and writes.
use ram_link.Base.{
  ℕ, zero, suc, ◌+◌, ◌-◌, ◌*◌, ◌/◌, ◌%◌, ◌≡◌, min, Bool, true, false, some, arith, ltb, leb, ◌==◌,
  [], ◌++◌, length, slice, set_slice, Bytes, lookup, insert, contains, move_to_end,
  insert-HasDistinctKeys, value_error,
}
use ram_link.Exec.{◌>>=◌, ◌>>◌, pure, raise_if}
use ram_link.Exec.Triple.{Ends, Ends-state, >>=-Ends}
use ram_link.Client.Host.{Host}
use ram_link.RemoteCache.Defs.{
  page, RemoteCache, Holder, change, over, page_at, load_page, remote_write, get_page, read_loop,
  read, ensure_page, send_page, write_page, write_loop, write,
}
use ram_link.RemoteCache.Pages.{IsBounded, length-insert_present}
use ram_link.RemoteCache.Loading.{
  Holds, Keeps, >>=-Keeps, over-Keeps, moved, page_at-Cached, if-Keeps, counted, missed,
  get_page-Keeps, elim-Keeps, ended,
}

module _ {Net : Type 0} (host : Host Net) where
  read_loop-Keeps :
      (fuel offset size : ℕ) (out : Bytes) → Keeps (read_loop host fuel offset size out)
  unfolding read_loop
  read_loop-Keeps zero offset size out = ended (size == 0) out
  read_loop-Keeps (suc fuel) offset size out =
      let inside = offset % page in
      let n = min size (page - inside) in
      let round = λ (bytes : Bytes).
        read_loop host fuel (offset + n) (size - n) (out ++ slice bytes inside (inside + n)) in
      elim-Keeps (size == 0) (pure out) (get_page host (offset / page) >>= round) (λ s b. b)
        (>>=-Keeps (get_page host (offset / page)) round (get_page-Keeps host (offset / page))
          (λ bytes. read_loop-Keeps fuel _ _ _))

  inserted :
      (p : ℕ) (old new : Bytes) (c : RemoteCache)
      → IsBounded c
      → lookup p c.pages ≡ some old
      → IsBounded (record c { pages = insert p new c.pages })
  inserted p old new c b found = record {
    room = b.room;
    few = omega (arith, length-insert_present p old new c.pages found, b.few);
    distinct = insert-HasDistinctKeys p new c.pages b.distinct;
  }

  send_page-Keeps :
      (p : ℕ) (old new : Bytes) (s : Holder Net)
      → Holds s
      → lookup p s.cache.pages ≡ some old
      → Ends (λ _. Holds) Holds (send_page host p new s)
  unfolding send_page
  send_page-Keeps p old new s b found =
      let s1 : Holder Net = record s {
        cache = record s.cache { pages = insert p new s.cache.pages };
      } in
      let sent = remote_write host s1.cache (p * page) new in
      >>=-Keeps (over sent) (λ _. change (λ c. record c { pages = move_to_end p c.pages }))
        (over-Keeps sent) (λ _ s' b'. moved p s'.cache b') s1 (inserted p old new s.cache b found)

  ensure_page-Keeps : (p : ℕ) → Keeps (ensure_page host p)
  unfolding ensure_page
  ensure_page-Keeps p s b =
      if-Keeps (contains p s.cache.pages) (change (λ c. record c { hits = c.hits + 1 }))
        (change (λ c. record c { misses = c.misses + 1 }) >> load_page host p)
        (λ s' b'. counted s'.cache (s'.cache.hits + 1) s'.cache.misses b') (missed host p) s b

  write_page-Keeps : (p inside : ℕ) (bytes : Bytes) → Keeps (write_page host p inside bytes)
  unfolding write_page
  write_page-Keeps p inside bytes =
      let put =
        λ (old : Bytes). send_page host p (set_slice old inside (inside + length bytes) bytes) in
      >>=-Keeps (ensure_page host p) (λ _. page_at p >>= put) (ensure_page-Keeps p)
        (λ _ s b.
          >>=-Ends put (λ old s. Holds s × (lookup p s.cache.pages ≡ some old)) (λ _. Holds) Holds
            (λ old s' h.
              send_page-Keeps p old (set_slice old inside (inside + length bytes) bytes) s' h.0 h.1)
            (page_at p) s (page_at-Cached p s b))

  write_loop-Keeps :
      (fuel offset : ℕ) (bytes : Bytes) (pos : ℕ) → Keeps (write_loop host fuel offset bytes pos)
  unfolding write_loop
  write_loop-Keeps zero offset bytes pos = ended (leb (length bytes) pos) tt
  write_loop-Keeps (suc fuel) offset bytes pos =
      let inside = (offset + pos) % page in
      let n = min (length bytes - pos) (page - inside) in
      let first = write_page host ((offset + pos) / page) inside (slice bytes pos (pos + n)) in
      let rest = λ (_ : Unit {0}). write_loop host fuel offset bytes (pos + n) in
      elim-Keeps (leb (length bytes) pos) (pure tt) (first >>= rest) (λ s b. b)
        (>>=-Keeps first rest (write_page-Keeps _ _ _)
          (λ _. write_loop-Keeps fuel offset bytes (pos + n)))

  raise_if-Keeps : (c : Bool) → Keeps {Net = Net} (raise_if c value_error)
  raise_if-Keeps true s b = b
  raise_if-Keeps false s b = b

  -- However a read or a write ends, the cache then holds at most `capacity` pages, if it did before.
  pub methods-IsBounded :
      (s : Holder Net) (offset size : ℕ) (bytes : Bytes)
      → IsBounded s.cache
      → IsBounded (read host offset size s).1.cache × IsBounded (write host offset bytes s).1.cache
  unfolding read write
  methods-IsBounded s offset size bytes b =
      let total = s.cache.remote_size in
      let far = raise_if {S = Holder Net} (ltb total (offset + size)) value_error in
      let far' = raise_if {S = Holder Net} (ltb total (offset + length bytes)) value_error in
      (
        Ends-state Holds (read host offset size s) (
            >>=-Keeps far (λ _. read_loop host size offset size [])
              (raise_if-Keeps (ltb total (offset + size)))
              (λ _. read_loop-Keeps size offset size []) s b),
        Ends-state Holds (write host offset bytes s) (
            >>=-Keeps far' (λ _. write_loop host (length bytes) offset bytes 0)
              (raise_if-Keeps (ltb total (offset + length bytes)))
              (λ _. write_loop-Keeps (length bytes) offset bytes 0) s b),
      )
