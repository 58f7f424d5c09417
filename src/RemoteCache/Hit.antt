-- ===== src/RemoteCache/Hit.antt =====
-- A read that the cache answers by itself.
use ram_link.Base.{
  ℕ, zero, suc, ◌+◌, ◌-◌, ◌/◌, ◌%◌, ◌≤◌, ◌<◌, ◌≡◌, min, some, arith, slice, Bytes, lookup,
  move_to_end, ok,
}
use ram_link.Client.Host.{Host}
use ram_link.RemoteCache.Defs.{page, Holder, hit_page, get_page, read_loop, read}

module _ {Net : Type 0} (host : Host Net) where
  -- The state after a page was found.
  abbrev hit : ℕ → Holder Net → Holder Net
  hit p s = record s {
    cache = record s.cache { pages = move_to_end p s.cache.pages; hits = s.cache.hits + 1 };
  }

  get_page-cached :
      (p : ℕ) (s : Holder Net) (bytes : Bytes)
      → lookup p s.cache.pages ≡ some bytes
      → get_page host p s ≡ (ok bytes, hit p s)
  unfolding get_page hit_page
  get_page-cached p s bytes cached = ground (arith, cached)

  read_loop-done :
      (fuel offset size : ℕ) (out : Bytes) (s : Holder Net)
      → size ≡ 0
      → read_loop host fuel offset size out s ≡ (ok out, s)
  unfolding read_loop
  read_loop-done zero offset size out s done = ground arith
  read_loop-done (suc fuel) offset size out s done = ground arith

  -- A read of one byte or more that lies in one cached page returns the bytes of the page and asks the server
  -- nothing; the page is then the newest.
  pub cached_read :
      (s : Holder Net) (offset n : ℕ) (bytes : Bytes)
      → lookup (offset / page) s.cache.pages ≡ some bytes
      → 0 < n
      → offset % page + n ≤ page
      → offset + n ≤ s.cache.remote_size
      → read host offset n s ≡ (
        ok (slice bytes (offset % page) (offset % page + n)),
        record s {
          cache = record s.cache {
            pages = move_to_end (offset / page) s.cache.pages;
            hits = s.cache.hits + 1;
          };
        },
      )
  unfolding read read_loop
  cached_read s offset zero bytes cached pos one inside = absurd (omega arith)
  cached_read s offset (suc n) bytes cached pos one inside =
      let p = offset / page in
      let at = offset % page in
      let found = get_page-cached p s bytes cached in
      let whole : min (suc n) (page - at) ≡ suc n = omega arith in
      let out = slice bytes at (at + suc n) in
      let done = read_loop-done n (offset + suc n) (suc n - suc n) out (hit p s) (omega arith) in
      ground (arith, found, whole, done)
