-- ===== src/RemoteCache/Defs.antt =====
-- `RemoteCache` (android/termux/remote_cache.py). Its methods run from start to end: its lock is not modelled.
use ram_link.Base.{
  ℕ, zero, suc, ◌+◌, ◌-◌, ◌*◌, ◌/◌, ◌%◌, min, max, true, false, not, ltb, leb, ◌==◌, if◌then◌else◌,
  [], ◌∷◌, ◌++◌, length, slice, set_slice, Bytes, Dict, lookup, insert, move_to_end, contains, ok,
  stuck, value_error, key_error, bytes_eq,
}
use ram_link.Exec.{Exec, ◌>>=◌, ◌>>◌, pure, gets, or_raise, raise_if, lift, modify, try_except}
use ram_link.Wire.{max_block}
use ram_link.Wire.Op
use ram_link.Wire.Header.{pack_header, unpack_header, unpack_lease_reply, header_size, magic}
use ram_link.Client.Host.{Host, recv_all}

-- PAGE
abbrev pub page : ℕ
page = 64 * 1024

pub record RemoteCache : Type 0 where
  pub sock : ℕ
  pub lease_id : ℕ
  pub base : ℕ
  pub remote_size : ℕ
  pub capacity : ℕ
  pub pages : Dict Bytes
  pub hits : ℕ
  pub misses : ℕ

-- The object, and all that is behind its socket.
pub record Holder (Net : Type 0) : Type 0 where
  pub cache : RemoteCache
  pub net : Net

-- The loop of `load_page`: the oldest pages go.
unfoldable pub trim : ℕ → Dict Bytes → Dict Bytes
trim capacity [] = []
trim capacity (e ∷ pages) =
    let rest = trim capacity pages in if ltb capacity (length (e ∷ pages)) then rest else e ∷ pages

module _ {Net : Type 0} where
  abbrev pub change : (RemoteCache → RemoteCache) → Exec (Holder Net) (Unit {0})
  change f = modify (λ s. record s { cache = f s.cache })

  abbrev pub over : {A : Type 0} → Exec Net A → Exec (Holder Net) A
  over f s = let (r, net) = f s.net in (r, record s { net = net })

  -- `self.pages[page_no]`
  abbrev pub page_at : ℕ → Exec (Holder Net) Bytes
  page_at page_no s = or_raise (lookup page_no s.cache.pages) key_error s

module _ {Net : Type 0} (host : Host Net) where
  -- `request`
  unfoldable pub request : ℕ → ℕ → ℕ → ℕ → Bytes → Exec Net Bytes
  request sock op offset size payload = do
    header ← lift (pack_header op offset size)
    host.sendall sock header
    if length payload == 0 then pure tt else host.sendall sock payload
    answer ← recv_all host sock header_size
    h ← lift (unpack_header answer)
    raise_if (not (bytes_eq h.signature magic)) value_error
    if h.size == 0 then pure [] else recv_all host sock h.size

  -- `RemoteCache(host, remote_mb, cache_mb)`
  unfoldable pub open_cache : ℕ → ℕ → Exec Net RemoteCache
  unfolding request
  open_cache remote_mb cache_mb = do
    sock ← host.connect
    body ← request sock Op.borrow 0 (remote_mb * 1024 * 1024) []
    fields ← lift (unpack_lease_reply body)
    let (lease_id, base, remote_size) = fields
    pure (record {
      sock = sock;
      lease_id = lease_id;
      base = base;
      remote_size = remote_size;
      capacity = max 1 (cache_mb * 1024 * 1024 / page);
      pages = [];
      hits = 0;
      misses = 0;
    })

  -- The loop of `remote_read`, with `left` bytes to come.
  unfoldable pub read_blocks : ℕ → RemoteCache → ℕ → ℕ → Bytes → Exec Net Bytes
  unfolding request
  read_blocks zero c offset left out net = (if left == 0 then ok out else stuck, net)
  read_blocks (suc fuel) c offset left out net = elim (left == 0) [
    | true ↦ (ok out, net)
    | false ↦
        (do
          let n = min max_block left
          body ← request c.sock Op.read (c.base + offset) n []
          read_blocks fuel c (offset + n) (left - n) (out ++ body))
          net
  ]

  unfoldable pub remote_read : RemoteCache → ℕ → ℕ → Exec Net Bytes
  unfolding read_blocks
  remote_read c offset size = read_blocks size c offset size []

  -- The loop of `remote_write`, with `pos` as far as it has come.
  unfoldable pub write_blocks : ℕ → RemoteCache → ℕ → Bytes → ℕ → Exec Net (Unit {0})
  unfolding request
  write_blocks zero c offset bytes pos net = (if leb (length bytes) pos then ok tt else stuck, net)
  write_blocks (suc fuel) c offset bytes pos net = elim (leb (length bytes) pos) [
    | true ↦ (ok tt, net)
    | false ↦
        (do
          let chunk = slice bytes pos (pos + max_block)
          request c.sock Op.write (c.base + offset + pos) (length chunk) chunk
          write_blocks fuel c offset bytes (pos + max_block))
          net
  ]

  unfoldable pub remote_write : RemoteCache → ℕ → Bytes → Exec Net (Unit {0})
  unfolding write_blocks
  remote_write c offset bytes = write_blocks (length bytes) c offset bytes 0

  unfoldable pub load_page : ℕ → Exec (Holder Net) (Unit {0})
  unfolding remote_read trim
  load_page page_no = do
    c ← gets (λ s. s.cache)
    bytes ← over (remote_read c (page_no * page) page)
    change (λ c. record c { pages = insert page_no bytes c.pages })
    change (λ c. record c { pages = move_to_end page_no c.pages })
    change (λ c. record c { pages = trim c.capacity c.pages })

  -- A page that is cached
  unfoldable pub hit_page : ℕ → Exec (Holder Net) Bytes
  hit_page page_no = do
    change (λ c. record c { hits = c.hits + 1 })
    bytes ← page_at page_no
    change (λ c. record c { pages = move_to_end page_no c.pages })
    pure bytes

  -- A page that is not cached
  unfoldable pub miss_page : ℕ → Exec (Holder Net) Bytes
  unfolding load_page
  miss_page page_no = do
    change (λ c. record c { misses = c.misses + 1 })
    load_page page_no
    page_at page_no

  unfoldable pub get_page : ℕ → Exec (Holder Net) Bytes
  unfolding hit_page miss_page
  get_page page_no s =
      (if contains page_no s.cache.pages then hit_page page_no else miss_page page_no) s

  -- The loop of `read`. A round takes a byte at least, so `size` rounds are enough.
  unfoldable pub read_loop : ℕ → ℕ → ℕ → Bytes → Exec (Holder Net) Bytes
  unfolding get_page
  read_loop zero offset size out s = (if size == 0 then ok out else stuck, s)
  read_loop (suc fuel) offset size out s = elim (size == 0) [
    | true ↦ (ok out, s)
    | false ↦
        (do
          let inside = offset % page
          let n = min size (page - inside)
          bytes ← get_page (offset / page)
          read_loop fuel (offset + n) (size - n) (out ++ slice bytes inside (inside + n)))
          s
  ]

  -- `read`; the numbers are not negative
  unfoldable pub read : ℕ → ℕ → Exec (Holder Net) Bytes
  unfolding read_loop
  read offset size = do
    remote_size ← gets (λ s. s.cache.remote_size)
    raise_if (ltb remote_size (offset + size)) value_error
    read_loop size offset size []

  -- The first step of a round of `write`: the page comes into the cache.
  unfoldable pub ensure_page : ℕ → Exec (Holder Net) (Unit {0})
  unfolding load_page
  ensure_page page_no s =
      (if contains page_no s.cache.pages
          then change (λ c. record c { hits = c.hits + 1 })
          else change (λ c. record c { misses = c.misses + 1 }) >> load_page page_no)
        s

  -- The other steps: the page is changed, in the cache first.
  unfoldable pub send_page : ℕ → Bytes → Exec (Holder Net) (Unit {0})
  unfolding remote_write
  send_page page_no new = do
    change (λ c. record c { pages = insert page_no new c.pages })
    c ← gets (λ s. s.cache)
    over (remote_write c (page_no * page) new)
    change (λ c. record c { pages = move_to_end page_no c.pages })

  unfoldable pub write_page : ℕ → ℕ → Bytes → Exec (Holder Net) (Unit {0})
  unfolding ensure_page send_page
  write_page page_no inside bytes = do
    ensure_page page_no
    old ← page_at page_no
    send_page page_no (set_slice old inside (inside + length bytes) bytes)

  -- The loop of `write`, with `pos` as far as it has come.
  unfoldable pub write_loop : ℕ → ℕ → Bytes → ℕ → Exec (Holder Net) (Unit {0})
  unfolding write_page
  write_loop zero offset bytes pos s = (if leb (length bytes) pos then ok tt else stuck, s)
  write_loop (suc fuel) offset bytes pos s = elim (leb (length bytes) pos) [
    | true ↦ (ok tt, s)
    | false ↦
        (do
          let inside = (offset + pos) % page
          let n = min (length bytes - pos) (page - inside)
          write_page ((offset + pos) / page) inside (slice bytes pos (pos + n))
          write_loop fuel offset bytes (pos + n))
          s
  ]

  -- `write`; the offset is not negative
  unfoldable pub write : ℕ → Bytes → Exec (Holder Net) (Unit {0})
  unfolding write_loop
  write offset bytes = do
    remote_size ← gets (λ s. s.cache.remote_size)
    raise_if (ltb remote_size (offset + length bytes)) value_error
    write_loop (length bytes) offset bytes 0

  -- `close`
  unfoldable pub close : RemoteCache → Exec Net (Unit {0})
  unfolding request
  close c = do
    try_except (request c.sock Op.release c.lease_id 0 [] >>= λ _. pure tt) (λ _. pure tt)
    host.close c.sock
