-- ===== src/Server/Transfers.antt =====
-- What READ and WRITE do, on every branch (android/termux/server.py): the buffer is an array of bytes.
use ram_link.Base.{
  subst, ap, ◌∙◌, sym, ℕ, ◌+◌, ◌≤◌, ◌<◌, ◌^◌, ◌≡◌, ◌⊎◌, true, false, ◌++◌, arith, ltb, ◌||◌, not,
  length, take, length-take, slice, slice-set_slice_self, slice-set_slice_apart, Bytes, ok, err,
  value_error,
}
use ram_link.Exec.{bind_result, ◌>>◌}
use ram_link.Wire.{recv_all, max_block, flatten, AreNonempty, be_bytes}
use ram_link.Wire.Op
use ram_link.Wire.Receive.{recv_all-Received}
use ram_link.Wire.RoundTrip.{pack_header_eq}
use ram_link.Wire.Header.{magic}
use ram_link.Server.Leases.{RamLinkServer, store, valid_range}
use ram_link.Connection.{update, receive, sendall, send_header}
use ram_link.Server.Session.{Session}
use ram_link.Server.Handle.{transfer}
use ram_link.Server.Invariant.{IsValid}

-- The header of a reply.
abbrev pub header_bytes : ℕ → ℕ → ℕ → Bytes
header_bytes op offset size = magic ++ (be_bytes 1 op ++ (be_bytes 8 offset ++ be_bytes 4 size))

-- The session with the input read up to `size` bytes, and with more output.
abbrev pub consumed : ℕ → Session → Session
consumed size s = record s {
  conn = record { input = (recv_all size s.conn.input).1; output = s.conn.output };
}

abbrev pub sent : Bytes → Session → Session
sent bytes s = record s { conn = record { input = s.conn.input; output = s.conn.output ++ bytes } }

pub receive_ok :
    (size : ℕ) (s : Session)
    → AreNonempty s.conn.input
    → size ≤ length (flatten s.conn.input)
    → receive size s ≡ (ok (take size (flatten s.conn.input)), consumed size s)
unfolding receive
receive_ok size s ne enough =
    let r = recv_all-Received size s.conn.input ne enough in ap (λ x. (x, consumed size s)) r.result

pub send_header_ok :
    (op offset size : ℕ) (s : Session)
    → op < 256 ^ 1
    → offset < 256 ^ 8
    → size < 256 ^ 4
    → send_header op offset size s ≡ (ok tt, sent (header_bytes op offset size) s)
unfolding send_header
send_header_ok op offset size s p q r =
    ap (λ x. bind_result (x, s) sendall) (pack_header_eq op offset size p q r)

range_refused :
    (offset size : ℕ) (s : RamLinkServer)
    → (max_block < size) ⊎ (s.size < offset + size)
    → (ltb max_block size || not (valid_range offset size s)) ≡ true
unfolding valid_range
range_refused offset size s h = ground arith

-- A request that is too long, or whose range leaves the buffer, changes nothing and sends nothing.
pub transfer_refused :
    (op offset size : ℕ) (s : Session)
    → (max_block < size) ⊎ (s.server.size < offset + size)
    → transfer op offset size s ≡ (err value_error, s)
unfolding transfer
transfer_refused op offset size s h = rw (range_refused offset size s.server h)

module _ (offset size : ℕ) (s : Session) (short : size ≤ max_block)
    (fits : offset + size ≤ s.server.size) (word : offset < 256 ^ 8) where
  allowed : (ltb max_block size || not (valid_range offset size s.server)) ≡ false
  unfolding valid_range
  allowed = ground arith

  pub transfer-write :
      AreNonempty s.conn.input
      → size ≤ length (flatten s.conn.input)
      → transfer Op.write offset size s ≡ (
        ok tt,
        sent (header_bytes Op.write offset size) (record (consumed size s) {
          server = store offset size (take size (flatten s.conn.input)) s.server;
        }),
      )
  unfolding transfer
  transfer-write ne enough = rw allowed (
      ap
        (λ x.
          bind_result x
            (λ bytes. (do update (store offset size bytes); send_header Op.write offset size)))
        (receive_ok size s ne enough)
      ∙ send_header_ok Op.write offset size _ (omega arith) word (omega arith))

  pub transfer-read : transfer Op.read offset size s ≡ (
    ok tt,
    sent (slice s.server.memory offset (offset + size)) (sent (header_bytes Op.read offset size) s),
  )
  unfolding transfer sendall
  transfer-read = rw allowed (
      ap (λ x. bind_result x (λ _. sendall (slice s.server.memory offset (offset + size))))
        (send_header_ok Op.read offset size s (omega arith) word (omega arith)))

-- What a READ after a WRITE is answered with: the bytes written if it has the same range, and what
-- the buffer held before if the ranges do not meet.
read-write :
    (offset size o n : ℕ) (bytes : Bytes) (s : Session)
    → size ≤ max_block
    → offset + size ≤ s.server.size
    → offset < 256 ^ 8
    → n ≤ max_block
    → o + n ≤ s.server.size
    → o < 256 ^ 8
    → AreNonempty s.conn.input
    → size ≤ length (flatten s.conn.input)
    → slice (store offset size (take size (flatten s.conn.input)) s.server).memory o (o + n) ≡ bytes
    → let s' = (transfer Op.write offset size s).1 in
      transfer Op.read o n s' ≡ (ok tt, sent bytes (sent (header_bytes Op.read o n) s'))
unfolding store
read-write offset size o n bytes s short fits word short' fits' word' ne enough e =
    let after : Session = sent (header_bytes Op.write offset size) (record (consumed size s) {
      server = store offset size (take size (flatten s.conn.input)) s.server;
    }) in
    subst (λ t. transfer Op.read o n t ≡ (ok tt, sent bytes (sent (header_bytes Op.read o n) t)))
      (sym (ap (λ r. r.1) (transfer-write offset size s short fits word ne enough)))
      (transfer-read o n after short' fits' word'
        ∙ ap (λ b. (ok tt, sent b (sent (header_bytes Op.read o n) after))) e)

-- After a WRITE that the server accepts, a READ of the same range is answered with the bytes written.
pub read_after_write :
    (offset size : ℕ) (s : Session)
    → IsValid s.server
    → size ≤ max_block
    → offset + size ≤ s.server.size
    → offset < 256 ^ 8
    → AreNonempty s.conn.input
    → size ≤ length (flatten s.conn.input)
    → let s' = (transfer Op.write offset size s).1 in
      transfer Op.read offset size s' ≡ (
        ok tt,
        sent (take size (flatten s.conn.input)) (sent (header_bytes Op.read offset size) s'),
      )
unfolding store
read_after_write offset size s valid short fits word ne enough =
    let n : length (take size (flatten s.conn.input)) ≡ size =
      omega (arith, length-take size (flatten s.conn.input)) in
    read-write offset size offset size _ s short fits word short fits word ne enough (
      slice-set_slice_self s.server.memory offset (offset + size) _ (omega arith)
        (omega (arith, valid.buffer)))

-- After a WRITE that the server accepts, whose bytes have been sent, a READ of a range that is valid and does not meet the
-- written one is answered with what the buffer held before.
pub read_apart_from_write :
    (offset size o n : ℕ) (s : Session)
    → IsValid s.server
    → size ≤ max_block
    → offset + size ≤ s.server.size
    → offset < 256 ^ 8
    → n ≤ max_block
    → o + n ≤ s.server.size
    → o < 256 ^ 8
    → AreNonempty s.conn.input
    → size ≤ length (flatten s.conn.input)
    → (o + n ≤ offset) ⊎ (offset + size ≤ o)
    → let s' = (transfer Op.write offset size s).1 in
      transfer Op.read o n s'
      ≡ (ok tt, sent (slice s.server.memory o (o + n)) (sent (header_bytes Op.read o n) s'))
unfolding store
read_apart_from_write offset size o n s valid short fits word short' fits' word' ne enough apart =
    let m : length (take size (flatten s.conn.input)) ≡ size =
      omega (arith, length-take size (flatten s.conn.input)) in
    read-write offset size o n _ s short fits word short' fits' word' ne enough (
      slice-set_slice_apart s.server.memory offset (offset + size) o (o + n) _ (omega arith)
        (omega (arith, valid.buffer)) apart)
