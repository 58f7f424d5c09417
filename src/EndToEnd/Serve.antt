-- ===== src/EndToEnd/Serve.antt =====
-- One request at the phone's server, when all of it has come.
use ram_link.Connection.{sendall}
use ram_link.Base.{
  codes, ℕ, ◌+◌, ◌≤◌, ◌<◌, ◌^◌, ◌≡◌, refl, ◌∙◌, ap, [], ◌++◌, arith, length, take, drop, take_whole,
  drop_whole, drop_all, take_of_length-le, not, value_error, length-append, slice, bytes_eq, Bytes,
  Result, ok,
}
use ram_link.Exec.{bind_result, ◌>>◌, raise_if}
use ram_link.Wire.{max_block, flatten, AreNonempty, be_bytes}
use ram_link.Wire.{length-be_bytes}
use ram_link.Wire.Op
use ram_link.Wire.Header.{magic, header_size, Header, unpack_header}
use ram_link.Wire.Receive.{recv_all-Received}
use ram_link.Wire.RoundTrip.{pack_header_eq, unpack_header-pack_header}
use ram_link.Server.Leases.{store}
use ram_link.Server.Session.{Session}
use ram_link.Server.Handle.{Clock, request, dispatch, handle, ping}
use ram_link.Server.Transfers.{
  header_bytes, consumed, sent, receive_ok, send_header_ok, transfer-read, transfer-write,
}

pub length-header_bytes : (op offset size : ℕ) → length (header_bytes op offset size) ≡ 17
length-header_bytes op offset size = omega (
  arith,
  length-append (be_bytes 1 op) (be_bytes 8 offset ++ be_bytes 4 size),
  length-append (be_bytes 8 offset) (be_bytes 4 size),
  length-be_bytes 1 op,
  length-be_bytes 8 offset,
  length-be_bytes 4 size,
)

pub unpack_bytes :
    (op offset size : ℕ)
    → op < 256 ^ 1
    → offset < 256 ^ 8
    → size < 256 ^ 4
    → unpack_header (header_bytes op offset size)
      ≡ ok (record { signature = magic; op = op; offset = offset; size = size })
unpack_bytes op offset size p q r =
    unpack_header-pack_header op offset size (pack_header_eq op offset size p q r)

module _ (clock : Clock) (op offset size : ℕ) (payload : Bytes) (s : Session)
    (ne : AreNonempty s.conn.input)
    (input : flatten s.conn.input ≡ header_bytes op offset size ++ payload) (p : op < 256 ^ 1)
    (q : offset < 256 ^ 8) (r : size < 256 ^ 4) where
  -- The state once the header was read.
  pub received : Session
  received = consumed header_size s

  enough : header_size ≤ length (flatten s.conn.input)
  enough = omega (
    arith,
    ap (length {A = ℕ}) input,
    length-append (header_bytes op offset size) payload,
    length-header_bytes op offset size,
  )

  pub received-input : flatten received.conn.input ≡ payload
  unfolding received
  received-input =
      let got = recv_all-Received header_size s.conn.input ne enough in
      got.rest
      ∙ ap (drop header_size) input
      ∙ drop_whole header_size (header_bytes op offset size) payload
          (length-header_bytes op offset size)

  -- A request is handled as its header says.
  pub request_handles : request clock s ≡ handle clock op offset size received
  unfolding request dispatch received bytes_eq
  request_handles =
      ap (λ (x : Result Bytes × Session). bind_result x (dispatch clock))
        (receive_ok header_size s ne enough)
      ∙ ap (λ (h : Bytes). dispatch clock h received)
          (ap (take header_size) input
            ∙ take_whole header_size (header_bytes op offset size) payload
                (length-header_bytes op offset size))
      ∙ ap
          (λ (x : Result Header).
            bind_result (x, received)
              (λ h. (do
                raise_if (not (bytes_eq h.signature magic)) value_error
                handle clock h.op h.offset h.size)))
          (unpack_bytes op offset size p q r)

-- A READ that is in range, when the buffer of the reply is empty.
pub serve_read :
    (clock : Clock) (offset size : ℕ) (s : Session)
    → AreNonempty s.conn.input
    → flatten s.conn.input ≡ header_bytes Op.read offset size ++ []
    → s.conn.output ≡ []
    → size ≤ max_block
    → offset + size ≤ s.server.size
    → offset < 256 ^ 8
    → (s' : Session) × (request clock s ≡ (ok tt, s'))
      × (s'.server ≡ s.server)
      × (flatten s'.conn.input ≡ [])
      × (s'.conn.output
          ≡ header_bytes Op.read offset size ++ slice s.server.memory offset (offset + size))
unfolding handle received
serve_read clock offset size s ne input silent short fits word =
    let s1 = received clock Op.read offset size [] s ne input (omega arith) word (omega arith) in
    let bytes = slice s.server.memory offset (offset + size) in
    (
      sent bytes (sent (header_bytes Op.read offset size) s1),
      request_handles clock Op.read offset size [] s ne input (omega arith) word (omega arith)
          ∙ transfer-read offset size s1 short fits word,
      refl,
      received-input clock Op.read offset size [] s ne input (omega arith) word (omega arith),
      ap (λ (b : Bytes). (b ++ header_bytes Op.read offset size) ++ bytes) silent,
    )

-- A WRITE that is in range.
pub serve_write :
    (clock : Clock) (offset : ℕ) (bytes : Bytes) (s : Session)
    → AreNonempty s.conn.input
    → flatten s.conn.input ≡ header_bytes Op.write offset (length bytes) ++ bytes
    → s.conn.output ≡ []
    → length bytes ≤ max_block
    → offset + length bytes ≤ s.server.size
    → offset < 256 ^ 8
    → (s' : Session) × (request clock s ≡ (ok tt, s'))
      × (s'.server ≡ store offset (length bytes) bytes s.server)
      × (flatten s'.conn.input ≡ [])
      × (s'.conn.output ≡ header_bytes Op.write offset (length bytes))
unfolding handle received
serve_write clock offset bytes s ne input silent short fits word =
    let size = length bytes in
    let s1 =
      received clock Op.write offset size bytes s ne input (omega arith) word (omega arith) in
    let left : flatten s1.conn.input ≡ bytes =
      received-input clock Op.write offset size bytes s ne input (omega arith) word (omega arith) in
    let first =
      recv_all-Received header_size s.conn.input ne
        (enough clock Op.write offset size bytes s ne input (omega arith) word (omega arith)) in
    let much : size ≤ length (flatten s1.conn.input) = omega (arith, ap (length {A = ℕ}) left) in
    let second = recv_all-Received size s1.conn.input first.nonempty much in
    let taken : take size (flatten s1.conn.input) ≡ bytes =
      ap (take size) left ∙ take_of_length-le size bytes (omega arith) in
    (
      sent (header_bytes Op.write offset size) (record (consumed size s1) {
        server = store offset size (take size (flatten s1.conn.input)) s1.server;
      }),
      request_handles clock Op.write offset size bytes s ne input (omega arith) word (omega arith)
          ∙ transfer-write offset size s1 short fits word first.nonempty much,
      ap (λ (b : Bytes). store offset size b s.server) taken,
      second.rest ∙ ap (drop size) left ∙ drop_all bytes,
      ap (λ (b : Bytes). b ++ header_bytes Op.write offset size) silent,
    )

-- A PING.
pub serve_ping :
    (clock : Clock) (s : Session)
    → AreNonempty s.conn.input
    → flatten s.conn.input ≡ header_bytes Op.ping 0 0 ++ []
    → s.conn.output ≡ []
    → (s' : Session) × (request clock s ≡ (ok tt, s'))
      × (s'.server ≡ s.server)
      × (flatten s'.conn.input ≡ [])
      × (s'.conn.output ≡ header_bytes Op.ping 0 4 ++ codes "PONG")
unfolding handle received ping sendall
serve_ping clock s ne input silent =
    let s1 = received clock Op.ping 0 0 [] s ne input (omega arith) (omega arith) (omega arith) in
    (
      sent (codes "PONG") (sent (header_bytes Op.ping 0 4) s1),
      request_handles clock Op.ping 0 0 [] s ne input (omega arith) (omega arith) (omega arith)
          ∙ ap (λ (x : Result (Unit {0}) × Session). bind_result x (λ _. sendall (codes "PONG")))
              (send_header_ok Op.ping 0 4 s1 (omega arith) (omega arith) (omega arith)),
      refl,
      received-input clock Op.ping 0 0 [] s ne input (omega arith) (omega arith) (omega arith),
      ap (λ (b : Bytes). (b ++ header_bytes Op.ping 0 4) ++ codes "PONG") silent,
    )
