-- ===== src/Client/Desktop.antt =====
-- `request` of the desktop client (clients/windows/ramlink_client.py).
use ram_link.Base.{
  ℕ, false, true, ok, err, stuck, Option, none, some, Bool, Error, os_error, connection_error,
  runtime_error, memory_error, struct_error, key_error, attribute_error, ◌||◌, codes, not, ◌&&◌,
  ◌==◌, ◌≡◌, ◌≢◌, refl, arith, if◌then◌else◌, [], length, bytes_eq, Bytes, value_error,
}
use ram_link.Exec.{Exec, ◌>>=◌, ◌>>◌, pure, raise_if, lift, raise, try_except, try_finally}
use ram_link.Wire.Op
use ram_link.Client.Laws.{rml_request-ok}
use ram_link.Wire.Header.{Header, pack_header, unpack_header, header_size, magic}
use ram_link.Client.Host.{Host, recv_all}
use ram_link.Client.Request.{Reply, body_of, reply_from, rml_request}

-- What `ping_host` catches: OSError, of which ConnectionError is a kind, and ValueError.
abbrev pub caught : Error → Bool
caught os_error = true
caught connection_error = true
caught value_error = true
caught runtime_error = false
caught memory_error = false
caught struct_error = false
caught key_error = false
caught attribute_error = false

module _ {Net A : Type 0} (host : Host Net) (address : A) where
  -- `ping_host`, once the socket is connected; `host` leads to the address
  unfoldable pub probe : ℕ → Exec Net (Option A)
  probe sock = do
    request ← lift (pack_header Op.ping 0 0)
    host.sendall sock request
    header ← recv_all host sock header_size
    h ← lift (unpack_header header)
    if not (bytes_eq h.signature magic) || (not (h.op == Op.ping) || not (h.size == 4))
        then pure none
        else (do
          body ← recv_all host sock h.size
          pure (if bytes_eq body (codes "PONG") then some address else none))

  -- The handler of the exceptions
  unfoldable pub give_up : Error → Exec Net (Option A)
  give_up e = if caught e then pure none else raise e

  unfoldable pub ping_host : Exec Net (Option A)
  unfolding probe give_up
  ping_host net =
      let (r, net') = host.connect net in
      elim r [
        | ok sock ↦ try_finally (try_except (probe sock) give_up) (host.close sock) net'
        | err e ↦ give_up e net'
        | stuck ↦ (stuck, net')
      ]

module _ {Net : Type 0} (host : Host Net) where
  unfoldable pub request : ℕ → ℕ → ℕ → ℕ → Bytes → Exec Net Reply
  request sock op offset size payload = do
    raise_if (op == Op.write && not (size == length payload)) value_error
    header ← lift (pack_header op offset size)
    host.sendall sock header
    if length payload == 0 then pure tt else host.sendall sock payload
    answer ← recv_all host sock header_size
    h ← lift (unpack_header answer)
    raise_if (not (bytes_eq h.signature magic)) value_error
    raise_if (op == Op.read && not (h.size == size)) value_error
    body ← if h.size == 0 then pure [] else recv_all host sock h.size
    pure (record { op = h.op; offset = h.offset; body = body })

  -- A request other than READ, which for a WRITE has the length of its payload, is the request of the local service.
  pub request-rml_request :
      (sock op offset size : ℕ) (payload : Bytes) (net : Net)
      → op ≢ Op.read
      → (op == Op.write && not (size == length payload)) ≡ false
      → request sock op offset size payload net ≡ rml_request host sock op offset size payload net
  unfolding request rml_request reply_from body_of
  request-rml_request sock op offset size payload net other fits =
      let no_read : (op == Op.read) ≡ false = ground arith in rw (fits, no_read) refl

  -- A request whose reply has the length that was asked for and is read in full: the desktop client returns what the local
  -- service returns.
  pub requests-ok :
      (sock op offset size : ℕ) (payload header answer : Bytes) (h : Header) (body : Bytes)
      (net net1 net2 net3 net4 : Net)
      → (op == Op.write && not (size == length payload)) ≡ false
      → h.size ≡ size
      → pack_header op offset size ≡ ok header
      → host.sendall sock header net ≡ (ok tt, net1)
      → (if length payload == 0 then pure tt else host.sendall sock payload) net1 ≡ (ok tt, net2)
      → recv_all host sock header_size net2 ≡ (ok answer, net3)
      → unpack_header answer ≡ ok h
      → bytes_eq h.signature magic ≡ true
      → (if h.size == 0 then pure [] else recv_all host sock h.size) net3 ≡ (ok body, net4)
      → (rml_request host sock op offset size payload net
          ≡ (ok (record { op = h.op; offset = h.offset; body = body }), net4))
        × (request sock op offset size payload net
            ≡ (ok (record { op = h.op; offset = h.offset; body = body }), net4))
  unfolding request
  requests-ok sock op offset size payload header answer h body net net1 net2 net3 net4 fits same
        packed sent paid came parsed signed rest =
      let right : (op == Op.read && not (h.size == size)) ≡ false = ground (arith, same) in
      (
        rml_request-ok host sock op offset size payload header answer h body net net1 net2 net3 net4
            packed sent paid came parsed signed rest,
        ground (arith, fits, right, packed, sent, paid, came, parsed, signed, rest),
      )
