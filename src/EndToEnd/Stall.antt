-- ===== src/EndToEnd/Stall.antt =====
-- A WRITE over the link to the phone's server.
use mathlib.Core.List.{append-nil}
use ram_link.Base.{
  ℕ, ◌+◌, ◌^◌, ◌≤◌, ◌<◌, ◌≡◌, refl, sym, [], true, arith, length, bytes_eq, Bytes, err, os_error,
}
use ram_link.Wire.{Chunks, flatten, AreNonempty, max_block}
use ram_link.Wire.Op
use ram_link.Wire.Header.{magic}
use ram_link.Wire.RoundTrip.{pack_header_eq}
use ram_link.Server.Leases.{store}
use ram_link.Server.Handle.{Clock}
use ram_link.Server.Transfers.{header_bytes}
use ram_link.Client.Host.{recv_all}
use ram_link.Client.Request.{rml_request}
use ram_link.Client.Laws.{recv_all-broken, rml_request-no_body}
use ram_link.EndToEnd.Serve.{length-header_bytes, unpack_bytes, serve_write}
use ram_link.EndToEnd.Link.{Link, receive, link_host}
use ram_link.EndToEnd.Exchange.{IsIdle, came_header, answer_ok, sent_payload, asked}

module _ (cut : Bytes → Chunks) (clock : ℕ → Clock) (joins : (b : Bytes) → flatten (cut b) ≡ b)
    (pieces : (b : Bytes) → AreNonempty (cut b)) where
  -- A read with nothing to come ends with the time out of the socket.
  times_out :
      (n : ℕ) (l : Link)
      → 0 < n
      → IsIdle l
      → recv_all (link_host cut clock) 0 n l ≡ (err os_error, l)
  unfolding link_host receive
  times_out n l some_bytes idle =
      recv_all-broken (link_host cut clock) 0 n os_error l l some_bytes
        (ground (arith, idle.up, idle.heard, idle.told))

  -- A WRITE of one byte or more over an idle connection, in range, is stored, and yet the client's request ends with the time out of its
  -- socket: the reply's header announces a body that the server does not send.
  pub write_stalls :
      (l : Link) (offset : ℕ) (bytes : Bytes)
      → IsIdle l
      → 0 < length bytes
      → length bytes ≤ max_block
      → offset + length bytes ≤ l.server.size
      → offset < 256 ^ 8
      → rml_request (link_host cut clock) 0 Op.write offset (length bytes) bytes l ≡ (
        err os_error,
        record {
          server = store offset (length bytes) bytes l.server;
          inbox = [];
          outbox = [];
          is_open = true;
          rounds = l.rounds + 1;
        },
      )
  unfolding link_host bytes_eq
  write_stalls l offset bytes idle some_bytes short fits word =
      let l1 =
        asked cut clock joins pieces l idle Op.write offset (length bytes) bytes (omega arith) word
          short in
      let (s', carried, same, taken, out) =
        serve_write (clock l.rounds) offset bytes
          (record { server = l.server; conn = record { input = cut l1.inbox; output = [] } })
          (pieces l1.inbox) (joins l1.inbox) refl short fits word in
      let stored = store offset (length bytes) bytes l.server in
      let header = header_bytes Op.write offset (length bytes) in
      let l2 : Link = record {
        server = stored;
        inbox = [];
        outbox = header;
        is_open = true;
        rounds = l.rounds + 1;
      } in
      let l3 : Link = record l2 { outbox = [] } in
      rml_request-no_body (link_host cut clock) 0 Op.write offset (length bytes) bytes header header
        (record { signature = magic; op = Op.write; offset = offset; size = length bytes }) os_error
        l (record l { inbox = header }) l1 l3 l3
        (pack_header_eq Op.write offset (length bytes) (omega arith) word (omega arith))
        (rw (idle.up, idle.heard) refl) (sent_payload cut clock joins pieces bytes l header idle.up)
        (came_header cut clock joins pieces l1 l2 header [] idle.told (omega arith)
          (length-header_bytes Op.write offset (length bytes))
          (answer_ok cut clock joins pieces l1 stored header s' carried same taken out)
          (sym (append-nil header)))
        (unpack_bytes Op.write offset (length bytes) (omega arith) word (omega arith)) refl
        some_bytes
        (times_out (length bytes) l3 some_bytes (record { up = refl; heard = refl; told = refl }))
