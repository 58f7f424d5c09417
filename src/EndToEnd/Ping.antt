-- ===== src/EndToEnd/Ping.antt =====
-- `ping_host` of clients/windows/ramlink_client.py over the link to the phone's server.
use mathlib.Core.List.{append-nil}
use ram_link.Base.{
  ℕ, ◌+◌, ◌≡◌, refl, ◌∙◌, sym, [], ◌++◌, true, false, arith, some, codes, Bytes, ok, bytes_eq,
}
use ram_link.Wire.{Chunks, flatten, AreNonempty}
use ram_link.Wire.Op
use ram_link.Wire.Header.{Header, header_size, magic, pack_header, unpack_header}
use ram_link.Wire.RoundTrip.{pack_header_eq}
use ram_link.Server.Handle.{Clock}
use ram_link.Server.Transfers.{header_bytes}
use ram_link.Client.Host.{Host, recv_all}
use ram_link.Client.Desktop.{ping_host}
use ram_link.EndToEnd.Serve.{length-header_bytes, unpack_bytes, serve_ping}
use ram_link.EndToEnd.Link.{Link, link_host}
use ram_link.EndToEnd.Exchange.{came_header, came_body, answer_ok}

-- A connection on which the server at its end answers PONG.
ping_host-ok :
    {Net A : Type 0} (host : Host Net) (address : A) (sock : ℕ) (request header : Bytes)
    (h : Header) (net net1 net2 net3 net4 net5 : Net)
    → host.connect net ≡ (ok sock, net1)
    → pack_header Op.ping 0 0 ≡ ok request
    → host.sendall sock request net1 ≡ (ok tt, net2)
    → recv_all host sock header_size net2 ≡ (ok header, net3)
    → unpack_header header ≡ ok h
    → bytes_eq h.signature magic ≡ true
    → h.op ≡ Op.ping
    → h.size ≡ 4
    → recv_all host sock 4 net3 ≡ (ok (codes "PONG"), net4)
    → host.close sock net4 ≡ (ok tt, net5)
    → ping_host host address net ≡ (ok (some address), net5)
unfolding ping_host bytes_eq
ping_host-ok host address sock request header h net net1 net2 net3 net4 net5 connected packed sent
      came parsed signed is_ping sized pong shut =
    ground (arith, connected, packed, sent, came, parsed, signed, is_ping, sized, pong, shut)

module _ (cut : Bytes → Chunks) (clock : ℕ → Clock) (joins : (b : Bytes) → flatten (cut b) ≡ b)
    (pieces : (b : Bytes) → AreNonempty (cut b)) where
  -- `ping_host` finds the phone whose server runs at the address, closes its connection, and changes nothing at the server.
  pub ping_host-found :
      {A : Type 0} (address : A) (l : Link)
      → ping_host (link_host cut clock) address l ≡ (
        ok (some address),
        record {
          server = l.server;
          inbox = [];
          outbox = [];
          is_open = false;
          rounds = l.rounds + 1;
        },
      )
  unfolding link_host bytes_eq
  ping_host-found address l =
      let asked : Link = record l {
        inbox = header_bytes Op.ping 0 0;
        outbox = [];
        is_open = true;
      } in
      let header = header_bytes Op.ping 0 4 in
      let l' : Link = record {
        server = l.server;
        inbox = [];
        outbox = header ++ codes "PONG";
        is_open = true;
        rounds = l.rounds + 1;
      } in
      let (s', carried, same, taken, out) =
        serve_ping (clock l.rounds)
          (record { server = l.server; conn = record { input = cut asked.inbox; output = [] } })
          (pieces asked.inbox) (joins asked.inbox ∙ sym (append-nil asked.inbox)) refl in
      ping_host-ok (link_host cut clock) address 0 (header_bytes Op.ping 0 0) header
        (record { signature = magic; op = Op.ping; offset = 0; size = 4 }) l
        (record l { inbox = []; outbox = []; is_open = true }) asked
        (record l' { outbox = codes "PONG" }) (record l' { outbox = [] })
        (record l' { outbox = []; is_open = false }) refl
        (pack_header_eq Op.ping 0 0 (omega arith) (omega arith) (omega arith)) refl
        (came_header cut clock joins pieces asked l' header (codes "PONG") refl (omega arith)
          (length-header_bytes Op.ping 0 4)
          (answer_ok cut clock joins pieces asked l.server (header ++ codes "PONG") s' carried same
            taken out)
          refl)
        (unpack_bytes Op.ping 0 4 (omega arith) (omega arith) (omega arith)) refl refl refl
        (came_body cut clock joins pieces (codes "PONG") l' (omega arith)) refl
