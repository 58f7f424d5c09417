-- ===== src/EndToEnd/Region.antt =====
-- `RemoteMemory.read` over the link to the phone's server.
use ram_link.Base.{
  ℕ, ◌+◌, ◌^◌, ◌≤◌, ◌<◌, ◌≡◌, refl, ◌∙◌, ap, sym, [], ◌++◌, true, arith, length, length-slice,
  slice, slice-slice, some, Bytes, ok,
}
use ram_link.Wire.{Chunks, flatten, AreNonempty, max_block}
use ram_link.Wire.Op
use ram_link.Server.Leases.{RamLinkServer}
use ram_link.Server.Handle.{Clock}
use ram_link.Server.Transfers.{header_bytes}
use ram_link.Client.Request.{rml_request}
use ram_link.Client.Desktop as Desktop
use ram_link.Service.Memory.{Service, read}
use ram_link.Service.Region.{IsServed, read-Served}
use ram_link.EndToEnd.Serve.{serve_read}
use ram_link.EndToEnd.Link.{Link, link_host}
use ram_link.EndToEnd.Exchange.{IsIdle, answer_ok, asked, exchanged}

module _ (cut : Bytes → Chunks) (clock : ℕ → Clock) (joins : (b : Bytes) → flatten (cut b) ≡ b)
    (pieces : (b : Bytes) → AreNonempty (cut b)) where
  -- A READ in range is answered with the bytes of the buffer, which it leaves as they are.
  pub link_read :
      (l : Link) (offset size : ℕ)
      → IsIdle l
      → size ≤ max_block
      → offset + size ≤ l.server.size
      → l.server.size ≤ length l.server.memory
      → offset < 256 ^ 8
      → (rml_request (link_host cut clock) 0 Op.read offset size [] l ≡ (
        ok (record {
          op = Op.read;
          offset = offset;
          body = slice l.server.memory offset (offset + size);
        }),
        record {
          server = l.server;
          inbox = [];
          outbox = [];
          is_open = true;
          rounds = l.rounds + 1;
        },
      ))
        × (Desktop.request (link_host cut clock) 0 Op.read offset size [] l ≡ (
          ok (record {
            op = Op.read;
            offset = offset;
            body = slice l.server.memory offset (offset + size);
          }),
          record {
            server = l.server;
            inbox = [];
            outbox = [];
            is_open = true;
            rounds = l.rounds + 1;
          },
        ))
  link_read l offset size idle short fits whole word =
      let bytes = slice l.server.memory offset (offset + size) in
      let l1 =
        asked cut clock joins pieces l idle Op.read offset size [] (omega arith) word short in
      let (s', carried, same, taken, out) =
        serve_read (clock l.rounds) offset size
          (record { server = l.server; conn = record { input = cut l1.inbox; output = [] } })
          (pieces l1.inbox) (joins l1.inbox) refl short fits word in
      exchanged cut clock joins pieces l idle Op.read offset size [] (omega arith) word short bytes
        l.server (omega (arith, length-slice l.server.memory offset (offset + size))) refl
        (answer_ok cut clock joins pieces l1 l.server (header_bytes Op.read offset size ++ bytes) s'
          carried same taken out)

  -- Reading a region of a server that nobody else changes.
  pub server-IsServed :
      (server : RamLinkServer) (low size : ℕ)
      → low + size ≤ server.size
      → server.size ≤ length server.memory
      → server.size < 256 ^ 8
      → IsServed
          (link_host cut clock)
          0
          low
          size
          (λ l. IsIdle l × (l.server ≡ server))
          (λ _. slice server.memory low (low + size))
  server-IsServed server low size fits whole word = record {
    sized = λ l p. omega (arith, length-slice server.memory low (low + size));
    reads = λ offset n l p short inside.
        let bytes = slice l.server.memory (low + offset) (low + offset + n) in
        let room : l.server.size ≡ server.size = ap (λ (t : RamLinkServer). t.size) p.1 in
        let buffer : l.server.memory ≡ server.memory = ap (λ (t : RamLinkServer). t.memory) p.1 in
        let end_ : low + offset + n ≡ low + (offset + n) = omega arith in
        (
          record { op = Op.read; offset = low + offset; body = bytes },
          record {
            server = l.server;
            inbox = [];
            outbox = [];
            is_open = true;
            rounds = l.rounds + 1;
          },
          (link_read l (low + offset) n p.0 short (omega (arith, room))
              (omega (arith, room, ap (length {A = ℕ}) buffer)) (omega arith)).0,
          rw (buffer, end_) (sym (slice-slice server.memory low size offset (offset + n) inside)),
          (record { up = refl; heard = refl; told = refl }, p.1),
          refl,
        );
  }

  -- `read` of any range inside the borrowed region, over a connection to the phone's server on which nothing waits,
  -- returns the bytes of the server's buffer at the region's place and changes nothing at the server, if the region
  -- lies in the buffer.
  pub region_read :
      (s : Service Link) (offset n : ℕ)
      → s.memory.sock ≡ some 0
      → IsIdle s.net
      → s.memory.base_offset + s.memory.length ≤ s.net.server.size
      → s.net.server.size ≤ length s.net.server.memory
      → s.net.server.size < 256 ^ 8
      → offset + n ≤ s.memory.length
      → (net : Link) × (read (link_host cut clock) offset n s ≡ (
        ok (
            slice s.net.server.memory
              (s.memory.base_offset + offset)
              (s.memory.base_offset + (offset + n))),
        record s { net = net },
      ))
        × IsIdle net
        × (net.server ≡ s.net.server)
  region_read s offset n connected idle lies whole word inside =
      let low = s.memory.base_offset in
      let size = s.memory.length in
      let (net, returns, p, _) =
        read-Served (link_host cut clock) 0 low size _ _
          (server-IsServed s.net.server low size lies whole word) s offset n connected refl refl
          (idle, refl) inside in
      (
        net,
        returns
            ∙ ap (λ (b : Bytes). (ok b, record s { net = net }))
                (slice-slice s.net.server.memory low size offset (offset + n) inside),
        p.0,
        p.1,
      )
