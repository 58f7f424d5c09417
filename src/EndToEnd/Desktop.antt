-- ===== src/EndToEnd/Desktop.antt =====
-- The transfers of the menu of clients/windows/ramlink_client.py over the link to the phone's server.
use ram_link.Base.{
  subst, ℕ, ◌+◌, ◌*◌, ◌^◌, ◌≤◌, ◌<◌, ◌≡◌, refl, ap, sym, [], true, arith, length, length-slice,
  slice, slice-slice, Bytes, ok,
}
use ram_link.Wire.{Chunks, flatten, AreNonempty, max_block}
use ram_link.Wire.Op
use ram_link.Server.Leases.{RamLinkServer, store}
use ram_link.Server.Handle.{Clock}
use ram_link.Client.Desktop as Desktop
use ram_link.Client.Transfers.{pattern, read_blocks}
use ram_link.Client.Transfers.Laws.{read_blocks-whole}
use ram_link.EndToEnd.Link.{Link, link_host}
use ram_link.EndToEnd.Exchange.{IsIdle}
use ram_link.EndToEnd.Region.{link_read}

module _ (cut : Bytes → Chunks) (clock : ℕ → Clock) (joins : (b : Bytes) → flatten (cut b) ≡ b)
    (pieces : (b : Bytes) → AreNonempty (cut b)) where
  -- The loop of READ over an idle connection to the phone's server returns the first bytes of the server's buffer, as many
  -- as are asked for, if the buffer has them, and changes nothing at the server.
  pub phone_read :
      (l : Link) (size : ℕ)
      → IsIdle l
      → size ≤ l.server.size
      → l.server.size ≤ length l.server.memory
      → l.server.size < 256 ^ 8
      → (l' : Link) × (read_blocks (Desktop.request (link_host cut clock) 0) size 0 size [] 0 l
          ≡ (ok (slice l.server.memory 0 size), l'))
        × (IsIdle l' × (l'.server ≡ l.server))
  phone_read l size idle fits whole word =
      let m = slice l.server.memory 0 size in
      let sized : length m ≡ size = omega (arith, length-slice l.server.memory 0 size) in
      read_blocks-whole (Desktop.request (link_host cut clock) 0) 0 m
        (λ k. IsIdle k × (k.server ≡ l.server))
        (λ offset n k p short inside.
          let room : k.server.size ≡ l.server.size = ap (λ (t : RamLinkServer). t.size) p.1 in
          let buffer : k.server.memory ≡ l.server.memory =
            ap (λ (t : RamLinkServer). t.memory) p.1 in
          (
            record {
              op = Op.read;
              offset = 0 + offset;
              body = slice k.server.memory (0 + offset) (0 + offset + n);
            },
            record {
              server = k.server;
              inbox = [];
              outbox = [];
              is_open = true;
              rounds = k.rounds + 1;
            },
            (link_read cut clock joins pieces k (0 + offset) n p.0 short
                (omega (arith, room, sized)) (omega (arith, room, ap (length {A = ℕ}) buffer))
                (omega (arith, sized))).1,
            (let end_ : 0 + offset + n ≡ 0 + (offset + n) = omega arith in
                let top : 0 + size ≡ size = omega arith in
                rw (buffer, end_)
                  (sym (
                    subst
                      (λ (b : ℕ).
                        slice (slice l.server.memory 0 b) offset (offset + n)
                        ≡ slice l.server.memory (0 + offset) (0 + (offset + n)))
                      top
                      (slice-slice l.server.memory 0 size offset (offset + n)
                        (omega (arith, sized)))))),
            (record { up = refl; heard = refl; told = refl }, p.1),
          ))
        size l sized (idle, refl)

  -- The link once the server has stored the first block of the pattern.
  abbrev pub stored : ℕ → Link → Link
  stored mb l = record {
    server = store 0 max_block (slice (pattern (mb * 1024 * 1024)) 0 max_block) l.server;
    inbox = [];
    outbox = [];
    is_open = true;
    rounds = l.rounds + 1;
  }
