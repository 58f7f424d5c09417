-- ===== src/EndToEnd/Tests.antt =====
-- A client and a server with four bytes, and the theorems about them at concrete inputs.
use ram_link.Base.{
  ℕ, false, digits_onto, ◌≡◌, refl, arith, true, [], ◌∷◌, slice, some, none, Bytes, ok, err,
  os_error,
}
use mathlib.Core.List.{append-nil}
use ram_link.Wire.{recv, Chunks, flatten, AreNonempty}
use ram_link.Wire.Op
use ram_link.Server.Leases.{RamLinkServer, store}
use ram_link.Client.Request.{rml_request}
use ram_link.Service.Memory.{Service, read}
use ram_link.Service.Region.{read-Served}
use ram_link.EndToEnd.Link.{Link, link_host}
use ram_link.EndToEnd.Exchange.{IsIdle}
use ram_link.EndToEnd.Region.{server-IsServed, region_read}
use ram_link.Local.Text.{Unicode}
use ram_link.Local.Callers.{api_read}
use ram_link.Local.Link.{LocalLink, local_host}
use ram_link.EndToEnd.Stack.{stack_read}
use ram_link.EndToEnd.Stall.{write_stalls}
use ram_link.Wire.{max_block}
use ram_link.Client.Desktop.{request, ping_host}
use ram_link.Client.Transfers.{read_blocks}
use ram_link.EndToEnd.Desktop.{phone_read}
use ram_link.EndToEnd.Ping.{ping_host-found}

-- All that was sent comes in one piece.
abbrev one_piece : Bytes → Chunks
one_piece [] = []
one_piece (x ∷ xs) = (x ∷ xs) ∷ []

one_piece-flatten : (b : Bytes) → flatten (one_piece b) ≡ b
one_piece-flatten [] = refl
one_piece-flatten (x ∷ xs) = append-nil (x ∷ xs)

one_piece-AreNonempty : (b : Bytes) → AreNonempty (one_piece b)
one_piece-AreNonempty [] = tt
one_piece-AreNonempty (x ∷ xs) = ((λ same. cc same), tt)

abbrev four_bytes : RamLinkServer
four_bytes = record {
  size = 4;
  memory = 5 ∷ 6 ∷ 7 ∷ 8 ∷ [];
  sectors = 0;
  leases = [];
  next_lease_id = 1;
}

abbrev link : Link
link = record { server = four_bytes; inbox = []; outbox = []; is_open = true; rounds = 0 }

link-IsIdle : IsIdle link
link-IsIdle = record { up = refl; heard = refl; told = refl }

-- The last three bytes are borrowed.
abbrev service : Service Link
service = record {
  memory = record {
    megabytes = 1;
    sock = some 0;
    lease_id = 1;
    base_offset = 1;
    length = 3;
    started = none;
    last_keepalive = none;
    last_error = none;
    reconnects = 0;
  };
  net = link;
}

region_read_example :
    (net : Link) × (read (link_host one_piece (λ _ _. 0)) 1 2 service
      ≡ (ok (7 ∷ 8 ∷ []), record service { net = net }))
    × IsIdle net
    × (net.server ≡ four_bytes)
unfolding slice
region_read_example =
    region_read one_piece (λ _ _. 0) one_piece-flatten one_piece-AreNonempty service 1 2 refl
      link-IsIdle (omega arith) (omega arith) (omega arith) (omega arith)

write_stalls_example :
    rml_request (link_host one_piece (λ _ _. 0)) 0 Op.write 1 2 (9 ∷ 9 ∷ []) link
    ≡ (err os_error, record link { server = store 1 2 (9 ∷ 9 ∷ []) four_bytes; rounds = 1 })
write_stalls_example =
    write_stalls one_piece (λ _ _. 0) one_piece-flatten one_piece-AreNonempty link 1 (9 ∷ 9 ∷ [])
      link-IsIdle (omega arith) (omega arith) (omega arith) (omega arith)

read-Served_example :
    (net : Link) × (read (link_host one_piece (λ _ _. 0)) 1 2 service
      ≡ (ok (7 ∷ 8 ∷ []), record service { net = net }))
    × (IsIdle net × (net.server ≡ four_bytes))
    × (slice four_bytes.memory 1 4 ≡ slice four_bytes.memory 1 4)
unfolding slice
read-Served_example =
    read-Served (link_host one_piece (λ _ _. 0)) 0 1 3 (λ l. IsIdle l × (l.server ≡ four_bytes))
      (λ _. slice four_bytes.memory 1 4)
      (server-IsServed one_piece (λ _ _. 0) one_piece-flatten one_piece-AreNonempty four_bytes 1 3
        (omega arith) (omega arith) (omega arith))
      service 1 2 refl refl refl (link-IsIdle, refl) (omega arith)

abbrev plain : Unicode
plain = record { upper = λ c. c ∷ []; digit = λ c. none }

abbrev caller : LocalLink Link
caller = record { service = service; inbox = []; outbox = []; is_served = false }

stack_read_example :
    (l : LocalLink Link) × (api_read
        (local_host (link_host one_piece (λ _ _. 0)) plain (λ _ _. []) (λ _. []) one_piece)
        1
        2
        caller
      ≡ (ok (7 ∷ 8 ∷ []), l))
    × IsIdle l.service.net
    × (l.service.net.server ≡ four_bytes)
unfolding slice recv digits_onto
stack_read_example =
    stack_read one_piece (λ _ _. 0) one_piece-flatten one_piece-AreNonempty plain (λ _ _. [])
      (λ _. []) one_piece caller 1 2 [] refl link-IsIdle (omega arith) (omega arith) (omega arith)
      (omega arith) (omega arith) refl

ping_host-found_example :
    ping_host {A = ℕ} (link_host one_piece (λ _ _. 0)) 7 link
    ≡ (ok (some 7), record link { is_open = false; rounds = 1 })
ping_host-found_example =
    ping_host-found one_piece (λ _ _. 0) one_piece-flatten one_piece-AreNonempty 7 link

phone_read_example :
    (l : Link) × (read_blocks (request (link_host one_piece (λ _ _. 0)) 0) 3 0 3 [] 0 link
      ≡ (ok (5 ∷ 6 ∷ 7 ∷ []), l))
    × (IsIdle l × (l.server ≡ four_bytes))
unfolding slice
phone_read_example =
    phone_read one_piece (λ _ _. 0) one_piece-flatten one_piece-AreNonempty link 3 link-IsIdle
      (omega arith) (omega arith) (omega arith)

-- A server that says it has a block.
abbrev block_link : Link
block_link = record link { server = record four_bytes { size = max_block } }
