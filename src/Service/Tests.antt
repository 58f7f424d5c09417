-- ===== src/Service/Tests.antt =====
-- A scripted server, and the theorems about requests at concrete inputs.
use ram_link.Base.{
  ℕ, ◌≡◌, ◌≢◌, refl, arith, Bool, true, false, if◌then◌else◌, [], ◌∷◌, ◌++◌, take, drop, some, none,
  Bytes, Result, ok, err, stuck, os_error, value_error, bytes_eq, slice,
}
use ram_link.Wire.{be_bytes, be_into, value_from}
use ram_link.Wire.Op
use ram_link.Wire.Header.{magic, pack_header, unpack_header, unpack_lease_reply}
use ram_link.Client.Host.{Host, recv_all}
use ram_link.Client.Request.{rml_request}
use ram_link.Client.Desktop.{request, request-rml_request}
use ram_link.Client.Laws.{rml_request-ends}
use ram_link.Service.Memory.{Service, release, Borrowed, borrow_new_socket, read, write}
use ram_link.Service.Region.{outside_region_refused}
use ram_link.Service.Release.{release_closes}
use ram_link.Service.Reconnect.{read_reconnected}

-- A connection that may be broken, and what the server is going to send.
record Script : Type 0 where
  is_open : Bool
  replies : Bytes

abbrev script_host : Host Script
script_host = record {
  connect = λ net. (ok 1, record net { is_open = true });
  sendall = λ sock bytes net. (if net.is_open then ok tt else err os_error, net);
  recv = λ sock n net. (ok (take n net.replies), record net { replies = drop n net.replies });
  close = λ sock net. (ok tt, record net { is_open = false });
  time = λ net. (50, net);
}

-- The header of a reply.
abbrev reply_header : ℕ → ℕ → ℕ → Bytes
reply_header op offset size = magic ++ (be_bytes 1 op ++ (be_bytes 8 offset ++ be_bytes 4 size))

-- The lease 7 of 1024 bytes at the offset 512.
abbrev lease_bytes : Bytes
lease_bytes = be_bytes 8 7 ++ (be_bytes 8 512 ++ be_bytes 8 1024)

abbrev broken : Service Script
broken = record {
  memory = record {
    megabytes = 1;
    sock = some 0;
    lease_id = 3;
    base_offset = 100;
    length = 8;
    started = some 10;
    last_keepalive = some 10;
    last_error = none;
    reconnects = 0;
  };
  net = record {
    is_open = false;
    replies =
        reply_header Op.borrow 7 24
        ++ (lease_bytes ++ (reply_header Op.read 104 2 ++ (8 ∷ 9 ∷ [])));
  };
}

sends :
    (net : Script) → ◌≢◌ {A = Result (Unit {0})} (if net.is_open then ok tt else err os_error) stuck
sends net = go net.is_open
  where
    go : (b : Bool) → ◌≢◌ {A = Result (Unit {0})} (if b then ok tt else err os_error) stuck
    go true same = cc same
    go false same = cc same

rml_request-ends_example : (rml_request script_host 0 Op.read 104 2 [] broken.net).0 ≢ stuck
rml_request-ends_example =
    rml_request-ends script_host 0 Op.read 104 2 [] broken.net (λ n net same. cc same)
      (λ bytes. sends)

outside_region_refused_run :
    (read script_host 5 4 broken ≡ (err value_error, broken))
    × (write script_host 5 (1 ∷ 2 ∷ 3 ∷ 4 ∷ []) broken ≡ (err value_error, broken))
outside_region_refused_run =
    outside_region_refused script_host broken 5 (1 ∷ 2 ∷ 3 ∷ 4 ∷ []) (omega arith)

broken_run : rml_request script_host 0 Op.read 104 2 [] broken.net ≡ (err os_error, broken.net)
unfolding rml_request pack_header
broken_run = refl

abbrev lease : Borrowed
lease = record { sock = 1; lease_id = 7; base_offset = 512; length = 1024 }

abbrev borrowed : Script
borrowed = record { is_open = true; replies = reply_header Op.read 104 2 ++ (8 ∷ 9 ∷ []) }

borrow_run : borrow_new_socket script_host 1 broken.net ≡ (ok lease, borrowed)
unfolding borrow_new_socket rml_request pack_header recv_all be_into unpack_header bytes_eq
    value_from slice unpack_lease_reply
borrow_run = refl

read_run : rml_request script_host 1 Op.read 104 2 [] borrowed ≡ (
  ok (record { op = Op.read; offset = 104; body = 8 ∷ 9 ∷ [] }),
  record { is_open = true; replies = [] },
)
unfolding rml_request pack_header recv_all be_into unpack_header bytes_eq value_from slice
read_run = refl

read_reconnected_example :
    (s : Service Script) × (read script_host 4 2 broken ≡ (ok (8 ∷ 9 ∷ []), s))
    × (s.memory.base_offset ≡ 512)
    × (s.net ≡ record { is_open = true; replies = [] })
read_reconnected_example =
    read_reconnected script_host broken 0 4 2 os_error lease 50
      (record { op = Op.read; offset = 104; body = 8 ∷ 9 ∷ [] }) broken.net broken.net borrowed
      borrowed (record { is_open = true; replies = [] }) refl (omega arith) (omega arith)
      (omega arith) broken_run refl borrow_run refl read_run refl

release_run : rml_request script_host 0 Op.release 3 0 [] broken.net ≡ (err os_error, broken.net)
unfolding rml_request pack_header
release_run = refl

release_closes_example : release script_host broken ≡ (
  ok tt,
  record { memory = record broken.memory { sock = none; lease_id = 0 }; net = broken.net },
)
release_closes_example =
    release_closes script_host broken 0 (err os_error) (ok tt) broken.net broken.net refl
      (λ same. cc same) release_run (λ same. cc same) refl

request-rml_request_example :
    request script_host 1 Op.write 104 2 (8 ∷ 9 ∷ []) borrowed
    ≡ rml_request script_host 1 Op.write 104 2 (8 ∷ 9 ∷ []) borrowed
request-rml_request_example =
    request-rml_request script_host 1 Op.write 104 2 (8 ∷ 9 ∷ []) borrowed
      (λ same. omega (arith, same)) refl
