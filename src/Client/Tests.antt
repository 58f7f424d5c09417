-- ===== src/Client/Tests.antt =====
-- The scripts of the clients at concrete inputs.
use ram_link.Base.{
  ◌≡◌, refl, Bool, true, false, [], ◌++◌, ◌==◌, if◌then◌else◌, take, drop, length, slice, bytes_eq,
  Bytes, ok, err, os_error,
}
use ram_link.Wire.{be_bytes, be_into, value_from}
use ram_link.Wire.Op
use ram_link.Wire.Header.{magic, pack_header, unpack_header, unpack_lease_reply}
use ram_link.Client.Host.{Host, recv_all}
use ram_link.Client.Transfers.{request, check_memory, write_blocks, borrow_and_check}
use ram_link.Client.Transfers.Laws.{borrow_and_check_closes}

-- A connection that breaks when the server has sent what it is going to send.
record Replies : Type 0 where
  is_open : Bool
  replies : Bytes

abbrev replies_host : Host Replies
replies_host = record {
  connect = λ net. (ok 1, record net { is_open = true });
  sendall = λ sock bytes net. (if length net.replies == 0 then err os_error else ok tt, net);
  recv = λ sock n net. (ok (take n net.replies), record net { replies = drop n net.replies });
  close = λ sock net. (ok tt, record net { is_open = false });
  time = λ net. (50, net);
}

-- The lease 7 of 1 MiB at the offset 512.
abbrev lease_bytes : Bytes
lease_bytes = be_bytes 8 7 ++ (be_bytes 8 512 ++ be_bytes 8 1048576)

abbrev granting : Replies
granting = record {
  is_open = true;
  replies = magic ++ (be_bytes 1 Op.borrow ++ (be_bytes 8 7 ++ be_bytes 4 24)) ++ lease_bytes;
}

abbrev broken : Replies
broken = record { is_open = true; replies = [] }

abbrev closed : Replies
closed = record { is_open = false; replies = [] }

borrow_run :
    request replies_host 1 Op.borrow 0 1048576 [] granting
    ≡ (ok (record { op = Op.borrow; offset = 7; body = lease_bytes }), broken)
unfolding request pack_header recv_all be_into unpack_header bytes_eq value_from slice
borrow_run = refl

check_run : check_memory replies_host (λ bytes. bytes) 1 512 1048576 broken ≡ (err os_error, broken)
unfolding check_memory request write_blocks pack_header be_into
check_run = refl

release_run : request replies_host 1 Op.release 7 0 [] broken ≡ (err os_error, broken)
unfolding request pack_header be_into
release_run = refl

fields_run : unpack_lease_reply lease_bytes ≡ ok (7, 512, 1048576)
unfolding unpack_lease_reply slice value_from be_into
fields_run = refl

borrow_and_check_closes_example :
    borrow_and_check replies_host (λ bytes. bytes) 1 granting ≡ (err os_error, closed)
borrow_and_check_closes_example =
    borrow_and_check_closes replies_host (λ bytes. bytes) 1 1 7 512 1048576
      (record { op = Op.borrow; offset = 7; body = lease_bytes }) (err os_error) (err os_error)
      granting granting broken broken broken closed refl borrow_run fields_run check_run release_run
      (λ same. cc same) refl
