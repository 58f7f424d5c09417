-- ===== src/Local/Tests.antt =====
-- Texts, and calls of a local service with a scripted server behind it; the theorems at concrete inputs.
use ram_link.Base.{
  ℕ, ◌≡◌, refl, arith, none, some, true, false, [], ◌∷◌, ◌++◌, take, drop, slice, bytes_eq, Bytes,
  Error, ok, err, os_error, connection_error, codes, digits_onto,
}
use ram_link.Wire.{Chunks, recv, be_bytes, be_into, value_from}
use ram_link.Wire.{recv_all as recv_all_chunks}
use ram_link.Wire.Op
use ram_link.Wire.Header.{magic, pack_header, unpack_header}
use ram_link.Client.Host.{Host, recv_all}
use ram_link.Client.Request.{rml_request}
use ram_link.Service.Memory.{RemoteMemory, Service, read, write, borrow_new_socket}
use ram_link.Local.Text.{
  Text, Unicode, pos, negsuc, decode_from, decode, strip, split_from, split, is_space, int,
}
use ram_link.Local.Lines.{command_line, command_line-split}
use ram_link.Local.Api.{client}
use ram_link.Local.Serve.{read_answered}
use ram_link.Local.Callers.{api_read, api_write, service_read, service_write}
use ram_link.Local.Link.{LocalLink, local_host}
use ram_link.Local.Calls.{read_call, write_call_refused}
use ram_link.Local.Writes.{write_call}

abbrev plain : Unicode
plain = record { upper = λ c. c ∷ []; digit = λ c. none }

-- Good UTF-8, a character that is cut off, and a byte that begins none.
decode_run :
    (decode (195 ∷ 169 ∷ 65 ∷ []) ≡ 233 ∷ 65 ∷ [])
    × (decode (226 ∷ 130 ∷ 66 ∷ 255 ∷ []) ≡ 65533 ∷ 66 ∷ 65533 ∷ [])
unfolding decode_from
decode_run = (refl, refl)

split_run : split (strip (codes " READ  1\t20 \n")) ≡ codes "READ" ∷ (codes "1" ∷ (codes "20" ∷ []))
unfolding split_from strip is_space
split_run = refl

int_run :
    (int plain (codes "-5") ≡ some (negsuc 4))
    × (int plain (codes "1_0") ≡ some (pos 10))
    × (int plain (codes "1__0") ≡ none)
    × (int plain (codes "+7") ≡ some (pos 7))
unfolding int
int_run = (refl, refl, refl, refl)

command_line-split_run :
    (t : Text) × (u : Text) × (split (strip (decode (command_line (codes "READ") 512 20)))
      ≡ codes "READ" ∷ (t ∷ (u ∷ [])))
    × (int plain t ≡ some (pos 512))
    × (int plain u ≡ some (pos 20))
unfolding is_space
command_line-split_run =
    command_line-split plain b'R' (b'E' ∷ (b'A' ∷ (b'D' ∷ []))) 512 20 (omega arith)
      (refl, (refl, (refl, (refl, tt))))

-- A server that sends the bytes that it is given.
abbrev sender : Host Bytes
sender = record {
  connect = λ net. (ok 1, net);
  sendall = λ sock bytes net. (ok tt, net);
  recv = λ sock n net. (ok (take n net), drop n net);
  close = λ sock net. (ok tt, net);
  time = λ net. (0, net);
}

-- The region lies at 100, and the server sends `replies`.
abbrev service : Bytes → Service Bytes
service replies = record {
  memory = record {
    megabytes = 1;
    sock = some 0;
    lease_id = 3;
    base_offset = 100;
    length = 8;
    started = some 10;
    last_keepalive = some 10;
    last_error = none;
    reconnects = 0;
  };
  net = replies;
}

abbrev link : Bytes → LocalLink Bytes
link replies = record { service = service replies; inbox = []; outbox = []; is_served = false }

abbrev reply_header : ℕ → ℕ → ℕ → Bytes
reply_header op offset size = magic ++ (be_bytes 1 op ++ (be_bytes 8 offset ++ be_bytes 4 size))

abbrev status_text : RemoteMemory → ℕ → Bytes
status_text memory time = []

abbrev message : Error → Bytes
message e = []

-- All at once, and a first piece of as many bytes as `n`.
abbrev cut_at : ℕ → Bytes → Chunks
cut_at n bytes = take n bytes ∷ (drop n bytes ∷ [])

abbrev answer_read : Bytes
answer_read = reply_header Op.read 104 2 ++ (8 ∷ 9 ∷ [])

read_run : read sender 4 2 (service answer_read) ≡ (ok (8 ∷ 9 ∷ []), service [])
unfolding read rml_request pack_header recv_all be_into unpack_header bytes_eq value_from slice
read_run = refl

read_call_run :
    (api_read (local_host sender plain status_text message (λ b. b ∷ [])) 4 2 (link answer_read) ≡ (
      ok (8 ∷ 9 ∷ []),
      record { service = service []; inbox = []; outbox = []; is_served = true },
    ))
    × (service_read
          (local_host sender plain status_text message (λ b. b ∷ []))
          4
          2
          (link answer_read)
        ≡ (
          ok (8 ∷ 9 ∷ []),
          record { service = service []; inbox = []; outbox = []; is_served = true },
        ))
unfolding recv digits_onto
read_call_run =
    read_call sender plain status_text message (λ b. b ∷ []) (link answer_read) 4 2 (8 ∷ 9 ∷ []) []
      (service []) (omega arith) refl read_run refl

read_answered_example :
    client sender plain status_text message (record {
      server = service answer_read;
      conn = record { input = command_line (codes "READ") 4 2 ∷ []; output = [] };
    })
    ≡ (
      ok tt,
      record {
        server = service [];
        conn = record { input = []; output = be_bytes 4 2 ++ (8 ∷ 9 ∷ []) };
      },
    )
unfolding recv digits_onto
read_answered_example =
    read_answered sender plain status_text message 4 2 (8 ∷ 9 ∷ []) []
      (record {
        server = service answer_read;
        conn = record { input = command_line (codes "READ") 4 2 ∷ []; output = [] };
      })
      (service []) (omega arith) read_run refl refl

write_call_refused_example :
    (api_write (local_host sender plain status_text message (λ b. b ∷ [])) 4 (65 ∷ 0 ∷ []) (link [])
      ≡ (err os_error, record { service = service []; inbox = []; outbox = []; is_served = true }))
    × (service_write
          (local_host sender plain status_text message (λ b. b ∷ []))
          4
          (65 ∷ 0 ∷ [])
          (link [])
        ≡ (
          err os_error,
          record { service = service []; inbox = []; outbox = []; is_served = true },
        ))
unfolding recv is_space digits_onto
write_call_refused_example =
    write_call_refused sender plain status_text message (λ b. b ∷ []) (link []) 4 (65 ∷ 0 ∷ []) []
      (0 ∷ []) 65 [] (omega arith) (omega arith) refl refl

-- The server announces a body that does not come, as the phone's does, and grants no new lease.
abbrev answer_write : Bytes
answer_write = reply_header Op.write 104 2

abbrev write_failing : Service Bytes
write_failing = (write sender 4 (65 ∷ 0 ∷ []) (service answer_write)).1

write_run :
    write sender 4 (65 ∷ 0 ∷ []) (service answer_write) ≡ (err connection_error, write_failing)
unfolding write rml_request pack_header recv_all be_into unpack_header bytes_eq value_from slice
    borrow_new_socket
write_run = refl

-- The first piece is the line of the command.
write_call_example :
    (api_write
        (local_host sender plain status_text message (cut_at 10))
        4
        (65 ∷ 0 ∷ [])
        (link answer_write)
      ≡ (
        err os_error,
        record { service = write_failing; inbox = []; outbox = []; is_served = true },
      ))
    × (service_write
          (local_host sender plain status_text message (cut_at 10))
          4
          (65 ∷ 0 ∷ [])
          (link answer_write)
        ≡ (
          err os_error,
          record { service = write_failing; inbox = []; outbox = []; is_served = true },
        ))
unfolding recv recv_all_chunks digits_onto
write_call_example =
    write_call sender plain status_text message (cut_at 10) (link answer_write) 4 (65 ∷ 0 ∷ [])
      (err connection_error) ((65 ∷ 0 ∷ []) ∷ []) [] write_failing (omega arith) refl refl write_run
      (λ same. cc same)
