-- ===== src/Local/Calls.antt =====
-- A call of the local service, from the caller to `RemoteMemory` and back.
use ram_link.Base.{
  ℕ, ◌-◌, ◌≤◌, ◌<◌, min, true, false, if◌then◌else◌, [], ◌∷◌, ◌++◌, length, take, drop, take_whole,
  drop_whole, take_of_length-le, drop_of_length-le, drop_all, Bytes, Error, Result, ok, err, not,
  bytes_eq, os_error, codes, ◌≡◌, refl, ◌∙◌, ap, subst, arith,
}
use ram_link.Exec.{bind_result, Exec, pure, raise_if}
use ram_link.Wire.{Chunks, recv, max_block, be_bytes}
use ram_link.Wire.{length-be_bytes, be_value-be_bytes}
use ram_link.Connection.{Connected}
use ram_link.Client.Host.{Host, recv_all}
use ram_link.Client.Laws.{recv_all-whole}
use ram_link.Service.Memory.{RemoteMemory, Service, read}
use ram_link.Local.Text.{
  Text, Unicode, is_space, decode_from, next_byte, first_byte, strip, strip_left, strip_right,
  decode,
}
use ram_link.Local.Lines.{command_line}
use ram_link.Local.Api.{client}
use ram_link.Local.Serve.{read_answered, write_together}
use ram_link.Local.Callers.{
  unpack_size, starts_with, exchange, sized_reply, text_reply, ok_reply, exact_reply, api_read,
  api_write, service_read, service_write,
}
use ram_link.Local.Link.{LocalLink, serve, local_host}

module _ {Net : Type 0} (host : Host Net) (unicode : Unicode)
    (status_text : RemoteMemory → ℕ → Bytes) (message : Error → Bytes) (cut : Bytes → Chunks) where
  abbrev pub callee : Host (LocalLink Net)
  callee = local_host host unicode status_text message cut

  -- The link when a reply waits.
  abbrev pub replied : Service Net → Bytes → LocalLink Net
  replied service bytes = record { service = service; inbox = []; outbox = bytes; is_served = true }

  abbrev pub asked : LocalLink Net → Bytes → LocalLink Net
  asked l bytes = record l { inbox = bytes; outbox = []; is_served = false }

  -- The service's answer to a call.
  pub serve_lem :
      (l : LocalLink Net) (bytes : Bytes) (s : Connected (Service Net))
      → client host unicode status_text message
          (record { server = l.service; conn = record { input = cut bytes; output = [] } })
        ≡ (ok tt, s)
      → serve host unicode status_text message cut (asked l bytes) ≡ replied s.server s.conn.output
  unfolding serve
  serve_lem l bytes s answered = ground (arith, answered)

  pub exchange-served :
      {A : Type 0} (l l' : LocalLink Net) (bytes : Bytes) (reply : ℕ → Exec (LocalLink Net) A)
      (r : Result A)
      → reply 0 (asked l bytes) ≡ (r, l')
      → exchange callee bytes reply l ≡ (r, l')
  unfolding exchange local_host
  exchange-served l l' bytes reply r came = ground (arith, came)

  -- The first read brings the reply.
  pub first_read :
      (n : ℕ) (l : LocalLink Net) (bytes reply : Bytes) (service : Service Net)
      → serve host unicode status_text message cut (asked l bytes) ≡ replied service reply
      → callee.recv 0 n (asked l bytes) ≡ (ok (take n reply), replied service (drop n reply))
  unfolding local_host
  first_read n l bytes reply service served = ground (arith, served)

  recv_rest :
      (bytes : Bytes) (service : Service Net)
      → length bytes ≤ max_block
      → recv_all callee 0 (length bytes) (replied service bytes) ≡ (ok bytes, replied service [])
  unfolding recv_all local_host
  recv_rest [] service short = refl
  recv_rest (x ∷ xs) service short =
      let b : Bytes = x ∷ xs in
      let all : min max_block (length b - 0) ≡ length b = omega arith in
      recv_all-whole callee 0 (length b) b (replied service b) (replied service []) (omega arith)
        short refl
        (ap (λ (c : Bytes × Bytes). (ok c.0, replied service c.1))
          (rw (all, take_of_length-le (length b) b (omega arith), drop_all b) refl))

  recv_head :
      (l : LocalLink Net) (line head bytes : Bytes) (service : Service Net)
      → length head ≡ 4
      → serve host unicode status_text message cut (asked l line) ≡ replied service (head ++ bytes)
      → recv_all callee 0 4 (asked l line) ≡ (ok head, replied service bytes)
  recv_head l line head bytes service sized served =
      recv_all-whole callee 0 4 head (asked l line) (replied service bytes) (omega arith)
        (omega arith) sized
        (first_read 4 l line (head ++ bytes) service served
          ∙ ap (λ (c : Bytes × Bytes). (ok c.0, replied service c.1))
              (rw (take_whole 4 head bytes sized, drop_whole 4 head bytes sized) refl))

  sized_reply-ok :
      (l : LocalLink Net) (line bytes : Bytes) (size : ℕ) (service : Service Net)
      → length bytes ≡ size
      → size ≤ max_block
      → serve host unicode status_text message cut (asked l line)
        ≡ replied service (be_bytes 4 size ++ bytes)
      → (sized_reply callee 0 (asked l line) ≡ (ok bytes, replied service []))
        × (exact_reply callee size 0 (asked l line) ≡ (ok bytes, replied service []))
  unfolding sized_reply exact_reply unpack_size
  sized_reply-ok l line bytes size service sized short served =
      let head = recv_head l line (be_bytes 4 size) bytes service (length-be_bytes 4 size) served in
      let number = be_value-be_bytes 4 size (omega arith) in
      let four = length-be_bytes 4 size in
      let rest : recv_all callee 0 size (replied service bytes) ≡ (ok bytes, replied service []) =
        subst
          (λ (n : ℕ). recv_all callee 0 n (replied service bytes) ≡ (ok bytes, replied service []))
          sized (recv_rest bytes service (omega (arith, sized))) in
      (ground (arith, head, number, four, rest), ground (arith, head, number, four, rest))

  -- `RemoteAPI.read` and `_Service.read` of a range that `RemoteMemory.read` reads return its bytes, if the line of
  -- the command reaches the service in one piece.
  pub read_call :
      (l : LocalLink Net) (offset size : ℕ) (bytes : Bytes) (more : Chunks) (service : Service Net)
      → size ≤ max_block
      → recv 4096 (cut (command_line (codes "READ") offset size))
        ≡ (command_line (codes "READ") offset size, more)
      → read host offset size l.service ≡ (ok bytes, service)
      → length bytes ≡ size
      → (api_read callee offset size l ≡ (ok bytes, replied service []))
        × (service_read callee offset size l ≡ (ok bytes, replied service []))
  unfolding api_read service_read
  read_call l offset size bytes more service short whole carried sized =
      let line = command_line (codes "READ") offset size in
      let served = serve_lem l line _ (
        read_answered host unicode status_text message offset size bytes more
          (record { server = l.service; conn = record { input = cut line; output = [] } }) service
          short carried sized whole) in
      let replies = sized_reply-ok l line bytes size service sized short served in
      let first =
        exchange-served l (replied service []) line (sized_reply callee) (ok bytes) replies.0 in
      let second =
        exchange-served l (replied service []) line (exact_reply callee size) (ok bytes)
          replies.1 in
      (first, ground (arith, second))

  -- How a caller takes a reply of a few letters.
  pub text_replies :
      (l : LocalLink Net) (all reply : Bytes) (service : Service Net)
      → length reply ≤ 64
      → serve host unicode status_text message cut (asked l all) ≡ replied service reply
      → (text_reply callee 0 (asked l all) ≡ (ok (decode reply), replied service []))
        × (ok_reply callee 0 (asked l all) ≡ (
          (if not (bytes_eq (strip (decode reply)) (codes "OK")) then err os_error else ok tt),
          replied service [],
        ))
  unfolding text_reply ok_reply
  text_replies l all reply service short served = (
    ap (λ (x : Result Bytes × LocalLink Net). bind_result x (λ bytes. pure (decode bytes)))
        (first_read max_block l all reply service served ∙ whole max_block (omega arith)),
    ap
        (λ (x : Result Bytes × LocalLink Net).
          bind_result x
            (λ bytes. raise_if (not (bytes_eq (strip (decode bytes)) (codes "OK"))) os_error))
        (first_read 64 l all reply service served ∙ whole 64 short),
  )
    where
      whole :
          (n : ℕ)
          → length reply ≤ n
          → ◌≡◌ {A = Result Bytes × LocalLink Net}
              (ok (take n reply), replied service (drop n reply))
              (ok reply, replied service [])
      whole n fits =
          ap (λ (c : Bytes × Bytes). (ok c.0, replied service c.1))
            (rw (take_of_length-le n reply fits, drop_of_length-le n reply fits) refl)

  -- `RemoteAPI.write` and `_Service.write` of at most MAX_TRANSFER bytes raise OSError and leave the memory as it is, if a
  -- byte of the payload that is ASCII and no space reaches the service together with the line of the command.
  pub write_call_refused :
      (l : LocalLink Net) (offset : ℕ) (bytes before after : Bytes) (b : ℕ) (more : Chunks)
      → length bytes ≤ max_block
      → b < 128
      → is_space b ≡ false
      → recv 4096 (cut (command_line (codes "WRITE") offset (length bytes) ++ bytes))
        ≡ (command_line (codes "WRITE") offset (length bytes) ++ (before ++ (b ∷ after)), more)
      → (api_write callee offset bytes l ≡ (err os_error, replied l.service []))
        × (service_write callee offset bytes l ≡ (err os_error, replied l.service []))
  unfolding api_write service_write starts_with bytes_eq decode_from next_byte first_byte strip
      strip_left strip_right is_space
  write_call_refused l offset bytes before after b more short ascii visible together =
      let all = command_line (codes "WRITE") offset (length bytes) ++ bytes in
      let served = serve_lem l all _ (
        write_together host unicode status_text message offset (length bytes) before after b more
          (record { server = l.service; conn = record { input = cut all; output = [] } }) ascii
          visible together) in
      let replies =
        text_replies l all (codes "ERROR invalid command\n") l.service (omega arith) served in
      let first = exchange-served l (replied l.service []) all (text_reply callee) _ replies.0 in
      let second = exchange-served l (replied l.service []) all (ok_reply callee) _ replies.1 in
      (
        ap
            (λ (x : Result Text × LocalLink Net).
              bind_result x (λ result. raise_if (not (starts_with result (codes "OK"))) os_error))
            first,
        ground (arith, second),
      )
