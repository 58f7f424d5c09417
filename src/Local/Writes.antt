-- ===== src/Local/Writes.antt =====
-- A WRITE of a caller of the local service, when the line of the command reaches the service apart from its payload.
use ram_link.Base.{
  ℕ, ◌≤◌, false, if◌then◌else◌, [], ◌∷◌, ◌++◌, length, take, drop, Bytes, Error, Result, ok, err,
  stuck, ◌≢◌, not, bytes_eq, os_error, codes, ◌≡◌, refl, ap, arith,
}
use ram_link.Exec.{bind_result, pure, raise_if}
use ram_link.Wire.{Chunks, recv, recv_all as recv_all_chunks, max_block}
use ram_link.Client.Host.{Host}
use ram_link.Service.Memory.{RemoteMemory, Service, write}
use ram_link.Local.Text.{
  Text, Unicode, is_space, decode_from, next_byte, first_byte, strip, strip_left, strip_right,
  decode,
}
use ram_link.Local.Lines.{command_line}
use ram_link.Local.Serve.{write_answered, write_failed}
use ram_link.Local.Callers.{starts_with, text_reply, ok_reply, api_write, service_write}
use ram_link.Local.Link.{LocalLink, serve}
use ram_link.Local.Calls.{
  callee, replied, asked, serve_lem, exchange-served, first_read, text_replies,
}

-- A text that begins with a letter other than O is not OK.
strip_other :
    (c : ℕ) (cs : Text)
    → is_space c ≡ false
    → c ≢ b'O'
    → bytes_eq (strip (c ∷ cs)) (codes "OK") ≡ false
unfolding strip strip_left strip_right bytes_eq
strip_other c cs letter other = ground (arith, letter, other)

module _ {Net : Type 0} (host : Host Net) (unicode : Unicode)
    (status_text : RemoteMemory → ℕ → Bytes) (message : Error → Bytes) (cut : Bytes → Chunks) where
  write_call-ok :
      (l : LocalLink Net) (offset : ℕ) (bytes : Bytes) (more rest : Chunks) (service : Service Net)
      → length bytes ≤ max_block
      → recv 4096 (cut (command_line (codes "WRITE") offset (length bytes) ++ bytes))
        ≡ (command_line (codes "WRITE") offset (length bytes), more)
      → recv_all_chunks (length bytes) more ≡ (ok bytes, rest)
      → write host offset bytes l.service ≡ (ok tt, service)
      → (api_write (callee host unicode status_text message cut) offset bytes l
          ≡ (ok tt, replied host unicode status_text message cut service []))
        × (service_write (callee host unicode status_text message cut) offset bytes l
            ≡ (ok tt, replied host unicode status_text message cut service []))
  unfolding api_write service_write starts_with bytes_eq decode_from next_byte first_byte strip
      strip_left strip_right is_space
  write_call-ok l offset bytes more rest service short apart paid carried =
      let all = command_line (codes "WRITE") offset (length bytes) ++ bytes in
      let served = serve_lem host unicode status_text message cut l all _ (
        write_answered host unicode status_text message offset (length bytes) bytes more rest
          (record { server = l.service; conn = record { input = cut all; output = [] } }) service
          short apart paid carried) in
      let replies =
        text_replies host unicode status_text message cut l all (codes "OK\n") service (omega arith)
          served in
      let first =
        exchange-served host unicode status_text message cut l
          (replied host unicode status_text message cut service []) all
          (text_reply (callee host unicode status_text message cut)) _ replies.0 in
      let second =
        exchange-served host unicode status_text message cut l
          (replied host unicode status_text message cut service []) all
          (ok_reply (callee host unicode status_text message cut)) _ replies.1 in
      (
        ap
            (λ (x : Result Text × LocalLink Net).
              bind_result x (λ result. raise_if (not (starts_with result (codes "OK"))) os_error))
            first,
        ground (arith, second),
      )

  -- How a caller takes a reply of any length.
  text_replies_long :
      (l : LocalLink Net) (all reply : Bytes) (service : Service Net)
      → serve host unicode status_text message cut
          (asked host unicode status_text message cut l all)
        ≡ replied host unicode status_text message cut service reply
      → (text_reply
            (callee host unicode status_text message cut)
            0
            (asked host unicode status_text message cut l all)
          ≡ (
            ok (decode (take max_block reply)),
            replied host unicode status_text message cut service (drop max_block reply),
          ))
        × (ok_reply
              (callee host unicode status_text message cut)
              0
              (asked host unicode status_text message cut l all)
            ≡ (
              (if not (bytes_eq (strip (decode (take 64 reply))) (codes "OK"))
                  then err os_error
                  else ok tt),
              replied host unicode status_text message cut service (drop 64 reply),
            ))
  unfolding text_reply ok_reply
  text_replies_long l all reply service served = (
    ap (λ (x : Result Bytes × LocalLink Net). bind_result x (λ bytes. pure (decode bytes)))
        (first_read host unicode status_text message cut max_block l all reply service served),
    ap
        (λ (x : Result Bytes × LocalLink Net).
          bind_result x
            (λ bytes. raise_if (not (bytes_eq (strip (decode bytes)) (codes "OK"))) os_error))
        (first_read host unicode status_text message cut 64 l all reply service served),
  )

  -- The local service's answer to a WRITE.
  abbrev pub write_answer : Result (Unit {0}) → Bytes
  write_answer (ok _) = codes "OK\n"
  write_answer (err e) = codes "ERROR " ++ (message e ++ codes "\n")
  write_answer stuck = []

  -- What a caller makes of an outcome of `RemoteMemory.write`.
  abbrev pub told : Result (Unit {0}) → Result (Unit {0})
  told (ok _) = ok tt
  told (err e) = err os_error
  told stuck = stuck

  write_call-err :
      (l : LocalLink Net) (offset : ℕ) (bytes : Bytes) (e : Error) (more rest : Chunks)
      (service : Service Net)
      → length bytes ≤ max_block
      → recv 4096 (cut (command_line (codes "WRITE") offset (length bytes) ++ bytes))
        ≡ (command_line (codes "WRITE") offset (length bytes), more)
      → recv_all_chunks (length bytes) more ≡ (ok bytes, rest)
      → write host offset bytes l.service ≡ (err e, service)
      → (api_write (callee host unicode status_text message cut) offset bytes l ≡ (
        err os_error,
        replied host unicode status_text message cut service
            (drop max_block (write_answer (err e))),
      ))
        × (service_write (callee host unicode status_text message cut) offset bytes l ≡ (
          err os_error,
          replied host unicode status_text message cut service (drop 64 (write_answer (err e))),
        ))
  unfolding api_write service_write starts_with bytes_eq decode_from next_byte first_byte is_space
  write_call-err l offset bytes e more rest service short apart paid failed =
      let all = command_line (codes "WRITE") offset (length bytes) ++ bytes in
      let reply = write_answer (err e) in
      let served = serve_lem host unicode status_text message cut l all _ (
        write_failed host unicode status_text message offset (length bytes) bytes e more rest
          (record { server = l.service; conn = record { input = cut all; output = [] } }) service
          short apart paid failed) in
      let replies = text_replies_long l all reply service served in
      let first =
        exchange-served host unicode status_text message cut l
          (replied host unicode status_text message cut service (drop max_block reply)) all
          (text_reply (callee host unicode status_text message cut)) _ replies.0 in
      let no : bytes_eq (strip (decode (take 64 reply))) (codes "OK") ≡ false =
        strip_other b'E' _ refl (λ same. omega (arith, same)) in
      let second =
        exchange-served host unicode status_text message cut l
          (replied host unicode status_text message cut service (drop 64 reply)) all
          (ok_reply (callee host unicode status_text message cut)) _ replies.1 in
      (
        ap
            (λ (x : Result Text × LocalLink Net).
              bind_result x (λ result. raise_if (not (starts_with result (codes "OK"))) os_error))
            first,
        ground (arith, second, no),
      )

  -- `RemoteAPI.write` and `_Service.write` of at most MAX_TRANSFER bytes return where `RemoteMemory.write` of the bytes
  -- returns, and raise OSError where it raises, if the line of the command reaches the service apart from its payload,
  -- and the payload reaches it in full.
  pub write_call :
      (l : LocalLink Net) (offset : ℕ) (bytes : Bytes) (r : Result (Unit {0})) (more rest : Chunks)
      (service : Service Net)
      → length bytes ≤ max_block
      → recv 4096 (cut (command_line (codes "WRITE") offset (length bytes) ++ bytes))
        ≡ (command_line (codes "WRITE") offset (length bytes), more)
      → recv_all_chunks (length bytes) more ≡ (ok bytes, rest)
      → write host offset bytes l.service ≡ (r, service)
      → r ≢ stuck
      → (api_write (callee host unicode status_text message cut) offset bytes l ≡ (
        told r,
        replied host unicode status_text message cut service (drop max_block (write_answer r)),
      ))
        × (service_write (callee host unicode status_text message cut) offset bytes l ≡ (
          told r,
          replied host unicode status_text message cut service (drop 64 (write_answer r)),
        ))
  write_call l offset bytes (ok u) more rest service short apart paid carried ends =
      write_call-ok l offset bytes more rest service short apart paid carried
  write_call l offset bytes (err e) more rest service short apart paid failed ends =
      write_call-err l offset bytes e more rest service short apart paid failed
  write_call l offset bytes stuck more rest service short apart paid carried ends =
      absurd (ends refl)
