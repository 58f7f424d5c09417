-- ===== src/Local/Serve.antt =====
-- What `LocalApi` answers to a line that comes in one piece.
use ram_link.Base.{
  ℕ, ◌≤◌, ◌<◌, Bool, false, if◌then◌else◌, List, [], ◌∷◌, ◌++◌, length, bytes_eq, Bytes, Error, ok,
  err, codes, decimal, ◌≡◌, ◌≢◌, refl, ◌∙◌, ap, sym, subst, arith,
}
use mathlib.Core.List.{append-nil}
use ram_link.Exec.{Exec, pure}
use ram_link.Wire.{max_block, recv, recv_all, be_bytes, Chunks}
use ram_link.Connection.{receive, sendall}
use ram_link.Client.Host.{Host}
use ram_link.Service.Memory.{RemoteMemory, Service, read, write}
use ram_link.Local.Text.{
  Text, decode_from, decode, strip, split_from, split, is_space, is_empty, Unicode, upper,
}
use ram_link.Local.Words.{AreAscii, IsWord, decode-visible, split_from-some}
use ram_link.Local.Numbers.{int-decimal}
use ram_link.Local.Lines.{command_line, split-command_line}
use ram_link.Local.Api.{
  Local, pack_size, memory_read, memory_write, receive_some, receive_bytes, serve_read, serve_write,
  transfer, dispatch, handle, client,
}

filled : (t : Text) → split t ≢ [] → is_empty t ≡ false
unfolding split_from
filled [] h = absurd (h refl)
filled (c ∷ cs) h = refl

module _ {Net : Type 0} (host : Host Net) (unicode : Unicode)
    (status_text : RemoteMemory → ℕ → Bytes) (message : Error → Bytes) where
  -- The session when the first bytes were read.
  abbrev pub heard : Chunks → Bytes → Local Net → Local Net
  heard more output s = record s {
    conn = record { input = more; output = s.conn.output ++ output };
  }

  handle-command_line :
      (c : ℕ) (name : Bytes) (a b : ℕ) (rest : Bytes) (more : Chunks) (s : Local Net)
      → AreAscii (c ∷ name)
      → IsWord (c ∷ name)
      → recv 4096 s.conn.input ≡ (command_line (c ∷ name) a b ++ rest, more)
      → handle host unicode status_text message s
        ≡ dispatch host unicode status_text message
            ((c ∷ name) ∷ (decimal a ∷ (decimal b ∷ split (decode rest))))
            (record s { conn = record { input = more; output = s.conn.output } })
  unfolding handle receive_some
  handle-command_line c name a b rest more s ascii word came =
      let line = strip (decode (command_line (c ∷ name) a b ++ rest)) in
      let words : split line ≡ (c ∷ name) ∷ (decimal a ∷ (decimal b ∷ split (decode rest))) =
        split-command_line c name a b rest ascii word in
      let full : is_empty line ≡ false = filled line (λ none. cc (words, none)) in
      let respond = dispatch host unicode status_text message in
      let after : Local Net = record s { conn = record { input = more; output = s.conn.output } } in
      ap
        (λ (x : Bytes × Chunks).
          (if is_empty (strip (decode x.0)) then pure tt else respond (split (strip (decode x.0))))
            (record s { conn = record { input = x.1; output = s.conn.output } }))
        came
      ∙ ap (λ (empty : Bool). (if empty then pure tt else respond (split line)) after) full
      ∙ ap (λ (ws : List Text). respond ws after) words

  client-ok :
      (s s' : Local Net)
      → handle host unicode status_text message s ≡ (ok tt, s')
      → client host unicode status_text message s ≡ (ok tt, s')
  unfolding client
  client-ok s s' handled = ground (arith, handled)

  dispatch-read :
      (arguments : List Text)
      → dispatch host unicode status_text message (codes "READ" ∷ arguments)
        ≡ transfer host unicode status_text message (codes "READ") arguments
  unfolding dispatch upper bytes_eq
  dispatch-read arguments = refl

  dispatch-write :
      (arguments : List Text)
      → dispatch host unicode status_text message (codes "WRITE" ∷ arguments)
        ≡ transfer host unicode status_text message (codes "WRITE") arguments
  unfolding dispatch upper bytes_eq
  dispatch-write arguments = refl

  transfer-many :
      (command a b : Text) (ws : List Text) (s : Local Net)
      → ws ≢ []
      → transfer host unicode status_text message command (a ∷ (b ∷ ws)) s
        ≡ sendall (codes "ERROR invalid command\n") s
  unfolding transfer
  transfer-many command a b [] s more = absurd (more refl)
  transfer-many command a b (w ∷ ws) s more = refl

  -- A WRITE line that comes together with a byte of its payload that is no space is answered as an invalid command.
  pub write_together :
      (offset size : ℕ) (before after : Bytes) (b : ℕ) (more : Chunks) (s : Local Net)
      → b < 128
      → is_space b ≡ false
      → recv 4096 s.conn.input
        ≡ (command_line (codes "WRITE") offset size ++ (before ++ (b ∷ after)), more)
      → client host unicode status_text message s
        ≡ (ok tt, heard more (codes "ERROR invalid command\n") s)
  unfolding sendall is_space
  write_together offset size before after b more s ascii visible came =
      let rest = before ++ (b ∷ after) in
      let (t, u, e) = decode-visible before b after ascii in
      let words : split (decode rest) ≢ [] =
        subst (λ (x : Text). split x ≢ []) (sym e) (split_from-some t [] u b visible) in
      let after_line : Local Net = record s {
        conn = record { input = more; output = s.conn.output };
      } in
      let handled =
        handle-command_line b'W' (b'R' ∷ (b'I' ∷ (b'T' ∷ (b'E' ∷ [])))) offset size rest more s
          (omega arith) (refl, (refl, (refl, (refl, (refl, tt))))) came in
      let answered : handle host unicode status_text message s
          ≡ (ok tt, heard more (codes "ERROR invalid command\n") s) =
        handled
        ∙ ap (λ (m : Exec (Local Net) (Unit {0})). m after_line)
            (dispatch-write (decimal offset ∷ (decimal size ∷ split (decode rest))))
        ∙ transfer-many (codes "WRITE") (decimal offset) (decimal size) (split (decode rest))
            after_line words in
      client-ok s (heard more (codes "ERROR invalid command\n") s) answered

  -- What `serve_read` does with printed numbers.
  serve_read-ok :
      (offset size : ℕ) (bytes : Bytes) (s : Local Net) (server : Service Net)
      → size ≤ max_block
      → read host offset size s.server ≡ (ok bytes, server)
      → length bytes ≡ size
      → serve_read host unicode status_text message (decimal offset) (decimal size) s ≡ (
        ok tt,
        record {
          server = server;
          conn = record {
            input = s.conn.input;
            output = s.conn.output ++ (be_bytes 4 size ++ bytes);
          };
        },
      )
  unfolding serve_read memory_read pack_size sendall
  serve_read-ok offset size bytes s server short carried sized =
      ground (arith, int-decimal unicode offset, int-decimal unicode size, carried, sized)

  -- A line that comes with nothing behind it.
  handle_alone :
      (c : ℕ) (name : Bytes) (a b : ℕ) (more : Chunks) (s : Local Net)
      → AreAscii (c ∷ name)
      → IsWord (c ∷ name)
      → recv 4096 s.conn.input ≡ (command_line (c ∷ name) a b, more)
      → handle host unicode status_text message s
        ≡ dispatch host unicode status_text message
            ((c ∷ name) ∷ (decimal a ∷ (decimal b ∷ [])))
            (record s { conn = record { input = more; output = s.conn.output } })
  unfolding split_from decode_from
  handle_alone c name a b more s ascii word came =
      handle-command_line c name a b [] more s ascii word (
        came ∙ ap (λ (line : Bytes). (line, more)) (sym (append-nil (command_line (c ∷ name) a b))))

  transfer-read :
      (a b : Text)
      → transfer host unicode status_text message (codes "READ") (a ∷ (b ∷ []))
        ≡ serve_read host unicode status_text message a b
  unfolding transfer bytes_eq
  transfer-read a b = refl

  transfer-write :
      (a b : Text)
      → transfer host unicode status_text message (codes "WRITE") (a ∷ (b ∷ []))
        ≡ serve_write host unicode status_text message a b
  unfolding transfer bytes_eq
  transfer-write a b = refl

  -- A line READ that a caller prints for an offset and a length of at most MAX_TRANSFER, and that comes in one piece, is read
  -- as these two numbers: the service answers with the length and the bytes that the memory's `read` returns for them.
  pub read_answered :
      (offset size : ℕ) (bytes : Bytes) (more : Chunks) (s : Local Net) (server : Service Net)
      → size ≤ max_block
      → read host offset size s.server ≡ (ok bytes, server)
      → length bytes ≡ size
      → recv 4096 s.conn.input ≡ (command_line (codes "READ") offset size, more)
      → client host unicode status_text message s ≡ (
        ok tt,
        record {
          server = server;
          conn = record { input = more; output = s.conn.output ++ (be_bytes 4 size ++ bytes) };
        },
      )
  unfolding is_space
  read_answered offset size bytes more s server short carried sized came =
      let after_line : Local Net = record s {
        conn = record { input = more; output = s.conn.output };
      } in
      client-ok s _ (
        handle_alone b'R' (b'E' ∷ (b'A' ∷ (b'D' ∷ []))) offset size more s (omega arith)
          (refl, (refl, (refl, (refl, tt)))) came
        ∙ ap (λ (m : Exec (Local Net) (Unit {0})). m after_line)
            (dispatch-read (decimal offset ∷ (decimal size ∷ []))
              ∙ transfer-read (decimal offset) (decimal size))
        ∙ serve_read-ok offset size bytes after_line server short carried sized)

  serve_write-ok :
      (offset size : ℕ) (bytes : Bytes) (more : Chunks) (s : Local Net) (server : Service Net)
      → size ≤ max_block
      → recv_all size s.conn.input ≡ (ok bytes, more)
      → write host offset bytes s.server ≡ (ok tt, server)
      → serve_write host unicode status_text message (decimal offset) (decimal size) s ≡ (
        ok tt,
        record {
          server = server;
          conn = record { input = more; output = s.conn.output ++ codes "OK\n" };
        },
      )
  unfolding serve_write memory_write receive_bytes receive sendall
  serve_write-ok offset size bytes more s server short came carried =
      ground (arith, int-decimal unicode offset, int-decimal unicode size, came, carried)

  -- A WRITE line that comes in one piece, apart from its payload, of a write that the memory carries out, is
  -- answered with OK.
  pub write_answered :
      (offset size : ℕ) (bytes : Bytes) (more rest : Chunks) (s : Local Net) (server : Service Net)
      → size ≤ max_block
      → recv 4096 s.conn.input ≡ (command_line (codes "WRITE") offset size, more)
      → recv_all size more ≡ (ok bytes, rest)
      → write host offset bytes s.server ≡ (ok tt, server)
      → client host unicode status_text message s ≡ (
        ok tt,
        record {
          server = server;
          conn = record { input = rest; output = s.conn.output ++ codes "OK\n" };
        },
      )
  unfolding is_space
  write_answered offset size bytes more rest s server short came paid carried =
      let after_line : Local Net = record s {
        conn = record { input = more; output = s.conn.output };
      } in
      client-ok s _ (
        handle_alone b'W' (b'R' ∷ (b'I' ∷ (b'T' ∷ (b'E' ∷ [])))) offset size more s (omega arith)
          (refl, (refl, (refl, (refl, (refl, tt))))) came
        ∙ ap (λ (m : Exec (Local Net) (Unit {0})). m after_line)
            (dispatch-write (decimal offset ∷ (decimal size ∷ []))
              ∙ transfer-write (decimal offset) (decimal size))
        ∙ serve_write-ok offset size bytes rest after_line server short paid carried)

  serve_write-err :
      (offset size : ℕ) (bytes : Bytes) (e : Error) (more : Chunks) (s : Local Net)
      (server : Service Net)
      → size ≤ max_block
      → recv_all size s.conn.input ≡ (ok bytes, more)
      → write host offset bytes s.server ≡ (err e, server)
      → serve_write host unicode status_text message (decimal offset) (decimal size) s ≡ (
        err e,
        record { server = server; conn = record { input = more; output = s.conn.output } },
      )
  unfolding serve_write memory_write receive_bytes receive
  serve_write-err offset size bytes e more s server short came failed =
      ground (arith, int-decimal unicode offset, int-decimal unicode size, came, failed)

  client-err :
      (s s' : Local Net) (e : Error)
      → handle host unicode status_text message s ≡ (err e, s')
      → client host unicode status_text message s
        ≡ sendall (codes "ERROR " ++ (message e ++ codes "\n")) s'
  unfolding client
  client-err s s' e failed = ground (arith, failed)

  -- The same WRITE, where the memory raises, is answered with the exception's text.
  pub write_failed :
      (offset size : ℕ) (bytes : Bytes) (e : Error) (more rest : Chunks) (s : Local Net)
      (server : Service Net)
      → size ≤ max_block
      → recv 4096 s.conn.input ≡ (command_line (codes "WRITE") offset size, more)
      → recv_all size more ≡ (ok bytes, rest)
      → write host offset bytes s.server ≡ (err e, server)
      → client host unicode status_text message s ≡ (
        ok tt,
        record {
          server = server;
          conn = record {
            input = rest;
            output = s.conn.output ++ (codes "ERROR " ++ (message e ++ codes "\n"));
          };
        },
      )
  unfolding is_space sendall
  write_failed offset size bytes e more rest s server short came paid failed =
      let after_line : Local Net = record s {
        conn = record { input = more; output = s.conn.output };
      } in
      client-err s _ e (
        handle_alone b'W' (b'R' ∷ (b'I' ∷ (b'T' ∷ (b'E' ∷ [])))) offset size more s (omega arith)
          (refl, (refl, (refl, (refl, (refl, tt))))) came
        ∙ ap (λ (m : Exec (Local Net) (Unit {0})). m after_line)
            (dispatch-write (decimal offset ∷ (decimal size ∷ []))
              ∙ transfer-write (decimal offset) (decimal size))
        ∙ serve_write-err offset size bytes e rest after_line server short paid failed)
