-- ===== src/EndToEnd/Exchange.antt =====
-- One request of a client over the link: when the server's reply is read in full.
use mathlib.Core.List.{append-nil}
use ram_link.Base.{
  ℕ, ◌∷◌, ◌+◌, ◌-◌, ◌^◌, ◌≤◌, ◌<◌, min, ◌≡◌, refl, ◌∙◌, ap, subst, [], ◌++◌, true, arith, ◌==◌,
  ◌&&◌, not, false, if◌then◌else◌, length, take, drop, take_whole, drop_whole, drop_all,
  take_of_length-le, bytes_eq, Bytes, ok,
}
use ram_link.Exec.{pure}
use ram_link.Wire.{Chunks, flatten, AreNonempty, max_block}
use ram_link.Wire.Header.{header_size, magic}
use ram_link.Wire.RoundTrip.{pack_header_eq}
use ram_link.Server.Leases.{RamLinkServer}
use ram_link.Server.Handle.{Clock, request}
use ram_link.Server.Session.{Session}
use ram_link.Server.Transfers.{header_bytes}
use ram_link.Client.Host.{Host, recv_all}
use ram_link.Client.Request.{rml_request}
use ram_link.Client.Laws.{recv_all-whole}
use ram_link.Client.Desktop.{requests-ok}
use ram_link.Client.Desktop as Desktop
use ram_link.Wire.Op
use ram_link.EndToEnd.Serve.{length-header_bytes, unpack_bytes}
use ram_link.EndToEnd.Link.{Link, answer, receive, link_host}

-- Between two requests the connection is up, and nothing waits on it.
pub record IsIdle (l : Link) : Type 0 where
  pub up : l.is_open ≡ true
  pub heard : l.inbox ≡ []
  pub told : l.outbox ≡ []

module _ (cut : Bytes → Chunks) (clock : ℕ → Clock) (joins : (b : Bytes) → flatten (cut b) ≡ b)
    (pieces : (b : Bytes) → AreNonempty (cut b)) where
  abbrev pub host : Host Link
  host = link_host cut clock

  -- The first read after a request brings its reply.
  receive_reply :
      (n : ℕ) (l l' : Link)
      → l.outbox ≡ []
      → 0 < length l.inbox
      → answer cut clock l ≡ l'
      → receive cut clock n l ≡ (ok (take n l'.outbox), record l' { outbox = drop n l'.outbox })
  unfolding receive
  receive_reply n l l' told came replied = ground (arith, told, came, replied)

  -- A later read brings what still waits.
  receive_rest :
      (n : ℕ) (l : Link)
      → 0 < length l.outbox
      → receive cut clock n l ≡ (ok (take n l.outbox), record l { outbox = drop n l.outbox })
  unfolding receive
  receive_rest n l waits = ground (arith, waits)

  pub came_header :
      (l l' : Link) (header body : Bytes)
      → l.outbox ≡ []
      → 0 < length l.inbox
      → length header ≡ header_size
      → answer cut clock l ≡ l'
      → l'.outbox ≡ header ++ body
      → recv_all host 0 header_size l ≡ (ok header, record l' { outbox = body })
  unfolding link_host
  came_header l l' header body told came sized replied waits =
      recv_all-whole host 0 header_size header l (record l' { outbox = body }) (omega arith)
        (omega arith) sized
        (receive_reply 17 l l' told came replied
          ∙ ap (λ (b : Bytes × Bytes). (ok b.0, record l' { outbox = b.1 }))
              (ap (λ (b : Bytes). (take 17 b, drop 17 b)) waits
                ∙ rw (take_whole 17 header body sized, drop_whole 17 header body sized) refl))

  pub came_body :
      (b : Bytes) (l : Link)
      → length b ≤ max_block
      → (if length b == 0 then pure [] else recv_all host 0 (length b)) (record l { outbox = b })
        ≡ (ok b, record l { outbox = [] })
  unfolding link_host
  came_body [] l short = refl
  came_body (x ∷ xs) l short =
      let b : Bytes = x ∷ xs in
      let all : min max_block (length b - 0) ≡ length b = omega arith in
      let whole : recv_all host 0 (length b) (record l { outbox = b })
          ≡ (ok b, record l { outbox = [] }) =
        recv_all-whole host 0 (length b) b (record l { outbox = b }) (record l { outbox = [] })
          (omega arith) short refl
          (receive_rest (min max_block (length b - 0)) (record l { outbox = b }) (omega arith)
            ∙ ap (λ (c : Bytes × Bytes). (ok c.0, record l { outbox = c.1 }))
                (rw (all, take_of_length-le (length b) b (omega arith), drop_all b) refl)) in
      ground (arith, whole)

  -- What the server makes of a request that it carries out.
  pub answer_ok :
      (l : Link) (server : RamLinkServer) (bytes : Bytes) (s' : Session)
      → request
          (clock l.rounds)
          (record { server = l.server; conn = record { input = cut l.inbox; output = [] } })
        ≡ (ok tt, s')
      → s'.server ≡ server
      → flatten s'.conn.input ≡ []
      → s'.conn.output ≡ bytes
      → answer cut clock l ≡ record {
        server = server;
        inbox = [];
        outbox = bytes;
        is_open = true;
        rounds = l.rounds + 1;
      }
  unfolding answer
  answer_ok l server bytes s' carried same taken out = rw (carried, same, taken, out) refl

  pub sent_payload :
      (payload : Bytes) (l : Link) (before : Bytes)
      → l.is_open ≡ true
      → (if length payload == 0 then pure tt else host.sendall 0 payload)
          (record l { inbox = before })
        ≡ (ok tt, record l { inbox = before ++ payload })
  unfolding link_host
  sent_payload [] l before up = rw (append-nil before) refl
  sent_payload (x ∷ xs) l before up = ground (arith, up)

  module _ (l : Link) (idle : IsIdle l) (op offset size : ℕ) (payload : Bytes) (p : op < 256 ^ 1)
      (q : offset < 256 ^ 8) (r : size ≤ max_block) where
    -- The link when all of a request was sent.
    abbrev pub asked : Link
    asked = record l { inbox = header_bytes op offset size ++ payload }

    -- The whole exchange of one request whose reply is a header and a body.
    pub exchanged :
        (body : Bytes) (server : RamLinkServer)
        → length body ≡ size
        → (op == Op.write && not (size == length payload)) ≡ false
        → answer cut clock asked ≡ record {
          server = server;
          inbox = [];
          outbox = header_bytes op offset size ++ body;
          is_open = true;
          rounds = l.rounds + 1;
        }
        → (rml_request host 0 op offset size payload l ≡ (
          ok (record { op = op; offset = offset; body = body }),
          record {
            server = server;
            inbox = [];
            outbox = [];
            is_open = true;
            rounds = l.rounds + 1;
          },
        ))
          × (Desktop.request host 0 op offset size payload l ≡ (
            ok (record { op = op; offset = offset; body = body }),
            record {
              server = server;
              inbox = [];
              outbox = [];
              is_open = true;
              rounds = l.rounds + 1;
            },
          ))
    unfolding link_host bytes_eq
    exchanged body server sized fits answered =
        let l' : Link = record {
          server = server;
          inbox = [];
          outbox = header_bytes op offset size ++ body;
          is_open = true;
          rounds = l.rounds + 1;
        } in
        requests-ok host 0 op offset size payload (header_bytes op offset size)
          (header_bytes op offset size)
          (record { signature = magic; op = op; offset = offset; size = size }) body l
          (record l { inbox = header_bytes op offset size }) asked (record l' { outbox = body })
          (record l' { outbox = [] }) fits refl (pack_header_eq op offset size p q (omega arith))
          (rw (idle.up, idle.heard) refl)
          (sent_payload payload l (header_bytes op offset size) idle.up)
          (came_header asked l' (header_bytes op offset size) body idle.told (omega arith)
            (length-header_bytes op offset size) answered refl)
          (unpack_bytes op offset size p q (omega arith)) refl
          (subst
            (λ (n : ℕ).
              (if n == 0 then pure [] else recv_all host 0 n) (record l' { outbox = body })
              ≡ (ok body, record l' { outbox = [] }))
            sized (came_body body l' (omega arith)))
