-- ===== src/Client/Request.antt =====
-- `rml_request` (clients/windows/ramlink_memory_service.py).
use ram_link.Base.{ℕ, not, ◌==◌, if◌then◌else◌, [], length, bytes_eq, Bytes, value_error}
use ram_link.Exec.{Exec, ◌>>=◌, ◌>>◌, pure, raise_if, lift}
use ram_link.Wire.Header.{Header, pack_header, unpack_header, header_size, magic}
use ram_link.Client.Host.{Host, recv_all}

pub record Reply : Type 0 where
  pub op : ℕ
  pub offset : ℕ
  pub body : Bytes

module _ {Net : Type 0} (host : Host Net) where
  -- The body of a reply whose header has come
  unfoldable pub body_of : ℕ → Header → Exec Net Reply
  body_of sock h = do
    raise_if (not (bytes_eq h.signature magic)) value_error
    body ← if h.size == 0 then pure [] else recv_all host sock h.size
    pure (record { op = h.op; offset = h.offset; body = body })

  -- What `rml_request` reads
  unfoldable pub reply_from : ℕ → Exec Net Reply
  unfolding body_of
  reply_from sock = do
    answer ← recv_all host sock header_size
    h ← lift (unpack_header answer)
    body_of sock h

  unfoldable pub rml_request : ℕ → ℕ → ℕ → ℕ → Bytes → Exec Net Reply
  unfolding reply_from
  rml_request sock op offset size payload = do
    header ← lift (pack_header op offset size)
    host.sendall sock header
    if length payload == 0 then pure tt else host.sendall sock payload
    reply_from sock
