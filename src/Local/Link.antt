-- ===== src/Local/Link.antt =====
-- Connections that lead to the local service, one after the other. The service handles what was sent when the caller
-- first reads, and closes the connection.
use ram_link.Base.{
  ℕ, Bool, true, false, [], ◌++◌, if◌then◌else◌, take, drop, Bytes, Error, Result, ok,
}
use ram_link.Wire.{Chunks}
use ram_link.Client.Host.{Host}
use ram_link.Service.Memory.{RemoteMemory, Service}
use ram_link.Local.Text.{Unicode}
use ram_link.Local.Api.{client}

pub record LocalLink (Net : Type 0) : Type 0 where
  pub service : Service Net
  pub inbox : Bytes
  pub outbox : Bytes
  pub is_served : Bool

module _ {Net : Type 0} (host : Host Net) (unicode : Unicode)
    (status_text : RemoteMemory → ℕ → Bytes) (message : Error → Bytes) (cut : Bytes → Chunks) where
  unfoldable pub serve : LocalLink Net → LocalLink Net
  serve l =
      let (r, s) =
        client host unicode status_text message
          (record { server = l.service; conn = record { input = cut l.inbox; output = [] } }) in
      record { service = s.server; inbox = []; outbox = s.conn.output; is_served = true }

  abbrev pub deliver : ℕ → LocalLink Net → Result Bytes × LocalLink Net
  deliver n l = (ok (take n l.outbox), record l { outbox = drop n l.outbox })

  unfoldable pub local_host : Host (LocalLink Net)
  unfolding serve
  local_host = record {
    connect = λ l. (ok 0, record l { inbox = []; outbox = []; is_served = false });
    sendall = λ sock bytes l. (ok tt, record l { inbox = l.inbox ++ bytes });
    recv = λ sock n l. deliver n (if l.is_served then l else serve l);
    close = λ sock l. (ok tt, l);
    time = λ l. (0, l);
  }
