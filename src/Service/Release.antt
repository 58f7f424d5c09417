-- ===== src/Service/Release.antt =====
-- `release` of `RemoteMemory`.
use ram_link.Base.{ℕ, ◌≡◌, ◌≢◌, refl, none, some, arith, [], Result, ok, err, stuck}
use ram_link.Wire.Op
use ram_link.Client.Host.{Host}
use ram_link.Client.Request.{Reply, rml_request}
use ram_link.Service.Memory.{Service, release}

module _ {Net : Type 0} (host : Host Net) where
  -- `release` of a memory that holds a socket and a lease gives up both and closes the socket, also where the request
  -- to the server fails; it raises only what `close` raises.
  pub release_closes :
      (s : Service Net) (sock : ℕ) (asked : Result Reply) (closed : Result (Unit {0}))
      (net net' : Net)
      → s.memory.sock ≡ some sock
      → s.memory.lease_id ≢ 0
      → rml_request host sock Op.release s.memory.lease_id 0 [] s.net ≡ (asked, net)
      → asked ≢ stuck
      → host.close sock net ≡ (closed, net')
      → release host s
        ≡ (closed, record { memory = record s.memory { sock = none; lease_id = 0 }; net = net' })
  unfolding release
  release_closes s sock (ok reply) (ok u) net net' connected held sent ends shut =
      ground (arith, connected, sent, shut)
  release_closes s sock (ok reply) (err e) net net' connected held sent ends shut =
      ground (arith, connected, sent, shut)
  release_closes s sock (ok reply) stuck net net' connected held sent ends shut =
      ground (arith, connected, sent, shut)
  release_closes s sock (err x) (ok u) net net' connected held sent ends shut =
      ground (arith, connected, sent, shut)
  release_closes s sock (err x) (err e) net net' connected held sent ends shut =
      ground (arith, connected, sent, shut)
  release_closes s sock (err x) stuck net net' connected held sent ends shut =
      ground (arith, connected, sent, shut)
  release_closes s sock stuck closed net net' connected held sent ends shut = absurd (ends refl)
