-- ===== src/Service/Requests.antt =====
-- What a request of `RemoteMemory` does when it fails once.
use ram_link.Base.{
  ℕ, suc, ◌++◌, ◌+◌, ◌-◌, min, ◌≢◌, ◌≡◌, some, none, [], arith, length, Bytes, Error, ok, err,
}
use ram_link.Wire.{max_block}
use ram_link.Wire.Op
use ram_link.Client.Host.{Host}
use ram_link.Client.Request.{Reply, rml_request}
use ram_link.Service.Memory.{
  Service, Borrowed, borrow_new_socket, request_here, mark_disconnected, reconnect,
  request_with_reconnect, read_rounds,
}

module _ {Net : Type 0} (host : Host Net) where
  -- A round of `read` whose request succeeds.
  pub read_step :
      (fuel pos left : ℕ) (output : Bytes) (s : Service Net) (n : ℕ) (reply : Reply)
      (s' : Service Net)
      → left ≢ 0
      → n ≡ min max_block left
      → request_with_reconnect host Op.read (s.memory.base_offset + pos) n [] s ≡ (ok reply, s')
      → length reply.body ≡ n
      → read_rounds host (suc fuel) pos left output s
        ≡ read_rounds host fuel (pos + n) (left - n) (output ++ reply.body) s'
  unfolding read_rounds
  read_step fuel pos left output s n reply s' more is_min sent sized = ground (arith, sent, sized)

module _ {Net : Type 0} (host : Host Net) (s : Service Net) (sock : ℕ)
    (connected : s.memory.sock ≡ some sock) (op offset size : ℕ) (payload : Bytes) where
  -- A request that succeeds changes nothing but the network.
  pub request_succeeds :
      (reply : Reply) (net : Net)
      → rml_request host sock op offset size payload s.net ≡ (ok reply, net)
      → request_with_reconnect host op offset size payload s ≡ (ok reply, record s { net = net })
  unfolding request_with_reconnect request_here
  request_succeeds reply net sent = ground (arith, connected, sent)

  -- The state after a reconnection.
  abbrev pub reconnected : Borrowed → ℕ → Net → Service Net
  reconnected b t net = record {
    memory = record s.memory {
      sock = some b.sock;
      lease_id = b.lease_id;
      base_offset = b.base_offset;
      length = b.length;
      last_keepalive = some t;
      last_error = none;
      reconnects = s.memory.reconnects + 1;
    };
    net = net;
  }

  -- A request that fails is sent again on a new connection, with the offset that it was called with.
  pub request_again :
      (e : Error) (b : Borrowed) (t : ℕ) (net net' net'' net3 : Net)
      → rml_request host sock op offset size payload s.net ≡ (err e, net)
      → host.close sock net ≡ (ok tt, net')
      → borrow_new_socket host s.memory.megabytes net' ≡ (ok b, net'')
      → host.time net'' ≡ (t, net3)
      → request_with_reconnect host op offset size payload s
        ≡ request_here host op offset size payload (reconnected b t net3)
  unfolding request_with_reconnect request_here mark_disconnected reconnect
  request_again e b t net net' net'' net3 failed shut borrowed clock =
      ground (arith, connected, failed, shut, borrowed, clock)
