-- ===== src/EndToEnd/Link.antt =====
-- Sockets that lead to the phone's server (android/termux/server.py), for one client. What the client sent is
-- handled when the client reads, request by request, and the reply waits to be read.
use ram_link.Base.{
  ℕ, ◌+◌, true, false, Bool, [], ◌++◌, if◌then◌else◌, ◌==◌, length, take, drop, Bytes, Result, ok,
  err, stuck, os_error,
}
use ram_link.Wire.{Chunks, flatten}
use ram_link.Server.Leases.{RamLinkServer}
use ram_link.Server.Handle.{Clock, request}
use ram_link.Client.Host.{Host}

pub record Link : Type 0 where
  pub server : RamLinkServer
  pub inbox : Bytes
  pub outbox : Bytes
  pub is_open : Bool
  pub rounds : ℕ

-- The network's cuts, and the server's clock in each round.
module _ (cut : Bytes → Chunks) (clock : ℕ → Clock) where
  -- The server handles the request that came; an exception closes its connection.
  unfoldable pub answer : Link → Link
  answer l =
      let (r, s) =
        request (clock l.rounds)
          (record { server = l.server; conn = record { input = cut l.inbox; output = [] } }) in
      record {
        server = s.server;
        inbox = flatten s.conn.input;
        outbox = s.conn.output;
        is_open = elim r [ ok _ ↦ true | err _ ↦ false | stuck ↦ false ];
        rounds = l.rounds + 1;
      }

  -- At most `n` bytes of those that wait.
  abbrev pub deliver : ℕ → Link → Result Bytes × Link
  deliver n l = (ok (take n l.outbox), record l { outbox = drop n l.outbox })

  -- A read with nothing to come times out.
  unfoldable pub receive : ℕ → Link → Result Bytes × Link
  unfolding answer
  receive n l =
      if length l.outbox == 0
      then (if length l.inbox == 0
          then (if l.is_open then (err os_error, l) else (ok [], l))
          else deliver n (answer l))
      else deliver n l

  unfoldable pub link_host : Host Link
  unfolding receive
  link_host = record {
    connect = λ l. (ok 0, record l { inbox = []; outbox = []; is_open = true });
    sendall = λ sock bytes l.
        if l.is_open then (ok tt, record l { inbox = l.inbox ++ bytes }) else (err os_error, l);
    recv = λ sock n l. receive n l;
    close = λ sock l. (ok tt, record l { is_open = false });
    time = λ l. (l.rounds, l);
  }
