-- ===== src/Provider/Invariant.antt =====
-- Every request keeps the invariant of `RAMProvider` (clients/windows/ramlink_memory_provider.py), also one that
-- raises.
use ram_link.Base.{
  ℕ, zero, suc, ◌+◌, inl, inr, Result-cases, arith, not, ◌++◌, ◌/◌, decimal, length, bytes_eq,
  Bytes, value_error, codes,
}
use ram_link.Exec.{◌>>=◌, ◌>>◌, lift, raise_if}
use ram_link.Exec.Triple.{Ends-state}
use ram_link.Wire.Op
use ram_link.Wire.Header.{magic, header_size, unpack_header}
use ram_link.Connection.{Connected, receive, sendall, send_header}
use ram_link.Connection.Quiet.{receive-IsQuiet, reply-IsQuiet}
use ram_link.Server.Handle.{Clock}
use ram_link.Provider.Defs.{RamProvider, Action, cleanup, ping, info, handle, request, client}
use ram_link.Provider.Table.{IsSound, cleanup-IsSound}
use ram_link.Provider.Steps.{
  Holds, Keeps, >>=-Keeps, quiet-Keeps, guarded-Keeps, borrow-Keeps, keep-Keeps, release-Keeps,
  transfer-Keeps,
}

-- The text of INFO
abbrev info_body : Clock → RamProvider → Bytes
info_body clock s =
    codes
      "RAM-LINK\nversion=4\nprotocol=RML1\nrole=PROVIDER\nplatform=WINDOWS\ntransport=TCP\nbuffer_bytes="
    ++ (decimal s.size
        ++ (codes "\nbuffer_mib="
            ++ (decimal (s.size / 1024 / 1024)
                ++ (codes ".00\nactive_leases="
                    ++ (decimal (length (cleanup (clock 0) s).leases)
                        ++ codes "\nlease_seconds=120\n")))))

info-Keeps : (clock : Clock) → Keeps (info clock)
unfolding info
info-Keeps clock s b =
    quiet-Keeps
      (send_header Op.info 0 (length (info_body clock s.server))
        >> sendall (info_body clock s.server))
      (reply-IsQuiet Op.info 0 (length (info_body clock s.server)) (info_body clock s.server))
      (record s { server = cleanup (clock 0) s.server }) (cleanup-IsSound (clock 0) s.server b)

ping-Keeps : Keeps ping
unfolding ping
ping-Keeps =
    quiet-Keeps (send_header Op.ping 0 4 >> sendall (codes "PONG"))
      (reply-IsQuiet Op.ping 0 4 (codes "PONG"))

-- Any operation, with any numbers.
handle-Keeps : (clock : Clock) (op offset size : ℕ) → Keeps (handle clock op offset size)
unfolding handle
handle-Keeps clock op offset size s b = ground (
  arith,
  info-Keeps clock s b,
  ping-Keeps s b,
  borrow-Keeps clock size s b,
  release-Keeps offset s b,
  keep-Keeps clock offset s b,
  transfer-Keeps clock op offset size s b,
  b,
)

-- `request`, behind the read of the header.
abbrev dispatch : Clock → Bytes → Action (Unit {0})
dispatch clock header = do
  h ← lift (unpack_header header)
  raise_if (not (bytes_eq h.signature magic)) value_error
  handle clock h.op h.offset h.size

dispatch-Keeps : (clock : Clock) (header : Bytes) → Keeps (dispatch clock header)
dispatch-Keeps clock header s b = elim (Result-cases (unpack_header header)) [
  | inl (h, e) ↦ rw e (
      guarded-Keeps (not (bytes_eq h.signature magic)) value_error
        (handle clock h.op h.offset h.size) (λ _. handle-Keeps clock h.op h.offset h.size) s b)
  | inr (inl (x, e)) ↦ rw e b
  | inr (inr e) ↦ rw e b
]

request-Keeps : (clock : Clock) → Keeps (request clock)
unfolding request
request-Keeps clock =
    >>=-Keeps (receive header_size) (dispatch clock)
      (quiet-Keeps (receive header_size) (receive-IsQuiet header_size)) (dispatch-Keeps clock)

-- Whatever bytes a client sends, in whatever pieces, wherever it stops and whatever the clock shows, the provider that its
-- connection leaves behind has leases that do not meet and lie in the buffer, and its buffer keeps its size.
pub provider_client-IsSound :
    (fuel : ℕ) (clock : ℕ → Clock) (round : ℕ) (s : Connected RamProvider)
    → IsSound s.server
    → IsSound (client fuel clock round s).1.server
unfolding client
provider_client-IsSound zero clock round s b = b
provider_client-IsSound (suc fuel) clock round s b =
    let s' : Connected RamProvider = (request (clock round) s).1 in
    let b' : Holds s' =
      Ends-state Holds (request (clock round) s) (request-Keeps (clock round) s b) in
    elim (Result-cases (request (clock round) s).0) [
      | inl (x, e) ↦ rw (e, client) (provider_client-IsSound fuel clock (round + 1) s' b')
      | inr (inl (x, e)) ↦ rw (e, client) b'
      | inr (inr e) ↦ rw (e, client) b'
    ]
