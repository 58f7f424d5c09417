-- ===== src/Server/Race.antt =====
-- `borrow` (android/termux/server.py) in threads that run in parallel. It holds the lease lock while it searches and again
-- while it registers the lease, and not in between, so another thread may have its turn there.
use ram_link.Base.{
  ℕ, ◌≡◌, Bool, true, false, List, [], ◌∷◌, inl, inr, arith, ltb, leb, ◌||◌, replicate, Result, ok,
  err, stuck, value_error, runtime_error, Bool-cases, Option-cases,
}
use ram_link.Exec.{◌>>=◌, ◌>>◌, gets, raise_if, or_raise}
use ram_link.Server.Leases.{RamLinkServer, store, cleanup_expired, find_free_region, register_lease}
use ram_link.Connection.{Conn, update, on_server}
use ram_link.Server.Session.{Session, Action}
use ram_link.Server.Handle.{Clock, round_up, borrow, send_lease}

-- `borrow` up to the search
unfoldable pub search : Clock → ℕ → Action ℕ
unfolding cleanup_expired
search clock requested = do
  update (cleanup_expired (clock 0))
  let size = round_up requested
  capacity ← gets (λ s. s.server.size)
  raise_if (leb size 0 || ltb capacity size) value_error
  found ← gets (λ s. find_free_region (clock 1) size s.server)
  or_raise found runtime_error

-- `borrow` from the registration on
unfoldable pub grant : Clock → ℕ → ℕ → Action (Unit {0})
unfolding register_lease store
grant clock requested offset = do
  let size = round_up requested
  lease_id ← on_server (λ s. let (i, s') = register_lease (clock 2) offset size s in (ok i, s'))
  update (store offset size (replicate size 0))
  send_lease lease_id offset size

pub data Stage : Type 0 where
  searching : Stage
  found_at : ℕ → Stage
  finished : Result (Unit {0}) → Stage

-- A thread that borrows for its connection.
pub record Borrower : Type 0 where
  pub clock : Clock
  pub requested : ℕ
  pub conn : Conn
  pub stage : Stage

-- Where the search has led.
abbrev pub after_search : Result ℕ → Stage
after_search (ok offset) = found_at offset
after_search (err e) = finished (err e)
after_search stuck = finished stuck

-- A thread does its next part.
unfoldable pub advance : Borrower → RamLinkServer → Borrower × RamLinkServer
unfolding search grant
advance b server = elim b.stage [
  | searching ↦
      let (r, s) = search b.clock b.requested (record { server = server; conn = b.conn }) in
      (record b { conn = s.conn; stage = after_search r }, s.server)
  | found_at offset ↦
      let (r, s) = grant b.clock b.requested offset (record { server = server; conn = b.conn }) in
      (record b { conn = s.conn; stage = finished r }, s.server)
  | finished r ↦ (b, server)
]

-- Two threads at one server.
pub record Race : Type 0 where
  pub server : RamLinkServer
  pub one : Borrower
  pub other : Borrower

unfoldable pub turn : Bool → Race → Race
unfolding advance
turn true race =
    let (b, server) = advance race.one race.server in record race { server = server; one = b }
turn false race =
    let (b, server) = advance race.other race.server in record race { server = server; other = b }

-- Turns in any order: `true` is a turn of the first thread.
unfoldable pub run : List Bool → Race → Race
unfolding turn
run [] race = race
run (who ∷ order) race = run order (turn who race)

-- The two parts in turn are `borrow`.
pub search-grant :
    (clock : Clock) (requested : ℕ) (s : Session)
    → borrow clock requested s ≡ (search clock requested >>= grant clock requested) s
unfolding borrow search grant
search-grant clock requested s =
    let size = round_up requested in
    let after = cleanup_expired (clock 0) s.server in
    elim (Bool-cases (leb size 0 || ltb s.server.size size)) [
      | inl refused ↦ ground (arith, refused)
      | inr valid ↦ elim (Option-cases (find_free_region (clock 1) size after)) [
        | inl full ↦ ground (arith, valid, full)
        | inr (offset, found) ↦ ground (arith, valid, found)
      ]
    ]

module _ (clock : Clock) (requested : ℕ) where
  -- A thread at a stage.
  abbrev pub borrower : Conn → Stage → Borrower
  borrower conn stage = record { clock = clock; requested = requested; conn = conn; stage = stage }
