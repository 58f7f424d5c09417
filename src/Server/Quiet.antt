-- ===== src/Server/Quiet.antt =====
-- The calls that leave `RAMLinkServer` as it was, and the outcomes of `get_lease` (android/termux/server.py).
use ram_link.Base.{
  ℕ, ◌≤◌, ◌<◌, ◌≡◌, refl, some, none, lt→ltb, ltb-false, lookup, erase, length, Result, ok, err,
  stuck, value_error,
}
use ram_link.Exec.{◌>>◌, lift}
use ram_link.Exec.Triple.{Ends, Triple}
use ram_link.Wire.Op
use ram_link.Wire.Header.{pack_lease_reply}
use ram_link.Server.Leases.{Lease, RamLinkServer, get_lease}
use ram_link.Connection.{sendall, send_header}
use ram_link.Connection.Quiet.{IsQuiet, >>=-IsQuiet, reply-IsQuiet}
use ram_link.Server.Session.{Session, Action}
use ram_link.Server.Handle.{send_lease}
use ram_link.Server.Invariant.{IsSound}

abbrev pub At : ℕ → Session → Type 0
At now s = IsSound now s.server

pub send_lease-IsQuiet : (lease_id offset size : ℕ) → IsQuiet (send_lease lease_id offset size)
unfolding send_lease
send_lease-IsQuiet lease_id offset size =
    >>=-IsQuiet (lift (pack_lease_reply lease_id offset size))
      (λ payload. send_header Op.borrow lease_id (length payload) >> sendall payload) (λ s. refl)
      (λ payload. reply-IsQuiet Op.borrow lease_id (length payload) payload)

pub IsQuiet-Ends :
    {A : Type 0} (now : ℕ) (m : Action A) → IsQuiet m → Triple (At now) m (λ _. At now) (At now)
IsQuiet-Ends {A} now m q s h = go (m s) (q s)
  where
    go : (r : Result A × Session) → r.1.server ≡ s.server → Ends (λ _. At now) (At now) r
    go (ok a, s') e = rw e h
    go (err x, s') e = rw e h
    go (stuck, s') e = rw e h

module _ (now lease_id : ℕ) (s : RamLinkServer) where
  pub get_lease_missing :
      lookup lease_id s.leases ≡ none → get_lease now lease_id s ≡ (err value_error, s)
  unfolding get_lease
  get_lease_missing e = rw (e, get_lease)

  pub get_lease_alive :
      (lease : Lease)
      → lookup lease_id s.leases ≡ some lease
      → now < lease.expires_at
      → get_lease now lease_id s ≡ (ok lease, s)
  unfolding get_lease
  get_lease_alive lease e a = rw (e, get_lease) (rw (lt→ltb now lease.expires_at a))

  pub get_lease_expired :
      (lease : Lease)
      → lookup lease_id s.leases ≡ some lease
      → lease.expires_at ≤ now
      → get_lease now lease_id s ≡ (err value_error, record s { leases = erase lease_id s.leases })
  unfolding get_lease
  get_lease_expired lease e a = rw (e, get_lease) (rw (ltb-false now lease.expires_at a))
