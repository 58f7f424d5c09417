-- ===== src/Provider/Steps.antt =====
-- BORROW, KEEPALIVE, RELEASE, READ and WRITE keep the invariant of `RAMProvider`
-- (clients/windows/ramlink_memory_provider.py), also where they raise.
use ram_link.Base.{
  ℕ, ◌+◌, ◌≤◌, ◌≡◌, if◌then◌else◌, refl, Bool, true, false, Option, none, some, inl, inr,
  Option-cases, Bool-cases, arith, ltb, leb, ◌==◌, ◌||◌, not, length, replicate, length-replicate,
  slice, lookup, insert, erase, contains, Error, Result, ok, err, stuck, value_error, runtime_error,
}
use ram_link.Exec.{◌>>=◌, ◌>>◌, gets, lift, raise_if, or_raise}
use ram_link.Exec.Triple.{Ends, Ends-mono, Triple, >>=-Ends}
use ram_link.Wire.{max_block}
use ram_link.Wire.Op
use ram_link.Wire.Header.{pack_lease_reply}
use ram_link.Connection.{Connected, update, on_server, receive, sendall, send_header}
use ram_link.Connection.Quiet.{
  on_server-Ends, IsQuiet, >>=-IsQuiet, receive-Ends, send_header-IsQuiet, reply-IsQuiet,
}
use ram_link.Server.Leases.{Lease, renew}
use ram_link.Server.Handle.{Clock, round_up}
use ram_link.Provider.Defs.{
  RamProvider, Action, cleanup, free_region, register, put, borrow, get_lease, release, keep,
  holder, transfer,
}
use ram_link.Provider.Isolation.{holder-some}
use ram_link.Provider.Table.{
  values-All, IsSound, cleanup-IsSound, erase-IsSound, put-IsSound, free_region-Apart,
  register-IsSound, renew-IsSound,
}

abbrev pub Holds : Connected RamProvider → Type 0
Holds s = IsSound s.server

-- A call after which the invariant holds, however it ends.
abbrev pub Keeps : {A : Type 0} → Action A → Type 0
Keeps m = Triple Holds m (λ _. Holds) Holds

pub >>=-Keeps :
    {A B : Type 0} (m : Action A) (f : A → Action B)
    → Keeps m
    → ((a : A) → Keeps (f a))
    → Keeps (m >>= f)
>>=-Keeps m f h k s b = >>=-Ends f (λ _. Holds) (λ _. Holds) Holds k m s (h s b)

pub quiet-Keeps : {A : Type 0} (m : Action A) → IsQuiet m → Keeps m
quiet-Keeps {A} m q s b = go (m s) (q s)
  where
    go : (r : Result A × Connected RamProvider) → r.1.server ≡ s.server → Ends (λ _. Holds) Holds r
    go (ok a, s') e = rw e b
    go (err x, s') e = rw e b
    go (stuck, s') e = rw e b

update-Keeps :
    (f : RamProvider → RamProvider)
    → ((s : RamProvider) → IsSound s → IsSound (f s))
    → Keeps (update f)
update-Keeps f h s b = h s.server b

-- A test, and what follows it.
pub guarded-Keeps :
    {A : Type 0} (c : Bool) (e : Error) (m : Action A)
    → (c ≡ false → Keeps m)
    → Keeps (raise_if c e >> m)
guarded-Keeps true e m h s b = b
guarded-Keeps false e m h s b = h refl s b

-- What there is or is not, and what follows it.
or_raise-Ends :
    {A : Type 0} (o : Option A) (e : Error) (f : A → Action (Unit {0})) (s : Connected RamProvider)
    → Holds s
    → ((a : A) → o ≡ some a → Ends (λ _. Holds) Holds (f a s))
    → Ends (λ _. Holds) Holds ((or_raise o e >>= f) s)
or_raise-Ends none e f s b h = b
or_raise-Ends (some a) e f s b h = h a refl

-- What `borrow` does on a region that it has found.
granted :
    (clock : Clock) (size offset : ℕ) (s : Connected RamProvider)
    → free_region size s.server ≡ some offset
    → Holds s
    → IsSound (put offset size (replicate size 0) (register (clock 1) offset size s.server).1)
unfolding register
granted clock size offset s found b =
    let (fits, free) = free_region-Apart size offset s.server found b in
    put-IsSound offset size (replicate size 0) _ (length-replicate size 0) fits
      (register-IsSound (clock 1) offset size s.server fits free b)

-- The reply of `borrow`.
abbrev send_grant : ℕ → ℕ → ℕ → Action (Unit {0})
send_grant lease_id offset size = do
  payload ← lift (pack_lease_reply lease_id offset size)
  send_header Op.borrow lease_id (length payload)
  sendall payload

send_grant-IsQuiet : (lease_id offset size : ℕ) → IsQuiet (send_grant lease_id offset size)
send_grant-IsQuiet lease_id offset size =
    >>=-IsQuiet (lift (pack_lease_reply lease_id offset size)) _ (λ s. refl)
      (λ payload. reply-IsQuiet Op.borrow lease_id (length payload) payload)

-- `borrow`, from the region on.
abbrev grant_found : Clock → ℕ → ℕ → Action (Unit {0})
grant_found clock size offset = do
  lease_id ←
      on_server (λ (s : RamProvider). let (i, s') = register (clock 1) offset size s in (ok i, s'))
  update (put offset size (replicate size 0))
  send_grant lease_id offset size

grant_found-Ends :
    (clock : Clock) (size offset : ℕ) (s : Connected RamProvider)
    → free_region size s.server ≡ some offset
    → Holds s
    → Ends (λ _. Holds) Holds (grant_found clock size offset s)
unfolding register
grant_found-Ends clock size offset s found b =
    quiet-Keeps (send_grant s.server.next_lease_id offset size)
      (send_grant-IsQuiet s.server.next_lease_id offset size)
      (record s {
        server = put offset size (replicate size 0) (register (clock 1) offset size s.server).1;
      })
      (granted clock size offset s found b)

pub borrow-Keeps : (clock : Clock) (requested : ℕ) → Keeps (borrow clock requested)
unfolding borrow
borrow-Keeps clock requested s b =
    let size = round_up requested in
    let s1 : Connected RamProvider = record s { server = cleanup (clock 0) s.server } in
    let b1 : Holds s1 = cleanup-IsSound (clock 0) s.server b in
    elim (Bool-cases (leb size 0 || ltb s.server.size size)) [
      | inl refused ↦ rw refused b
      | inr valid ↦ rw valid (
          or_raise-Ends (free_region size s1.server) runtime_error (grant_found clock size) s1 b1
            (λ offset found. grant_found-Ends clock size offset s1 found b1))
    ]

pub keep-Keeps : (clock : Clock) (lease_id : ℕ) → Keeps (keep clock lease_id)
unfolding keep get_lease
keep-Keeps clock lease_id s b =
    let s1 = cleanup (clock 0) s.server in
    let b1 = cleanup-IsSound (clock 0) s.server b in
    let by =
      on_server-Ends (get_lease (clock 0) lease_id)
        (λ (lease : Lease). (do
          update (λ (s : RamProvider). record s {
            leases = insert lease.lease_id (renew (clock 1) lease) s.leases;
          })
          send_header Op.keepalive lease_id 0))
        (λ _. Holds) Holds s in
    elim (Option-cases (lookup lease_id s1.leases)) [
      | inl missing ↦ by (err value_error, s1) (ground (arith, missing)) b1
      | inr (lease, found) ↦
          by (ok lease, s1) (ground (arith, found))
            (quiet-Keeps (send_header Op.keepalive lease_id 0)
              (send_header-IsQuiet Op.keepalive lease_id 0)
              (record s {
                server = record s1 {
                  leases = insert lease.lease_id (renew (clock 1) lease) s1.leases;
                };
              })
              (renew-IsSound (clock 1) lease_id s1 lease found b1))
    ]

pub release-Keeps : (lease_id : ℕ) → Keeps (release lease_id)
unfolding release
release-Keeps lease_id s b = elim (Bool-cases (not (contains lease_id s.server.leases))) [
  | inl unknown ↦ rw unknown b
  | inr known ↦ rw known (
      quiet-Keeps (send_header Op.release lease_id 0) (send_header-IsQuiet Op.release lease_id 0)
        (record s { server = record s.server { leases = erase lease_id s.server.leases } })
        (erase-IsSound lease_id s.server b))
]

-- `transfer`, from the lease on.
abbrev move : ℕ → ℕ → ℕ → Action (Unit {0})
move op offset size =
    if op == Op.write
    then (do bytes ← receive size; update (put offset size bytes); send_header Op.write offset size)
    else (do
      bytes ← gets (λ s. slice s.server.memory offset (offset + size))
      send_header Op.read offset size
      sendall bytes)

move-Keeps :
    (op offset size : ℕ) (s : Connected RamProvider)
    → offset + size ≤ s.server.size
    → Holds s
    → Ends (λ _. Holds) Holds (move op offset size s)
move-Keeps op offset size s fits b = elim (Bool-cases (op == Op.write)) [
  | inl is_write ↦ rw is_write (
      >>=-Ends (λ bytes. update (put offset size bytes) >> send_header Op.write offset size)
        (λ bytes s'. (length bytes ≡ size) × (s'.server ≡ s.server)) (λ _. Holds) Holds
        (λ bytes s' h.
          quiet-Keeps (send_header Op.write offset size) (send_header-IsQuiet Op.write offset size)
            (record s' { server = put offset size bytes s'.server })
            (put-IsSound offset size bytes s'.server h.0 (rw h.1 fits) (rw h.1 b)))
        (receive size) s
        (Ends-mono _ _ _ _ (λ bytes s' h. h) (λ s' h. rw h b) (receive size s)
          (receive-Ends size s)))
  | inr is_read ↦ rw is_read (
      quiet-Keeps
        (send_header Op.read offset size >> sendall (slice s.server.memory offset (offset + size)))
        (reply-IsQuiet Op.read offset size _) s b)
]

pub transfer-Keeps : (clock : Clock) (op offset size : ℕ) → Keeps (transfer clock op offset size)
unfolding transfer
transfer-Keeps clock op offset size s b = elim (Bool-cases (ltb max_block size)) [
  | inl long ↦ rw long b
  | inr short ↦ rw short (
      or_raise-Ends (holder (clock 0) offset size s.server.leases) value_error
        (λ _. move op offset size) s b
        (λ lease found.
          let (inside, alive) =
            holder-some (λ (l : Lease). l.offset + l.length ≤ s.server.size) (clock 0) offset size
              s.server.leases lease
              (values-All (λ (l : Lease). l.offset + l.length ≤ s.server.size) s.server.leases
                b.distinct b.bounded)
              found in
          move-Keeps op offset size s (omega (arith, inside, alive.2)) b))
]
