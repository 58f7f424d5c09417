-- ===== src/Provider/Isolation.antt =====
-- READ and WRITE of the provider stay inside the leases that are alive.
use ram_link.Base.{
  ℕ, ◌+◌, ◌≤◌, ◌<◌, ◌≡◌, refl, ◌⊎◌, inl, inr, none, some, leb, ◌&&◌, arith, length, get_elem?,
  slice, get_elem?-set_slice, Dict, err, value_error, subst, Option-cases, Bool-cases, [], ◌∷◌, All,
  Result-cases,
}
use ram_link.Exec.{gets, ◌>>=◌, ◌>>◌}
use ram_link.Wire.{recv_all}
use ram_link.Wire.Receive.{recv_all-length}
use ram_link.Wire.Op
use ram_link.Connection.{Connected, update, receive, sendall, send_header}
use ram_link.Connection.Quiet.{send_header-IsQuiet}
use ram_link.Server.Leases.{Lease, is_alive}
use ram_link.Server.Handle.{Clock}
use ram_link.Provider.Defs.{RamProvider, values, holder, put, transfer}

-- The lease is alive and holds the range.
abbrev pub Holds : ℕ → ℕ → ℕ → Lease → Type 0
Holds now offset size lease =
    (now < lease.expires_at)
    × (lease.offset ≤ offset)
    × (offset + size ≤ lease.offset + lease.length)

holder-none :
    (now offset size : ℕ) (d : Dict Lease)
    → All (λ lease. ¬ Holds now offset size lease) (values d)
    → holder now offset size d ≡ none
unfolding holder is_alive
holder-none now offset size [] h = refl
holder-none now offset size ((k, lease) ∷ d) h = ground (
  arith,
  holder-none now offset size d h.1,
  λ (a : now < lease.expires_at) (b : lease.offset ≤ offset)
        (c : offset + size ≤ lease.offset + lease.length).
      h.0 (a, b, c),
)

pub holder-some :
    (P : Lease → Type 0) (now offset size : ℕ) (d : Dict Lease) (found : Lease)
    → All P (values d)
    → holder now offset size d ≡ some found
    → P found × Holds now offset size found
unfolding holder is_alive
holder-some P now offset size [] found h e = cc
holder-some P now offset size ((k, lease) ∷ d) found h e =
    elim (Bool-cases (
      is_alive now lease
      && (leb lease.offset offset && leb (offset + size) (lease.offset + lease.length)))) [
        | inl holds ↦
            let same : lease ≡ found = ground (arith, e, holds) in
            subst (λ (l : Lease). P l × Holds now offset size l) same
              (h.0, (ground (arith, holds), ground (arith, holds), ground (arith, holds)))
        | inr not_here ↦ holder-some P now offset size d found h.1 (rw (holder, not_here) at e)
      ]

-- A READ or a WRITE whose range lies in no lease that is alive raises ValueError, changes nothing, reads
-- nothing and sends nothing.
pub transfer_unleased :
    (clock : Clock) (op offset size : ℕ) (s : Connected RamProvider)
    → All (λ lease. ¬ Holds (clock 0) offset size lease) (values s.server.leases)
    → transfer clock op offset size s ≡ (err value_error, s)
unfolding transfer
transfer_unleased clock op offset size s h =
    let nothing = holder-none (clock 0) offset size s.server.leases h in ground (arith, nothing)

-- The address lies in a lease that is alive.
abbrev pub Covers : ℕ → ℕ → Lease → Type 0
Covers now i lease =
    (now < lease.expires_at) × (lease.offset ≤ i) × (i < lease.offset + lease.length)

-- The part of a WRITE behind its tests.
write_elsewhere :
    (offset size i : ℕ) (s : Connected RamProvider)
    → offset ≤ length s.server.memory
    → (i < offset) ⊎ (offset + size ≤ i)
    → get_elem?
        ((do bytes ← receive size; update (put offset size bytes); send_header Op.write offset size)
          s).1.server.memory
        i
      ≡ get_elem? s.server.memory i
unfolding receive put send_header sendall
write_elsewhere offset size i s fits out = elim (Result-cases (recv_all size s.conn.input).0) [
  | inl (bytes, e) ↦
      let long = recv_all-length size s.conn.input e in
      let after = send_header-IsQuiet {S = RamProvider} Op.write offset size in
      ground (
        arith,
        e,
        after _,
        long,
        get_elem?-set_slice s.server.memory offset (offset + size) bytes i (omega (arith, long))
            fits,
      )
  | inr (inl (x, e)) ↦ ground (arith, e)
  | inr (inr e) ↦ ground (arith, e)
]

-- The part of a READ behind its tests.
read_server :
    (offset size : ℕ) (s : Connected RamProvider)
    → ((do
      bytes ← gets (λ s. slice s.server.memory offset (offset + size))
      send_header Op.read offset size
      sendall bytes)
        s).1.server
      ≡ s.server
unfolding sendall
read_server offset size s =
    let after = send_header-IsQuiet {S = RamProvider} Op.read offset size s in
    elim (Result-cases (send_header Op.read offset size s).0) [
      | inl (a, e) ↦ ground (arith, e, after)
      | inr (inl (x, e)) ↦ ground (arith, e, after)
      | inr (inr e) ↦ ground (arith, e, after)
    ]

-- A READ or a WRITE, served or not, leaves each byte alone that lies in no lease that is alive, if the leases
-- lie in the buffer.
pub transfer_elsewhere :
    (clock : Clock) (op offset size i : ℕ) (s : Connected RamProvider)
    → All (λ lease. lease.offset + lease.length ≤ length s.server.memory) (values s.server.leases)
    → All (λ lease. ¬ Covers (clock 0) i lease) (values s.server.leases)
    → get_elem? (transfer clock op offset size s).1.server.memory i ≡ get_elem? s.server.memory i
unfolding transfer
transfer_elsewhere clock op offset size i s bounded uncovered =
    elim (Option-cases (holder (clock 0) offset size s.server.leases)) [
      | inl absent ↦ ground (arith, absent)
      | inr (lease, found) ↦
          let (ends, holds) =
            holder-some _ (clock 0) offset size s.server.leases lease bounded found in
          let (outside, _) =
            holder-some _ (clock 0) offset size s.server.leases lease uncovered found in
          let away : (i < offset) ⊎ (offset + size ≤ i) = ground (arith, outside, holds) in
          let written = write_elsewhere offset size i s (omega (arith, ends, holds)) away in
          let read = read_server offset size s in ground (arith, found, written, read)
    ]
