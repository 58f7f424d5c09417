-- ===== src/Server/Connection.antt =====
-- The rounds of `client` keep the invariant of `RAMLinkServer` (android/termux/server.py).
use native.Mathlib.Nat.{le_refl}
use ram_link.Base.{
  Result-cases, bytes_eq, ℕ, suc, zero, ◌+◌, ◌≤◌, ◌≡◌, inl, inr, arith, not, Bool-cases, Bytes,
}
use ram_link.Exec.Triple.{Ends-mono, >>=-Ends, Ends-state}
use ram_link.Wire.Header.{unpack_header, header_size, magic}
use ram_link.Connection.{receive}
use ram_link.Server.Session.{Session}
use ram_link.Server.Handle.{Clock, dispatch, request, client}
use ram_link.Server.Invariant.{IsSound, IsSound-later}
use ram_link.Connection.Quiet.{receive-IsQuiet}
use ram_link.Server.Quiet.{At, IsQuiet-Ends}
use ram_link.Server.Ranges.{Keeps, later}
use ram_link.Server.Preserve.{handle-Keeps}

module _ (clock : Clock) (p : clock 0 ≤ clock 1) (q : clock 1 ≤ clock 2) where
  dispatch-Keeps : (header : Bytes) → Keeps clock (dispatch clock header)
  unfolding dispatch
  dispatch-Keeps header s h = elim (Result-cases (unpack_header header)) [
    | inl (x, e) ↦ rw e (elim (Bool-cases (not (bytes_eq x.signature magic))) [
      | inl other ↦ rw other (later clock p q h)
      | inr same ↦ rw same (handle-Keeps clock p q x.op x.offset x.size s h)
    ])
    | inr (inl (x, e)) ↦ rw e (later clock p q h)
    | inr (inr e) ↦ rw e (later clock p q h)
  ]

  request-Keeps : Keeps clock (request clock)
  unfolding request
  request-Keeps s h =
      >>=-Ends (dispatch clock) (λ _. At (clock 0)) (λ _. At (clock 2)) (At (clock 2))
        dispatch-Keeps (receive header_size) s
        (Ends-mono (λ _. At (clock 0)) _ (At (clock 0)) _ (λ bs s' k. k) (λ s' k. later clock p q k)
          (receive header_size s)
          (IsQuiet-Ends (clock 0) (receive header_size) (receive-IsQuiet header_size) s h))

  -- A request that is served, refused or cut off keeps the invariant: the leases that are alive never
  -- meet, they lie in the buffer, and the buffer keeps its size.
  pub request-IsSound :
      (s : Session) → IsSound (clock 0) s.server → IsSound (clock 2) (request clock s).1.server
  request-IsSound s h = Ends-state (At (clock 2)) (request clock s) (request-Keeps s h)

-- The readings of one connection's requests do not go back.
pub record IsClock (clock : ℕ → Clock) : Type 0 where
  pub first : (n : ℕ) → clock n 0 ≤ clock n 1
  pub second : (n : ℕ) → clock n 1 ≤ clock n 2
  pub next : (n : ℕ) → clock n 2 ≤ clock (n + 1) 0

client-later : (clock : ℕ → Clock) → IsClock clock → (n k m : ℕ) → n + k ≡ m → clock n 0 ≤ clock m 0
client-later clock c n zero m e = let same : n ≡ m = omega arith in rw same (le_refl _)
client-later clock c n (suc k) m e =
    omega (arith, c.first n, c.second n, c.next n, client-later clock c (n + 1) k m (omega arith))

client_loop-IsSound :
    (clock : ℕ → Clock) (c : IsClock clock) (fuel round final : ℕ) (s : Session)
    → round + fuel ≡ final
    → At (clock round 0) s
    → At (clock final 0) (client fuel clock round s).1
unfolding client
client_loop-IsSound clock c zero round final s e h =
    let same : round ≡ final = omega arith in rw (← same) h
client_loop-IsSound clock c (suc fuel) round final s e h =
    let s' : Session = (request (clock round) s).1 in
    let after : At (clock round 2) s' =
      request-IsSound (clock round) (c.first round) (c.second round) s h in
    let le = client-later clock c (round + 1) fuel final (omega arith) in
    let last : At (clock final 0) s' = IsSound-later (omega (arith, c.next round)) after in
    elim (Result-cases (request (clock round) s).0) [
      | inl (x, f) ↦
          rw (f, client)
            (client_loop-IsSound clock c fuel (round + 1) final s' (omega arith)
              (IsSound-later (c.next round) after))
      | inr (inl (x, f)) ↦ rw (f, client) last
      | inr (inr f) ↦ rw (f, client) last
    ]

-- Whatever bytes a client sends, in whatever pieces, and wherever it stops, the server that its
-- connection leaves behind keeps the invariant.
pub client-IsSound :
    (clock : ℕ → Clock) (fuel : ℕ) (s : Session)
    → IsClock clock
    → IsSound (clock 0 0) s.server
    → IsSound (clock fuel 0) (client fuel clock 0 s).1.server
client-IsSound clock fuel s c h = client_loop-IsSound clock c fuel 0 fuel s (omega arith) h
