-- ===== src/Server/Overlap.antt =====
-- Two threads whose `borrow` overlaps (android/termux/server.py): both search before either has registered its lease.
use ram_link.Base.{
  ℕ, ◌+◌, ◌≤◌, ◌<◌, ◌^◌, ◌≡◌, refl, ap, ◌∙◌, true, false, [], ◌∷◌, some, arith, lookup, insert,
  lookup-insert, lookup-insert_self, replicate, ok,
}
use ram_link.Server.Leases.{
  Lease, RamLinkServer, new_lease, store, cleanup_expired, find_free_region, register_lease,
}
use ram_link.Connection.{Conn}
use ram_link.Server.Session.{Session}
use ram_link.Server.Handle.{Clock, round_up}
use ram_link.Server.Invariant.{
  IsSound, AreSeparate, cleanup_expired-sub, cleanup_expired-keeps, cleanup_expired-IsSound,
}
use ram_link.Server.Transfers.{header_bytes, sent}
use ram_link.Server.Borrow.{IsFree, search_lem, send_lease_ok, lease_bytes}
use ram_link.Server.Race.{
  search, grant, searching, found_at, finished, Borrower, borrower, advance, Race, turn, run,
}

-- Two threads in turn, from what each turn does.
run-four :
    (a a1 a2 b b1 b2 : Borrower) (s s1 s2 s3 s4 : RamLinkServer)
    → advance a s ≡ (a1, s1)
    → advance b s1 ≡ (b1, s2)
    → advance a1 s2 ≡ (a2, s3)
    → advance b1 s3 ≡ (b2, s4)
    → run (true ∷ (false ∷ (true ∷ (false ∷ [])))) (record { server = s; one = a; other = b })
      ≡ record { server = s4; one = a2; other = b2 }
unfolding run turn
run-four a a1 a2 b b1 b2 s s1 s2 s3 s4 e1 e2 e3 e4 = ground (arith, e1, e2, e3, e4)

module _ (clock : Clock) (requested : ℕ) where
  abbrev size : ℕ
  size = round_up requested

  -- A turn that searches and finds.
  advance-search :
      (offset : ℕ) (server : RamLinkServer) (conn : Conn)
      → 0 < requested
      → size ≤ server.size
      → find_free_region (clock 1) size (cleanup_expired (clock 0) server) ≡ some offset
      → advance (borrower clock requested conn searching) server
        ≡ (borrower clock requested conn (found_at offset), cleanup_expired (clock 0) server)
  unfolding advance search
  advance-search offset server conn pos fits found = ground (arith, found)

  -- The server behind a grant.
  abbrev granted : ℕ → RamLinkServer → RamLinkServer
  granted offset server =
      store offset size (replicate size 0) (register_lease (clock 2) offset size server).1

  -- A turn that grants.
  advance-grant :
      (offset : ℕ) (server : RamLinkServer) (conn : Conn)
      → server.next_lease_id < 256 ^ 8
      → offset < 256 ^ 8
      → size < 256 ^ 8
      → (conn' : Conn) × (advance (borrower clock requested conn (found_at offset)) server
          ≡ (borrower clock requested conn' (finished (ok tt)), granted offset server))
  unfolding advance grant register_lease
  advance-grant offset server conn id_word offset_word size_word =
      let s : Session = record { server = granted offset server; conn = conn } in
      let sent_ = send_lease_ok server.next_lease_id offset size id_word offset_word size_word s in
      (
        (sent (lease_bytes server.next_lease_id offset size)
            (sent (header_bytes 8 server.next_lease_id 24) s)).conn,
        ground (arith, sent_),
      )

  -- Where both find the same place, their leases meet.
  granted-meet :
      (offset : ℕ) (server : RamLinkServer)
      → 0 < requested
      → ¬ AreSeparate (clock 2) (granted offset (granted offset server)).leases
  unfolding store register_lease new_lease
  granted-meet offset server pos separate =
      let first = server.next_lease_id in
      let l : Lease = new_lease (clock 2) first offset size in
      let m : Lease = new_lease (clock 2) (first + 1) offset size in
      let d = insert first l server.leases in
      let mine : lookup first (insert (first + 1) m d) ≡ some l =
        ground
          (arith, lookup-insert first (first + 1) m d, lookup-insert_self first l server.leases) in
      omega (
        arith,
        separate first (first + 1) l m (omega arith) mine (lookup-insert_self (first + 1) m d)
            (omega arith) (omega arith),
      )

  -- The second search finds what the first has found, since nothing was registered in between.
  same_place :
      (offset : ℕ) (server : RamLinkServer) (one other : Conn)
      → IsSound (clock 0) server
      → clock 0 ≤ clock 1
      → 0 < requested
      → IsFree clock requested (record { server = server; conn = one }) offset
      → ((o : ℕ) → IsFree clock requested (record { server = server; conn = one }) o → offset ≤ o)
      → find_free_region
          (clock 1)
          size
          (cleanup_expired (clock 0) (cleanup_expired (clock 0) server))
        ≡ some offset
  same_place offset server one other h later pos free least =
      let cleaned = cleanup_expired (clock 0) server in
      let still : IsFree clock requested (record { server = cleaned; conn = other }) offset =
        record {
          fits = unfold cleanup_expired in free.fits;
          apart = λ k l e a.
              free.apart k l (cleanup_expired-sub (clock 0) server h.valid.distinct k l e) a;
        } in
      let (c, found, free', least') =
        search_lem clock requested (record { server = cleaned; conn = other }) offset
          (cleanup_expired-IsSound (clock 0) (clock 0) server h) later pos still in
      let below = least' offset still in
      let above = least c (record {
        fits = unfold cleanup_expired in free'.fits;
        apart = λ k l e a.
            free'.apart k l
              (cleanup_expired-keeps (clock 0) server k l h.valid.distinct e
                (omega (arith, later, a)))
              a;
      }) in
      let same : c ≡ offset = omega (arith, below, above) in found ∙ ap some same

  -- Two threads borrow the same number of bytes at the same readings of a clock that does not go back, and some region is
  -- free for it, at a server that keeps its invariant and whose size and next ids fit their fields. If each has searched before either has
  -- registered its lease, both are granted, and two leases that are alive meet.
  pub overlapping_borrows_meet :
      (o : ℕ) (server : RamLinkServer) (one other : Conn)
      → IsSound (clock 0) server
      → clock 0 ≤ clock 1
      → 0 < requested
      → server.size < 256 ^ 8
      → server.next_lease_id + 1 < 256 ^ 8
      → IsFree clock requested (record { server = server; conn = one }) o
      → (race : Race) × (run (true ∷ (false ∷ (true ∷ (false ∷ [])))) (record {
        server = server;
        one = borrower clock requested one searching;
        other = borrower clock requested other searching;
      })
          ≡ race)
        × (race.one.stage ≡ finished (ok tt))
        × (race.other.stage ≡ finished (ok tt))
        × ¬ AreSeparate (clock 2) race.server.leases
  unfolding cleanup_expired store register_lease
  overlapping_borrows_meet o server one other h later pos words id_word free =
      let (offset, found, at, least) =
        search_lem clock requested (record { server = server; conn = one }) o h later pos free in
      let fits = at.fits in
      let again = same_place offset server one other h later pos at least in
      let cleaned = cleanup_expired (clock 0) server in
      let twice = cleanup_expired (clock 0) cleaned in
      let (one', first) =
        advance-grant offset twice one (omega (arith, id_word)) (omega (arith, fits))
          (omega (arith, fits)) in
      let (other', second) =
        advance-grant offset (granted offset twice) other (omega (arith, id_word))
          (omega (arith, fits)) (omega (arith, fits)) in
      (
        record {
          server = granted offset (granted offset twice);
          one = borrower clock requested one' (finished (ok tt));
          other = borrower clock requested other' (finished (ok tt));
        },
        run-four (borrower clock requested one searching)
            (borrower clock requested one (found_at offset)) _
            (borrower clock requested other searching)
            (borrower clock requested other (found_at offset)) _ server cleaned twice
            (granted offset twice) (granted offset (granted offset twice))
            (advance-search offset server one pos (omega (arith, fits)) found)
            (advance-search offset cleaned other pos (omega (arith, fits)) again) first second,
        refl,
        refl,
        granted-meet offset twice pos,
      )
