-- ===== src/Server/Borrow.antt =====
-- What BORROW grants (android/termux/server.py).
use ram_link.Base.{
  zero, lookup-insert_self, subst, ap, ◌∙◌, sym, lt→ltb, ℕ, ◌+◌, ◌≤◌, ◌<◌, ◌^◌, ◌≡◌, refl, false,
  ◌++◌, none, some, arith, ltb, leb, ◌||◌, lookup, length, length-append, replicate,
  length-replicate, slice, slice-set_slice_self, Bytes, Result, ok, err, runtime_error,
}
use ram_link.Exec.{bind_result, ◌>>◌}
use ram_link.Wire.{be_bytes, length-be_bytes}
use ram_link.Wire.Op
use ram_link.Wire.RoundTrip.{unpack_lease_reply-pack_lease_reply}
use ram_link.Wire.Header.{pack_lease_reply, unpack_lease_reply}
use ram_link.Server.Leases.{
  Lease, RamLinkServer, lease_time, store, cleanup_expired, find_free_region, register_lease,
}
use ram_link.Connection.{sendall, send_header}
use ram_link.Server.Session.{Session}
use ram_link.Server.Handle.{Clock, round_up, borrow, send_lease}
use ram_link.Server.Regions.{Apart, find_free_region-Apart, find_free_region-first}
use ram_link.Server.Transfers.{header_bytes, sent, send_header_ok}
use ram_link.Server.Invariant.{
  cleanup_expired-keeps, cleanup_expired-sub, IsValid, IsSound, cleanup_expired-IsSound,
}

pub lease_bytes : ℕ → ℕ → ℕ → Bytes
lease_bytes lease_id offset size = be_bytes 8 lease_id ++ (be_bytes 8 offset ++ be_bytes 8 size)

module _ (lease_id offset size : ℕ) (id_word : lease_id < 256 ^ 8) (offset_word : offset < 256 ^ 8)
    (size_word : size < 256 ^ 8) where
  pack_lease_reply_eq :
      pack_lease_reply lease_id offset size ≡ ok (lease_bytes lease_id offset size)
  unfolding pack_lease_reply lease_bytes
  pack_lease_reply_eq = rw (lt→ltb _ _ id_word, lt→ltb _ _ offset_word, lt→ltb _ _ size_word)

  length-lease_bytes : length (lease_bytes lease_id offset size) ≡ 24
  unfolding lease_bytes
  length-lease_bytes = omega (
    arith,
    length-append (be_bytes 8 lease_id) (be_bytes 8 offset ++ be_bytes 8 size),
    length-append (be_bytes 8 offset) (be_bytes 8 size),
    length-be_bytes 8 lease_id,
    length-be_bytes 8 offset,
    length-be_bytes 8 size,
  )

  pub send_lease_ok :
      (s : Session)
      → send_lease lease_id offset size s ≡ (
        ok tt,
        sent (lease_bytes lease_id offset size) (sent (header_bytes Op.borrow lease_id 24) s),
      )
  unfolding send_lease sendall
  send_lease_ok s =
      let reply : Bytes = lease_bytes lease_id offset size in
      ap
        (λ x.
          bind_result (x, s)
            (λ payload. send_header Op.borrow lease_id (length payload) >> sendall payload))
        pack_lease_reply_eq
      ∙ ap (λ k. (send_header Op.borrow lease_id k >> sendall reply) s) length-lease_bytes
      ∙ ap (λ x. bind_result x (λ _. sendall reply))
          (send_header_ok Op.borrow lease_id 24 s (omega arith) id_word (omega arith))

-- What a BORROW that is granted leaves behind: a lease that is alive for LEASE_SECONDS, on a region of
-- zeros, and a reply that unpacks to the lease's id, offset and length.
pub record Grants (clock : Clock) (requested offset : ℕ) (s : Session)
    (r : Result (Unit {0}) × Session) : Type 0 where
  pub returns : r.0 ≡ ok tt
  pub lease :
      lookup s.server.next_lease_id r.1.server.leases
      ≡ some (record {
        lease_id = s.server.next_lease_id;
        offset = offset;
        length = round_up requested;
        expires_at = clock 2 + lease_time;
      })
  pub zeroed :
      slice r.1.server.memory offset (offset + round_up requested)
      ≡ replicate (round_up requested) 0
  pub payload : Bytes
  pub reply :
      r.1.conn.output
      ≡ (s.conn.output ++ header_bytes Op.borrow s.server.next_lease_id 24) ++ payload
  pub unpacked :
      unpack_lease_reply payload ≡ ok (s.server.next_lease_id, offset, round_up requested)

module _ (clock : Clock) (requested : ℕ) (s : Session) where
  cleaned : RamLinkServer
  cleaned = cleanup_expired (clock 0) s.server

  registered : ℕ → RamLinkServer
  unfolding cleaned
  registered offset = (register_lease (clock 2) offset (round_up requested) cleaned).1

  stored : ℕ → Session
  unfolding registered
  stored offset = record s {
    server =
        store offset (round_up requested) (replicate (round_up requested) 0) (registered offset);
  }

  borrow_found :
      (offset : ℕ)
      → 0 < requested
      → round_up requested ≤ s.server.size
      → find_free_region (clock 1) (round_up requested) cleaned ≡ some offset
      → borrow clock requested s
        ≡ send_lease s.server.next_lease_id offset (round_up requested) (stored offset)
  unfolding borrow stored
  borrow_found offset pos fits found =
      let valid : (leb (round_up requested) 0 || ltb s.server.size (round_up requested)) ≡ false =
        ground arith in
      rw valid (rw found)

  -- With no region free, BORROW raises RuntimeError and grants nothing.
  pub borrow_full :
      0 < requested
      → round_up requested ≤ s.server.size
      → find_free_region (clock 1) (round_up requested) (cleanup_expired (clock 0) s.server) ≡ none
      → borrow clock requested s
        ≡ (err runtime_error, record s { server = cleanup_expired (clock 0) s.server })
  unfolding borrow
  borrow_full pos fits full =
      let valid : (leb (round_up requested) 0 || ltb s.server.size (round_up requested)) ≡ false =
        ground arith in
      rw valid (rw full)

  found-Grants :
      (offset : ℕ)
      → IsValid s.server
      → 0 < requested
      → s.server.size < 256 ^ 8
      → s.server.next_lease_id < 256 ^ 8
      → offset + round_up requested ≤ s.server.size
      → find_free_region (clock 1) (round_up requested) cleaned ≡ some offset
      → Grants clock requested offset s (borrow clock requested s)
  unfolding stored register_lease store cleanup_expired
  found-Grants offset v pos words id_word fits found =
      let size : ℕ = round_up requested in
      let reply = lease_bytes s.server.next_lease_id offset size in
      let e =
        borrow_found offset pos (omega arith) found
        ∙ send_lease_ok s.server.next_lease_id offset size id_word (omega arith) (omega arith)
            (stored offset) in
      subst (Grants clock requested offset s) (sym e) (record {
        returns = refl;
        lease = lookup-insert_self s.server.next_lease_id _ _;
        zeroed =
            slice-set_slice_self s.server.memory offset (offset + size) (replicate size 0)
              (omega (arith, length-replicate size zero)) (omega (arith, v.buffer));
        payload = reply;
        reply = refl;
        unpacked = unpack_lease_reply-pack_lease_reply s.server.next_lease_id offset size (
            pack_lease_reply_eq s.server.next_lease_id offset size id_word (omega arith)
              (omega arith));
      })

  -- The region from `o` on meets no lease that is alive when the table is searched, and lies in the buffer.
  pub record IsFree (o : ℕ) : Type 0 where
    pub fits : o + round_up requested ≤ s.server.size
    pub apart :
        (k : ℕ) (l : Lease)
        → lookup k s.server.leases ≡ some l
        → clock 1 < l.expires_at
        → Apart o (round_up requested) l

  -- The search, once some region is free.
  pub search_lem :
      (o : ℕ)
      → IsSound (clock 0) s.server
      → clock 0 ≤ clock 1
      → 0 < requested
      → IsFree o
      → (offset : ℕ) × (find_free_region
            (clock 1)
            (round_up requested)
            (cleanup_expired (clock 0) s.server)
          ≡ some offset)
        × IsFree offset
        × ((o' : ℕ) → IsFree o' → offset ≤ o')
  search_lem o h later pos free =
      let size = round_up requested in
      let after = cleanup_expired (clock 0) s.server in
      let h₁ = (cleanup_expired-IsSound (clock 0) (clock 0) s.server h).valid in
      let sub = cleanup_expired-sub (clock 0) s.server h.valid.distinct in
      let first = λ (o' : ℕ) (f : IsFree o').
        find_free_region-first (clock 1) size o' after h₁.distinct (omega arith)
          (unfold cleanup_expired in f.fits) (λ k l e a. f.apart k l (sub k l e) a) in
      let (offset, found, le) = first o free in
      (
        offset,
        found,
        record {
          fits = omega (arith, le, free.fits);
          apart = λ k l e a.
              find_free_region-Apart (clock 1) size offset after h₁.distinct found k l
                (cleanup_expired-keeps (clock 0) s.server k l h.valid.distinct e
                  (omega (arith, later, a)))
                a;
        },
        λ o' f. let (c, found', le') = first o' f in ground (arith, found, found', le'),
      )

  -- A BORROW of at least one byte for which some region of the rounded length is free is granted on the free region that
  -- begins first: it lies in the buffer and meets no lease that was alive when the table was searched. The server keeps its
  -- invariant before, the clock does not go back, and the size and the id fit their fields.
  pub borrow-Grants :
      (o : ℕ)
      → IsSound (clock 0) s.server
      → clock 0 ≤ clock 1
      → 0 < requested
      → s.server.size < 256 ^ 8
      → s.server.next_lease_id < 256 ^ 8
      → IsFree o
      → (offset : ℕ) × IsFree offset
        × ((o' : ℕ) → IsFree o' → offset ≤ o')
        × Grants clock requested offset s (borrow clock requested s)
  unfolding cleaned
  borrow-Grants o h later pos words id_word free =
      let (offset, found, granted, least) = search_lem o h later pos free in
      (offset, granted, least, found-Grants offset h.valid pos words id_word granted.fits found)
