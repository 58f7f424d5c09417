-- ===== src/Server/Preserve.antt =====
-- Every request keeps the invariant of `RAMLinkServer` (android/termux/server.py), also one that raises.
use ram_link.Base.{
  subst, sym, ℕ, ◌+◌, ◌≤◌, ◌≡◌, refl, inl, inr, some, arith, ltb, ltb→lt, leb, ◌||◌, Bool-cases,
  Option-cases, lookup, erase, length, replicate, length-replicate, Bytes, ok, err, value_error,
}
use ram_link.Exec.{◌>>=◌, ◌>>◌, lift}
use ram_link.Wire.Op
use ram_link.Wire.Header.{pack_block_info}
use ram_link.Server.Leases.{
  Lease, RamLinkServer, sector_size, cleanup_expired, register_lease, store, get_lease, keepalive,
  find_free_region,
}
use ram_link.Base.{codes}
use ram_link.Server.Info.{info_text}
use ram_link.Connection.{update, sendall, send_header}
use ram_link.Server.Handle.{
  Clock, round_up, send_lease, borrow, info, ping, release, keep, block_info, handle,
}
use ram_link.Server.Regions.{find_free_region-Apart, find_free_region-fits}
use ram_link.Server.Invariant.{
  IsSound, IsSound-later, cleanup_expired-IsSound, erase-IsSound, store-IsSound,
  register_lease-IsSound, keepalive-IsSound,
}
use ram_link.Connection.Quiet.{on_server-Ends, >>=-IsQuiet, send_header-IsQuiet, reply-IsQuiet}
use ram_link.Server.Quiet.{
  At, send_lease-IsQuiet, IsQuiet-Ends, get_lease_missing, get_lease_alive, get_lease_expired,
}
use ram_link.Server.Ranges.{Keeps, later, transfer-Keeps, block_transfer-Keeps}

module _ (clock : Clock) (p : clock 0 ≤ clock 1) (q : clock 1 ≤ clock 2) where
  borrow-Keeps : (requested : ℕ) → Keeps clock (borrow clock requested)
  unfolding borrow
  borrow-Keeps requested s h =
      let size : ℕ = round_up requested in
      let s₁ : RamLinkServer = cleanup_expired (clock 0) s.server in
      let h₁ : IsSound (clock 0) s₁ = cleanup_expired-IsSound (clock 0) (clock 0) s.server h in
      elim (Bool-cases (leb size 0 || ltb s.server.size size)) [
        | inl refused ↦ rw refused (later clock p q h₁)
        | inr valid ↦ rw valid (elim (Option-cases (find_free_region (clock 1) size s₁)) [
          | inl full ↦ rw full (later clock p q h₁)
          | inr (offset, found) ↦ rw found (
              let s₂ : RamLinkServer = (register_lease (clock 2) offset size s₁).1 in
              let fits : offset + size ≤ s₁.size =
                find_free_region-fits (clock 1) size offset s₁ h₁.valid.distinct h₁.valid.bounded
                  found in
              let free = find_free_region-Apart (clock 1) size offset s₁ h₁.valid.distinct found in
              let h₂ : IsSound (clock 2) s₂ =
                register_lease-IsSound (clock 2) offset size s₁ fits
                  (λ k l e a. free k l e (omega arith)) (later clock p q h₁) in
              let h₃ =
                store-IsSound (clock 2) offset size (replicate size 0) s₂ (length-replicate size 0)
                  fits h₂ in
              IsQuiet-Ends (clock 2) (send_lease s₁.next_lease_id offset size)
                (send_lease-IsQuiet s₁.next_lease_id offset size)
                (record s { server = store offset size (replicate size 0) s₂ }) h₃)
        ])
      ]

  info-Keeps : Keeps clock (info clock)
  unfolding info
  info-Keeps s h =
      let s₁ : RamLinkServer = cleanup_expired (clock 0) s.server in
      let text : Bytes = info_text s₁.size s₁.sectors (length s₁.leases) in
      IsQuiet-Ends (clock 2) (send_header Op.info 0 (length text) >> sendall text)
        (reply-IsQuiet Op.info 0 (length text) text) (record s { server = s₁ })
        (later clock p q (cleanup_expired-IsSound (clock 0) (clock 0) s.server h))

  ping-Keeps : Keeps clock ping
  unfolding ping
  ping-Keeps s h =
      IsQuiet-Ends (clock 2) (send_header Op.ping 0 4 >> sendall (codes "PONG"))
        (reply-IsQuiet Op.ping 0 4 (codes "PONG")) s (later clock p q h)

  block_info-Keeps : Keeps clock block_info
  unfolding block_info
  block_info-Keeps s h =
      IsQuiet-Ends (clock 2)
        (do
          payload ← lift (pack_block_info sector_size s.server.sectors)
          send_header Op.block_info 0 (length payload)
          sendall payload)
        (>>=-IsQuiet (lift (pack_block_info sector_size s.server.sectors)) _ (λ s. refl)
          (λ payload. reply-IsQuiet Op.block_info 0 (length payload) payload))
        s (later clock p q h)

  release-Keeps : (lease_id : ℕ) → Keeps clock (release clock lease_id)
  unfolding release
  release-Keeps lease_id s h =
      let erased = erase-IsSound (clock 0) lease_id s.server h in
      let by =
        on_server-Ends (get_lease (clock 0) lease_id)
          (λ (lease : Lease). (do
            update (λ s. record s { leases = erase lease_id s.leases })
            send_header Op.release lease_id 0))
          (λ _. At (clock 2)) (At (clock 2)) s in
      elim (Option-cases (lookup lease_id s.server.leases)) [
        | inl missing ↦
            by (err value_error, s.server) (get_lease_missing (clock 0) lease_id s.server missing)
              (later clock p q h)
        | inr (lease, found) ↦ elim (Bool-cases (ltb (clock 0) lease.expires_at)) [
          | inl alive ↦
              by (ok lease, s.server)
                (get_lease_alive (clock 0) lease_id s.server lease found (ltb→lt _ _ alive))
                (IsQuiet-Ends (clock 2) (send_header Op.release lease_id 0)
                  (send_header-IsQuiet Op.release lease_id 0)
                  (record s {
                    server = record s.server { leases = erase lease_id s.server.leases };
                  })
                  (later clock p q erased))
          | inr expired ↦
              by (err value_error, record s.server { leases = erase lease_id s.server.leases })
                (get_lease_expired (clock 0) lease_id s.server lease found (ground arith))
                (later clock p q erased)
        ]
      ]

  keep-Keeps : (lease_id : ℕ) → Keeps clock (keep clock lease_id)
  unfolding keep
  keep-Keeps lease_id s h =
      let by =
        on_server-Ends (get_lease (clock 0) lease_id)
          (λ (lease : Lease). (do
            update (keepalive (clock 1) lease)
            send_header Op.keepalive lease_id 0))
          (λ _. At (clock 2)) (At (clock 2)) s in
      elim (Option-cases (lookup lease_id s.server.leases)) [
        | inl missing ↦
            by (err value_error, s.server) (get_lease_missing (clock 0) lease_id s.server missing)
              (later clock p q h)
        | inr (lease, found) ↦ elim (Bool-cases (ltb (clock 0) lease.expires_at)) [
          | inl alive ↦
              let named = h.valid.named lease_id lease found in
              let h₁ =
                keepalive-IsSound (clock 0) (clock 1) s.server lease p
                  (subst (λ k. lookup k s.server.leases ≡ some lease) (sym named) found)
                  (ltb→lt _ _ alive) h in
              by (ok lease, s.server)
                (get_lease_alive (clock 0) lease_id s.server lease found (ltb→lt _ _ alive))
                (IsQuiet-Ends (clock 2) (send_header Op.keepalive lease_id 0)
                  (send_header-IsQuiet Op.keepalive lease_id 0)
                  (record s { server = keepalive (clock 1) lease s.server }) (IsSound-later q h₁))
          | inr expired ↦
              by (err value_error, record s.server { leases = erase lease_id s.server.leases })
                (get_lease_expired (clock 0) lease_id s.server lease found (ground arith))
                (later clock p q (erase-IsSound (clock 0) lease_id s.server h))
        ]
      ]

  -- Any operation, with any numbers.
  pub handle-Keeps : (op offset size : ℕ) → Keeps clock (handle clock op offset size)
  unfolding handle
  handle-Keeps op offset size s h = ground (
    arith,
    info-Keeps s h,
    ping-Keeps s h,
    borrow-Keeps size s h,
    release-Keeps offset s h,
    keep-Keeps offset s h,
    transfer-Keeps clock p q op offset size s h,
    block_info-Keeps s h,
    block_transfer-Keeps clock p q op offset size s h,
    later clock p q h,
  )
