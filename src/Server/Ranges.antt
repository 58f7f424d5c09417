-- ===== src/Server/Ranges.antt =====
-- READ, WRITE, BLOCK_READ and BLOCK_WRITE keep the invariant of `RAMLinkServer` (android/termux/server.py), also where
-- they raise.
use ram_link.Base.{
  ℕ, ◌+◌, ◌-◌, ◌*◌, ◌≤◌, ◌≡◌, inl, inr, arith, ltb, ◌==◌, ◌||◌, not, Bool-cases, length, slice,
}
use ram_link.Exec.{◌>>=◌, ◌>>◌, gets}
use ram_link.Exec.Triple.{Ends, Ends-mono, Triple, >>=-Ends}
use ram_link.Wire.{max_block}
use ram_link.Wire.Op
use ram_link.Server.Leases.{RamLinkServer, sector_size, store, valid_range}
use ram_link.Connection.{update, receive, sendall, send_header}
use ram_link.Server.Session.{Session, Action}
use ram_link.Server.Handle.{Clock, transfer, block_transfer}
use ram_link.Server.Invariant.{IsSound, IsSound-later, store-IsSound}
use ram_link.Connection.Quiet.{receive-Ends, send_header-IsQuiet, reply-IsQuiet}
use ram_link.Server.Quiet.{At, IsQuiet-Ends}

-- A call that reads the clock three times at most, and keeps the invariant, also where it raises.
abbrev pub Keeps : Clock → Action (Unit {0}) → Type 0
Keeps clock m = Triple (At (clock 0)) m (λ _. At (clock 2)) (At (clock 2))

module _ (clock : Clock) (p : clock 0 ≤ clock 1) (q : clock 1 ≤ clock 2) where
  pub later : {s : RamLinkServer} → IsSound (clock 0) s → IsSound (clock 2) s
  later h = IsSound-later (omega arith) h

  -- What WRITE and BLOCK_WRITE do once the range is checked.
  write-Keeps :
      (op byte_offset byte_length offset size : ℕ) (s : Session)
      → byte_offset + byte_length ≤ s.server.size
      → At (clock 0) s
      → Ends
          (λ _. At (clock 2))
          (At (clock 2))
          ((do
            bytes ← receive byte_length
            update (store byte_offset byte_length bytes)
            send_header op offset size)
            s)
  write-Keeps op byte_offset byte_length offset size s fits h =
      >>=-Ends _ (λ bs s'. (length bs ≡ byte_length) × (s'.server ≡ s.server)) (λ _. At (clock 2))
        (At (clock 2))
        (λ bs s' (n, same).
          IsQuiet-Ends (clock 2) (send_header op offset size) (send_header-IsQuiet op offset size)
            (record s' { server = store byte_offset byte_length bs s'.server })
            (store-IsSound (clock 2) byte_offset byte_length bs s'.server n (rw same fits)
              (rw same (later h))))
        (receive byte_length) s
        (Ends-mono (λ bs s'. (length bs ≡ byte_length) × (s'.server ≡ s.server)) _
          (λ s'. s'.server ≡ s.server) _ (λ bs s' k. k) (λ s' same. rw same (later h))
          (receive byte_length s) (receive-Ends byte_length s))

  read-Keeps :
      (op a b offset size : ℕ) (s : Session)
      → At (clock 0) s
      → Ends
          (λ _. At (clock 2))
          (At (clock 2))
          ((do
            bytes ← gets (λ s. slice s.server.memory a b)
            send_header op offset size
            sendall bytes)
            s)
  read-Keeps op a b offset size s h =
      IsQuiet-Ends (clock 2) (send_header op offset size >> sendall (slice s.server.memory a b))
        (reply-IsQuiet op offset size (slice s.server.memory a b)) s (later h)

  pub transfer-Keeps : (op offset size : ℕ) → Keeps clock (transfer op offset size)
  unfolding transfer
  transfer-Keeps op offset size s h =
      elim (Bool-cases (ltb max_block size || not (valid_range offset size s.server))) [
        | inl refused ↦ rw refused (later h)
        | inr valid ↦ rw valid (elim (Bool-cases (op == Op.write)) [
          | inl is_write ↦
              rw is_write (write-Keeps Op.write offset size offset size s (ground arith) h)
          | inr is_read ↦ rw is_read (read-Keeps Op.read offset (offset + size) offset size s h)
        ])
      ]

  pub block_transfer-Keeps : (op sector count : ℕ) → Keeps clock (block_transfer op sector count)
  unfolding block_transfer
  block_transfer-Keeps op sector count s h =
      elim (Bool-cases (ltb s.server.sectors sector || ltb (s.server.sectors - sector) count)) [
        | inl refused ↦ rw refused (later h)
        | inr valid ↦ rw valid (elim (Bool-cases (ltb max_block (count * sector_size))) [
          | inl long ↦ rw long (later h)
          | inr short ↦ rw short (elim (Bool-cases (op == Op.block_write)) [
            | inl is_write ↦ rw is_write (
                write-Keeps Op.block_write (sector * sector_size) (count * sector_size) sector count
                  s (ground (arith, h.valid.whole)) h)
            | inr is_read ↦ rw is_read (
                read-Keeps Op.block_read (sector * sector_size)
                  (sector * sector_size + count * sector_size) sector count s h)
          ])
        ])
      ]
