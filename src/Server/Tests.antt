-- ===== src/Server/Tests.antt =====
-- Runs of `RAMLinkServer`, and the theorems about it at concrete inputs.
use ram_link.Base.{
  ℕ, true, false, ◌+◌, ◌≤◌, ◌≡◌, refl, inr, [], ◌∷◌, some, none, arith, length, replicate,
  length-replicate, slice, ok, err, value_error,
}
use ram_link.Wire.{AreNonempty}
use ram_link.Wire.Op
use ram_link.Server.Leases.{RamLinkServer, find_free_region, cleanup_expired}
use ram_link.Server.Session.{Session}
use ram_link.Server.Handle.{borrow, transfer, request, client}
use ram_link.Server.Regions.{Apart, find_free_region-Apart, find_free_region-first}
use ram_link.Server.Invariant.{IsValid, IsSound, IsSound-later, AreSeparate}
use ram_link.Server.Connection.{request-IsSound, client-IsSound}
use ram_link.Server.Transfers.{
  header_bytes, sent, transfer_refused, read_after_write, read_apart_from_write,
}
use ram_link.Server.Borrow.{IsFree, Grants, borrow-Grants}
use ram_link.Server.Race.{searching, finished, borrower, Race, run}
use ram_link.Server.Overlap.{overlapping_borrows_meet}

-- Two KiB, of which the first and the third sector are on lease until the times 100 and 50.
abbrev two_kib : RamLinkServer
two_kib = record {
  size = 2048;
  memory = replicate 2048 7;
  sectors = 4;
  leases =
      (1, record { lease_id = 1; offset = 0; length = 512; expires_at = 100 })
      ∷ (2, record { lease_id = 2; offset = 1024; length = 512; expires_at = 50 })
      ∷ [];
  next_lease_id = 3;
}

-- Three bytes in two pieces.
abbrev session : Session
session = record {
  server = two_kib;
  conn = record { input = (11 ∷ []) ∷ (22 ∷ 33 ∷ []) ∷ []; output = [] };
}

-- Between the leases, and behind the first once the second has expired.
find_run :
    (find_free_region 10 512 two_kib ≡ some 512)
    × (find_free_region 60 1024 two_kib ≡ some 512)
    × (find_free_region 10 1024 two_kib ≡ none)
unfolding find_free_region
find_run = (refl, refl, refl)

cleanup_run : length (cleanup_expired 60 two_kib).leases ≡ 1
unfolding cleanup_expired
cleanup_run = refl

two_kib-IsValid : IsValid two_kib
two_kib-IsValid = record {
  buffer = length-replicate 2048 7;
  whole = refl;
  distinct = (refl, (refl, tt));
  fresh = λ k l e. ground arith;
  named = λ k l e. ground arith;
  bounded = λ k l e. ground arith;
}

two_kib-IsSound : IsSound 10 two_kib
two_kib-IsSound = record {
  valid = two_kib-IsValid;
  separate = λ j k l m ne el em al am. ground arith;
}

request-IsSound_run : IsSound 12 (request (λ n. 10 + n) session).1.server
request-IsSound_run =
    request-IsSound (λ n. 10 + n) (omega arith) (omega arith) session two_kib-IsSound

client-IsSound_example : IsSound 10 (client 5 (λ n k. 10) 0 session).1.server
client-IsSound_example =
    client-IsSound (λ n k. 10) 5 session
      (record { first = λ n. omega arith; second = λ n. omega arith; next = λ n. omega arith })
      two_kib-IsSound

find_free_region-Apart_example :
    Apart 512 512 (record { lease_id = 2; offset = 1024; length = 512; expires_at = 50 })
find_free_region-Apart_example =
    find_free_region-Apart 10 512 512 two_kib two_kib-IsValid.distinct find_run.0 2 _ refl
      (omega arith)

find_free_region-first_example : (c : ℕ) × (find_free_region 60 512 two_kib ≡ some c) × (c ≤ 1536)
find_free_region-first_example =
    find_free_region-first 60 512 1536 two_kib two_kib-IsValid.distinct (omega arith) (omega arith)
      (λ k l e a. ground arith)

transfer_refused_run : transfer Op.write 2046 3 session ≡ (err value_error, session)
transfer_refused_run = transfer_refused Op.write 2046 3 session (inr (omega arith))

session-AreNonempty : AreNonempty session.conn.input
session-AreNonempty = ((λ e. cc), ((λ e. cc), tt))

read_after_write_example :
    let s' = (transfer Op.write 600 3 session).1 in
    transfer Op.read 600 3 s'
    ≡ (ok tt, sent (11 ∷ 22 ∷ 33 ∷ []) (sent (header_bytes Op.read 600 3) s'))
read_after_write_example =
    read_after_write 600 3 session two_kib-IsValid (omega arith) (omega arith) (omega arith)
      session-AreNonempty (omega arith)

read_apart_from_write_example :
    let s' = (transfer Op.write 600 3 session).1 in
    transfer Op.read 603 16 s'
    ≡ (ok tt, sent (slice two_kib.memory 603 619) (sent (header_bytes Op.read 603 16) s'))
read_apart_from_write_example =
    read_apart_from_write 600 3 603 16 session two_kib-IsValid (omega arith) (omega arith)
      (omega arith) (omega arith) (omega arith) (omega arith) session-AreNonempty (omega arith)
      (inr (omega arith))

at_end-IsFree : IsFree (λ n. 60 + n) 700 session 1024
at_end-IsFree = record { fits = omega arith; apart = λ k l e a. ground arith }

borrow-Grants_example :
    (offset : ℕ) × IsFree (λ n. 60 + n) 700 session offset
    × ((o : ℕ) → IsFree (λ n. 60 + n) 700 session o → offset ≤ o)
    × Grants (λ n. 60 + n) 700 offset session (borrow (λ n. 60 + n) 700 session)
borrow-Grants_example =
    borrow-Grants (λ n. 60 + n) 700 session 1024
      (IsSound-later {now = 10} {later = 60} (omega arith) two_kib-IsSound) (omega arith)
      (omega arith) (omega arith) (omega arith) at_end-IsFree

overlapping_borrows_meet_example :
    (race : Race) × (run (true ∷ (false ∷ (true ∷ (false ∷ [])))) (record {
      server = two_kib;
      one = borrower (λ n. 60 + n) 700 session.conn searching;
      other = borrower (λ n. 60 + n) 700 session.conn searching;
    })
      ≡ race)
    × (race.one.stage ≡ finished (ok tt))
    × (race.other.stage ≡ finished (ok tt))
    × ¬ AreSeparate 62 race.server.leases
overlapping_borrows_meet_example =
    overlapping_borrows_meet (λ n. 60 + n) 700 1024 two_kib session.conn session.conn
      (IsSound-later {now = 10} {later = 60} (omega arith) two_kib-IsSound) (omega arith)
      (omega arith) (omega arith) (omega arith) at_end-IsFree
