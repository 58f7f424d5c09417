-- ===== src/Server/Invariant.antt =====
-- The invariant of `RAMLinkServer` (android/termux/server.py), and each step on the server alone.
use ram_link.Base.{
  All, Bool-cases, ltb, inl, inr, Option-cases, replicate, sym, ◌∙◌, ℕ, ◌+◌, ◌*◌, ◌/◌, ◌≤◌, ◌<◌,
  ◌≡◌, ◌≢◌, refl, List, [], ◌∷◌, some, arith, Dict, lookup, insert, erase, lookup-insert,
  lookup-erase, insert-HasDistinctKeys, erase-HasDistinctKeys, HasDistinctKeys, length,
  length-replicate, length-set_slice, Bytes, ok,
}
use ram_link.Server.Leases.{
  Lease, RamLinkServer, is_alive, sector_size, init, expired_ids, erase_ids, cleanup_expired,
  register_lease, store, release, keepalive, renew, new_lease,
}
use ram_link.Server.Regions.{Apart}

pub record IsValid (s : RamLinkServer) : Type 0 where
  pub buffer : length s.memory ≡ s.size
  pub whole : s.size ≡ s.sectors * sector_size
  pub distinct : HasDistinctKeys s.leases
  pub fresh : (k : ℕ) (l : Lease) → lookup k s.leases ≡ some l → k < s.next_lease_id
  pub named : (k : ℕ) (l : Lease) → lookup k s.leases ≡ some l → l.lease_id ≡ k
  pub bounded : (k : ℕ) (l : Lease) → lookup k s.leases ≡ some l → l.offset + l.length ≤ s.size

-- Two leases that are both alive at `now` do not meet.
abbrev pub AreSeparate : ℕ → Dict Lease → Type 0
AreSeparate now d =
    (j k : ℕ) (l m : Lease)
    → j ≢ k
    → lookup j d ≡ some l
    → lookup k d ≡ some m
    → now < l.expires_at
    → now < m.expires_at
    → Apart l.offset l.length m

pub record IsSound (now : ℕ) (s : RamLinkServer) : Type 0 where
  pub valid : IsValid s
  pub separate : AreSeparate now s.leases

-- Later fewer leases are alive.
pub IsSound-later :
    {now later : ℕ} {s : RamLinkServer} → now ≤ later → IsSound now s → IsSound later s
IsSound-later p h = record {
  valid = h.valid;
  separate = λ j k l m ne el em al am. h.separate j k l m ne el em (omega arith) (omega arith);
}

pub init-IsSound : (now size_mb : ℕ) {s : RamLinkServer} → init size_mb ≡ ok s → IsSound now s
unfolding init
init-IsSound now size_mb {s} h =
    let size : ℕ = (size_mb * 1024 * 1024 / sector_size) * sector_size in
    let e : s ≡ record {
      size = size;
      memory = replicate size 0;
      sectors = size / sector_size;
      leases = [];
      next_lease_id = 1;
    } =
      ground arith in
    rw e (record {
      valid = record {
        buffer = length-replicate size 0;
        whole = omega arith;
        distinct = tt;
        fresh = λ k l found. cc;
        named = λ k l found. cc;
        bounded = λ k l found. cc;
      };
      separate = λ j k l m ne found. cc;
    })

-- The table loses entries, and nothing else happens.
shrink-IsSound :
    (now : ℕ) (s : RamLinkServer) (d : Dict Lease)
    → HasDistinctKeys d
    → ((k : ℕ) (l : Lease) → lookup k d ≡ some l → lookup k s.leases ≡ some l)
    → IsSound now s
    → IsSound now (record s { leases = d })
shrink-IsSound now s d distinct sub h = record {
  valid = record {
    buffer = h.valid.buffer;
    whole = h.valid.whole;
    distinct = distinct;
    fresh = λ k l e. h.valid.fresh k l (sub k l e);
    named = λ k l e. h.valid.named k l (sub k l e);
    bounded = λ k l e. h.valid.bounded k l (sub k l e);
  };
  separate = λ j k l m ne el em. h.separate j k l m ne (sub j l el) (sub k m em);
}

pub erase-sub :
    (j : ℕ) (d : Dict Lease)
    → HasDistinctKeys d
    → (k : ℕ) (l : Lease) → lookup k (erase j d) ≡ some l
    → lookup k d ≡ some l
erase-sub j d distinct k l e = ground (arith, lookup-erase k j d distinct)

pub erase-IsSound :
    (now lease_id : ℕ) (s : RamLinkServer)
    → IsSound now s
    → IsSound now (record s { leases = erase lease_id s.leases })
erase-IsSound now lease_id s h =
    shrink-IsSound now s (erase lease_id s.leases)
      (erase-HasDistinctKeys lease_id s.leases h.valid.distinct)
      (erase-sub lease_id s.leases h.valid.distinct) h

release-IsSound :
    (now lease_id : ℕ) (s : RamLinkServer) → IsSound now s → IsSound now (release lease_id s).1
unfolding release
release-IsSound now lease_id s h = elim (Option-cases (lookup lease_id s.leases)) [
  | inl unknown ↦ rw (unknown, release) h
  | inr (lease, known) ↦ rw (known, release) (erase-IsSound now lease_id s h)
]

pub erase_ids-distinct :
    (ids : List ℕ) (d : Dict Lease) → HasDistinctKeys d → HasDistinctKeys (erase_ids ids d)
unfolding erase_ids
erase_ids-distinct [] d h = h
erase_ids-distinct (i ∷ ids) d h = erase_ids-distinct ids (erase i d) (erase-HasDistinctKeys i d h)

pub erase_ids-sub :
    (ids : List ℕ) (d : Dict Lease)
    → HasDistinctKeys d
    → (k : ℕ) (l : Lease) → lookup k (erase_ids ids d) ≡ some l
    → lookup k d ≡ some l
unfolding erase_ids
erase_ids-sub [] d h k l e = e
erase_ids-sub (i ∷ ids) d h k l e =
    erase-sub i d h k l (erase_ids-sub ids (erase i d) (erase-HasDistinctKeys i d h) k l e)

-- What is left in the table was there.
pub cleanup_expired-sub :
    (at : ℕ) (s : RamLinkServer)
    → HasDistinctKeys s.leases
    → (k : ℕ) (l : Lease) → lookup k (cleanup_expired at s).leases ≡ some l
    → lookup k s.leases ≡ some l
unfolding cleanup_expired
cleanup_expired-sub at s distinct = erase_ids-sub (expired_ids at s.leases) s.leases distinct

-- A lease that is alive is kept.
expired_ids-apart :
    (at k : ℕ) (d : Dict Lease)
    → HasDistinctKeys d
    → ((l : Lease) → lookup k d ≡ some l → at < l.expires_at)
    → All (λ i. i ≢ k) (expired_ids at d)
unfolding expired_ids is_alive
expired_ids-apart at k [] distinct alive = tt
expired_ids-apart at k ((j, m) ∷ d) distinct alive =
    let rest = expired_ids-apart at k d distinct.1 (λ l e. ground (arith, alive l, distinct.0)) in
    elim (Bool-cases (ltb at m.expires_at)) [
      | inl lives ↦ rw lives rest
      | inr expired ↦ rw expired ((λ same. ground (arith, alive m, same, expired)), rest)
    ]

erase_ids-keeps :
    (ids : List ℕ) (k : ℕ) (l : Lease) (d : Dict Lease)
    → HasDistinctKeys d
    → All (λ i. i ≢ k) ids
    → lookup k d ≡ some l
    → lookup k (erase_ids ids d) ≡ some l
unfolding erase_ids
erase_ids-keeps [] k l d distinct apart e = e
erase_ids-keeps (i ∷ ids) k l d distinct apart e =
    erase_ids-keeps ids k l (erase i d) (erase-HasDistinctKeys i d distinct) apart.1
      (ground (arith, lookup-erase k i d distinct, apart.0))

pub cleanup_expired-keeps :
    (at : ℕ) (s : RamLinkServer) (k : ℕ) (l : Lease)
    → HasDistinctKeys s.leases
    → lookup k s.leases ≡ some l
    → at < l.expires_at
    → lookup k (cleanup_expired at s).leases ≡ some l
unfolding cleanup_expired
cleanup_expired-keeps at s k l distinct e alive =
    erase_ids-keeps (expired_ids at s.leases) k l s.leases distinct
      (expired_ids-apart at k s.leases distinct (λ m f. ground (arith, e, f))) e

pub cleanup_expired-IsSound :
    (now at : ℕ) (s : RamLinkServer) → IsSound now s → IsSound now (cleanup_expired at s)
unfolding cleanup_expired
cleanup_expired-IsSound now at s h =
    shrink-IsSound now s (erase_ids (expired_ids at s.leases) s.leases)
      (erase_ids-distinct (expired_ids at s.leases) s.leases h.valid.distinct)
      (erase_ids-sub (expired_ids at s.leases) s.leases h.valid.distinct) h

pub store-IsSound :
    (now offset size : ℕ) (bytes : Bytes) (s : RamLinkServer)
    → length bytes ≡ size
    → offset + size ≤ s.size
    → IsSound now s
    → IsSound now (store offset size bytes s)
unfolding store
store-IsSound now offset size bytes s e fits h = record {
  valid = record {
    buffer =
        length-set_slice s.memory offset (offset + size) bytes (omega arith)
          (omega (arith, h.valid.buffer))
        ∙ h.valid.buffer;
    whole = h.valid.whole;
    distinct = h.valid.distinct;
    fresh = h.valid.fresh;
    named = h.valid.named;
    bounded = h.valid.bounded;
  };
  separate = h.separate;
}

-- An entry is written whose region meets no other live lease.
insert-IsSound :
    (now k next : ℕ) (x : Lease) (s : RamLinkServer)
    → k < next
    → s.next_lease_id ≤ next
    → x.lease_id ≡ k
    → x.offset + x.length ≤ s.size
    → ((j : ℕ) (m : Lease)
        → j ≢ k
        → lookup j s.leases ≡ some m
        → now < m.expires_at
        → Apart x.offset x.length m)
    → IsSound now s
    → IsSound now (record s { next_lease_id = next; leases = insert k x s.leases })
insert-IsSound now k next x s below grown named fits free h = record {
  valid = record {
    buffer = h.valid.buffer;
    whole = h.valid.whole;
    distinct = insert-HasDistinctKeys k x s.leases h.valid.distinct;
    fresh = λ j l e. ground (arith, lookup-insert j k x s.leases, h.valid.fresh j l);
    named = λ j l e. ground (arith, lookup-insert j k x s.leases, h.valid.named j l);
    bounded = λ j l e. ground (arith, lookup-insert j k x s.leases, h.valid.bounded j l);
  };
  separate = λ i j l m ne el em al am. ground (
    arith,
    lookup-insert i k x s.leases,
    lookup-insert j k x s.leases,
    h.separate i j l m ne,
    free i l,
    free j m,
  );
}

-- A new lease on a region that meets no live lease.
pub register_lease-IsSound :
    (now offset size : ℕ) (s : RamLinkServer)
    → offset + size ≤ s.size
    → ((k : ℕ) (l : Lease) → lookup k s.leases ≡ some l → now < l.expires_at → Apart offset size l)
    → IsSound now s
    → IsSound now (register_lease now offset size s).1
unfolding register_lease
register_lease-IsSound now offset size s fits free h =
    insert-IsSound now s.next_lease_id (s.next_lease_id + 1)
      (new_lease now s.next_lease_id offset size) s (omega arith) (omega arith) refl fits
      (λ j m ne. free j m) h

-- A lease that is alive is renewed.
pub keepalive-IsSound :
    (now later : ℕ) (s : RamLinkServer) (lease : Lease)
    → now ≤ later
    → lookup lease.lease_id s.leases ≡ some lease
    → now < lease.expires_at
    → IsSound now s
    → IsSound later (keepalive later lease s)
unfolding keepalive
keepalive-IsSound now later s lease p found alive h =
    insert-IsSound later lease.lease_id s.next_lease_id (renew later lease) s
      (h.valid.fresh _ _ found) (omega arith) refl (h.valid.bounded _ _ found)
      (λ j m ne e a.
        h.separate lease.lease_id j lease m (λ q. ne (sym q)) found e alive (omega arith))
      (IsSound-later p h)
