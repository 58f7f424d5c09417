-- ===== src/Provider/Table.antt =====
-- The invariant of `RAMProvider` (clients/windows/ramlink_memory_provider.py), and each step on the server alone. Its
-- search goes round every lease in the table, so no two leases of the table meet, whether they are alive or not.
use ram_link.Base.{
  ℕ, ◌+◌, ◌*◌, ◌/◌, ◌≤◌, ◌<◌, ◌≡◌, ◌≢◌, refl, ◌∙◌, sym, [], ◌∷◌, some, arith, All, Dict, lookup,
  insert, erase, lookup-insert, insert-HasDistinctKeys, erase-HasDistinctKeys, HasDistinctKeys,
  length, length-set_slice, replicate, length-replicate, Bytes, ok, Bool-cases, inl, inr, ◌==◌,
  subst,
}
use ram_link.Server.Leases.{Lease, sector_size, expired_ids, erase_ids, new_lease, renew}
use ram_link.Server.Regions.{Apart, scan-fits, scan-Apart, sort-IsSorted, All-sort, sort-All}
use ram_link.Server.Invariant.{erase-sub, erase_ids-distinct, erase_ids-sub}
use ram_link.Provider.Defs.{RamProvider, init, cleanup, values, free_region, register, put}

pub record IsSound (s : RamProvider) : Type 0 where
  pub buffer : length s.memory ≡ s.size
  pub distinct : HasDistinctKeys s.leases
  pub fresh : (k : ℕ) (l : Lease) → lookup k s.leases ≡ some l → k < s.next_lease_id
  pub named : (k : ℕ) (l : Lease) → lookup k s.leases ≡ some l → l.lease_id ≡ k
  pub bounded : (k : ℕ) (l : Lease) → lookup k s.leases ≡ some l → l.offset + l.length ≤ s.size
  pub separate :
      (j k : ℕ) (l m : Lease)
      → j ≢ k
      → lookup j s.leases ≡ some l
      → lookup k s.leases ≡ some m
      → Apart l.offset l.length m

-- The table loses entries, and nothing else happens.
shrink-IsSound :
    (s : RamProvider) (d : Dict Lease)
    → HasDistinctKeys d
    → ((k : ℕ) (l : Lease) → lookup k d ≡ some l → lookup k s.leases ≡ some l)
    → IsSound s
    → IsSound (record s { leases = d })
shrink-IsSound s d distinct sub h = record {
  buffer = h.buffer;
  distinct = distinct;
  fresh = λ k l e. h.fresh k l (sub k l e);
  named = λ k l e. h.named k l (sub k l e);
  bounded = λ k l e. h.bounded k l (sub k l e);
  separate = λ j k l m ne el em. h.separate j k l m ne (sub j l el) (sub k m em);
}

pub erase-IsSound :
    (lease_id : ℕ) (s : RamProvider)
    → IsSound s
    → IsSound (record s { leases = erase lease_id s.leases })
erase-IsSound lease_id s h =
    shrink-IsSound s (erase lease_id s.leases) (erase-HasDistinctKeys lease_id s.leases h.distinct)
      (erase-sub lease_id s.leases h.distinct) h

pub cleanup-IsSound : (at : ℕ) (s : RamProvider) → IsSound s → IsSound (cleanup at s)
unfolding cleanup
cleanup-IsSound at s h =
    shrink-IsSound s (erase_ids (expired_ids at s.leases) s.leases)
      (erase_ids-distinct (expired_ids at s.leases) s.leases h.distinct)
      (erase_ids-sub (expired_ids at s.leases) s.leases h.distinct) h

pub put-IsSound :
    (offset size : ℕ) (bytes : Bytes) (s : RamProvider)
    → length bytes ≡ size
    → offset + size ≤ s.size
    → IsSound s
    → IsSound (put offset size bytes s)
unfolding put
put-IsSound offset size bytes s e fits h = record {
  buffer =
      length-set_slice s.memory offset (offset + size) bytes (omega arith) (omega (arith, h.buffer))
      ∙ h.buffer;
  distinct = h.distinct;
  fresh = h.fresh;
  named = h.named;
  bounded = h.bounded;
  separate = h.separate;
}

-- An entry is written whose region meets no other lease.
pub insert-IsSound :
    (k next : ℕ) (x : Lease) (s : RamProvider)
    → k < next
    → s.next_lease_id ≤ next
    → x.lease_id ≡ k
    → x.offset + x.length ≤ s.size
    → ((j : ℕ) (m : Lease) → j ≢ k → lookup j s.leases ≡ some m → Apart x.offset x.length m)
    → IsSound s
    → IsSound (record s { next_lease_id = next; leases = insert k x s.leases })
insert-IsSound k next x s below grown named fits free h = record {
  buffer = h.buffer;
  distinct = insert-HasDistinctKeys k x s.leases h.distinct;
  fresh = λ j l e. ground (arith, lookup-insert j k x s.leases, h.fresh j l);
  named = λ j l e. ground (arith, lookup-insert j k x s.leases, h.named j l);
  bounded = λ j l e. ground (arith, lookup-insert j k x s.leases, h.bounded j l);
  separate = λ i j l m ne el em. ground (
    arith,
    lookup-insert i k x s.leases,
    lookup-insert j k x s.leases,
    h.separate i j l m ne,
    free i l,
    free j m,
  );
}

-- Between the entries of a table and the list of its leases.
pub values-All :
    (P : Lease → Type 0) (d : Dict Lease)
    → HasDistinctKeys d
    → ((k : ℕ) (l : Lease) → lookup k d ≡ some l → P l)
    → All P (values d)
values-All P [] distinct h = tt
values-All P ((j, m) ∷ d) distinct h =
    (h j m (ground arith), values-All P d distinct.1 (λ k l e. h k l (ground arith)))

All-values :
    (P : Lease → Type 0) (d : Dict Lease)
    → All P (values d)
    → (k : ℕ) (l : Lease) → lookup k d ≡ some l
    → P l
All-values P [] h k l e = cc
All-values P ((j, m) ∷ d) h k l e = elim (Bool-cases (j == k)) [
  | inl here ↦ let same : m ≡ l = ground arith in subst P same h.0
  | inr later ↦ All-values P d h.1 k l (rw later at e)
]

-- The region that is found lies in the buffer and meets no lease of the table.
pub free_region-Apart :
    (size offset : ℕ) (s : RamProvider)
    → free_region size s ≡ some offset
    → IsSound s
    → (offset + size ≤ s.size)
      × ((k : ℕ) (l : Lease) → lookup k s.leases ≡ some l → Apart offset size l)
unfolding free_region
free_region-Apart size offset s found h = (
  scan-fits s.size size 0 offset _
      (All-sort (λ l. l.offset + l.length ≤ s.size) (values s.leases)
        (values-All _ s.leases h.distinct h.bounded))
      found,
  All-values (Apart offset size) s.leases (
      sort-All (Apart offset size) (values s.leases)
        (scan-Apart s.size size 0 offset _ (sort-IsSorted (values s.leases)) found)),
)

pub register-IsSound :
    (now offset size : ℕ) (s : RamProvider)
    → offset + size ≤ s.size
    → ((k : ℕ) (l : Lease) → lookup k s.leases ≡ some l → Apart offset size l)
    → IsSound s
    → IsSound (register now offset size s).1
unfolding register new_lease
register-IsSound now offset size s fits free h =
    insert-IsSound s.next_lease_id (s.next_lease_id + 1) _ s (omega arith) (omega arith) refl fits
      (λ j m ne. free j m) h

-- A lease of the table is renewed.
pub renew-IsSound :
    (now k : ℕ) (s : RamProvider) (lease : Lease)
    → lookup k s.leases ≡ some lease
    → IsSound s
    → IsSound (record s { leases = insert lease.lease_id (renew now lease) s.leases })
unfolding renew
renew-IsSound now k s lease found h =
    let named = h.named k lease found in
    let here : lookup lease.lease_id s.leases ≡ some lease =
      subst (λ (i : ℕ). lookup i s.leases ≡ some lease) (sym named) found in
    insert-IsSound lease.lease_id s.next_lease_id (renew now lease) s (h.fresh _ _ here)
      (omega arith) refl (h.bounded _ _ here)
      (λ j m ne e. h.separate lease.lease_id j lease m (λ q. ne (sym q)) here e) h

pub init-IsSound : (size_mb : ℕ) (s : RamProvider) → init size_mb ≡ ok s → IsSound s
unfolding init
init-IsSound size_mb s made =
    let size : ℕ = (size_mb * 1024 * 1024 / sector_size) * sector_size in
    let e : s ≡ record { size = size; memory = replicate size 0; leases = []; next_lease_id = 1 } =
      ground arith in
    rw e (record {
      buffer = length-replicate size 0;
      distinct = tt;
      fresh = λ k l found. cc;
      named = λ k l found. cc;
      bounded = λ k l found. cc;
      separate = λ j k l m ne found. cc;
    })
