-- ===== src/PageCache/Session.antt =====
-- Calls of one cache after another, against the same calls of an array of bytes.
use ram_link.Base.{
  ℕ, ◌+◌, ◌*◌, ◌/◌, ◌≤◌, ◌<◌, ◌≡◌, refl, ◌∙◌, subst, sym, ap, inl, inr, lt-or-le, List, [], ◌∷◌,
  All, arith, length, length-set_slice, slice, set_slice, get_elem?, get_elem?-slice,
  get_elem?-set_slice, get_elem?_of_length-le, ext_get_elem?, Bytes, ok,
}
use ram_link.Exec.{Exec, ◌>>=◌, ◌>>◌, pure}
use ram_link.Backend.{Backend, IsMemory, max_transfer}
use ram_link.PageCache.Defs.{RemoteMemoryCache, World, init, read, write, flush}
use ram_link.PageCache.View.{view, IsCoherent}
use ram_link.PageCache.Read.{read-Reads}
use ram_link.PageCache.Write.{Fits, write-Writes}
use ram_link.PageCache.Flush.{flush-Flushes}
use ram_link.PageCache.Fresh.{init-Fresh}

-- A call of a method of the cache.
pub data Call : Type 0 where
  read_at : ℕ → ℕ → Call
  write_at : ℕ → Bytes → Call
  flush_all : Call

-- The range of a call lies in a memory of `size` bytes.
abbrev pub IsInside : ℕ → Call → Type 0
IsInside size (read_at offset n) = offset + n ≤ size
IsInside size (write_at offset bytes) = offset + length bytes ≤ size
IsInside size flush_all = Unit

-- What the calls of an array return, and the array behind them.
abbrev pub answers : List Call → Bytes → List Bytes
answers [] m = []
answers (read_at offset n ∷ calls) m = slice m offset (offset + n) ∷ answers calls m
answers (write_at offset bytes ∷ calls) m =
    [] ∷ answers calls (set_slice m offset (offset + length bytes) bytes)
answers (flush_all ∷ calls) m = [] ∷ answers calls m

abbrev pub array_after : List Call → Bytes → Bytes
array_after [] m = m
array_after (read_at offset n ∷ calls) m = array_after calls m
array_after (write_at offset bytes ∷ calls) m =
    array_after calls (set_slice m offset (offset + length bytes) bytes)
array_after (flush_all ∷ calls) m = array_after calls m

module _ {Remote : Type 0} (api : Backend Remote) where
  abbrev pub perform : Call → Exec (World Remote) Bytes
  perform (read_at offset n) = read api offset n
  perform (write_at offset bytes) = do write api offset bytes; pure []
  perform flush_all = do flush api; pure []

  abbrev pub run : List Call → Exec (World Remote) (List Bytes)
  run [] = pure []
  run (call ∷ calls) = do answer ← perform call; rest ← run calls; pure (answer ∷ rest)

module _ {Remote : Type 0} (api : Backend Remote) (contents : Remote → Bytes)
    (works : IsMemory api contents) where
  -- The cache stands for the array.
  record Stands (w : World Remote) (m : Bytes) : Type 0 where
    coherent : IsCoherent contents w
    fits : Fits w
    sized : length m ≡ w.cache.remote_size
    viewed : (i : ℕ) → view contents w i ≡ get_elem? m i

  -- A call, and the array behind it.
  abbrev Answers : Call → World Remote → Bytes → Bytes → Bytes → Type 0
  Answers call w m answer m' =
      (w' : World Remote) × (perform api call w ≡ (ok answer, w'))
      × Stands w' m'
      × (length m' ≡ length m)

  read_at-Answers :
      (offset n : ℕ) (w : World Remote) (m : Bytes)
      → Stands w m
      → offset + n ≤ length m
      → Answers (read_at offset n) w m (slice m offset (offset + n)) m
  read_at-Answers offset n w m h inside =
      let r =
        read-Reads api contents w offset n works (omega (arith, inside, h.sized)) h.coherent
          (inr h.fits) in
      let same : r.bytes ≡ slice m offset (offset + n) =
        ext_get_elem? r.bytes (slice m offset (offset + n)) λ i. elim (lt-or-le i n) [
          | inl within ↦ ground (
            arith,
            r.viewed i within,
            h.viewed (offset + i),
            get_elem?-slice m offset (offset + n) i,
          )
          | inr beyond ↦ ground (
            arith,
            get_elem?_of_length-le r.bytes i (omega (arith, r.sized, beyond)),
            get_elem?-slice m offset (offset + n) i,
          )
        ] in
      (
        r.after,
        r.returns ∙ ap (λ (b : Bytes). (ok b, r.after)) same,
        record {
          coherent = r.coherent;
          fits = rw (r.agrees.page_size, r.agrees.remote_size, r.agrees.max_pages) h.fits;
          sized = h.sized ∙ sym r.agrees.remote_size;
          viewed = λ i. r.agrees.bytes i ∙ h.viewed i;
        },
        refl,
      )

  write_at-Answers :
      (offset : ℕ) (bytes : Bytes) (w : World Remote) (m : Bytes)
      → Stands w m
      → offset + length bytes ≤ length m
      → Answers (write_at offset bytes) w m [] (set_slice m offset (offset + length bytes) bytes)
  write_at-Answers offset bytes w m h inside =
      let r =
        write-Writes api contents w offset bytes works (omega (arith, inside, h.sized)) h.coherent
          h.fits in
      let kept = length-set_slice m offset (offset + length bytes) bytes refl inside in
      (
        r.after,
        ground (arith, r.returns),
        record {
          coherent = r.coherent;
          fits = rw (r.sizes.page_size, r.sizes.remote_size, r.sizes.max_pages) h.fits;
          sized = kept ∙ h.sized ∙ sym r.sizes.remote_size;
          viewed = λ i. ground (
            arith,
            r.viewed i,
            h.viewed i,
            get_elem?-set_slice m offset (offset + length bytes) bytes i refl
                (omega (arith, inside)),
          );
        },
        kept,
      )

  flush_all-Answers : (w : World Remote) (m : Bytes) → Stands w m → Answers flush_all w m [] m
  flush_all-Answers w m h =
      let r = flush-Flushes api contents w works h.coherent in
      (
        r.after,
        ground (arith, r.returns),
        record {
          coherent = r.coherent;
          fits = rw (r.sizes.0, r.sizes.1, r.sizes.2) h.fits;
          sized = h.sized ∙ sym r.sizes.1;
          viewed = λ i. r.viewed i ∙ h.viewed i;
        },
        refl,
      )

  call-Answers :
      (call : Call) (w : World Remote) (m : Bytes)
      → Stands w m
      → IsInside (length m) call
      → (answer : Bytes) × (m' : Bytes) × Answers call w m answer m'
        × ((calls : List Call)
            → (answers (call ∷ calls) m ≡ answer ∷ answers calls m')
              × (array_after (call ∷ calls) m ≡ array_after calls m'))
  call-Answers (read_at offset n) w m h inside =
      (_, m, read_at-Answers offset n w m h inside, λ calls. (refl, refl))
  call-Answers (write_at offset bytes) w m h inside =
      (_, _, write_at-Answers offset bytes w m h inside, λ calls. (refl, refl))
  call-Answers flush_all w m h inside = (_, m, flush_all-Answers w m h, λ calls. (refl, refl))

  run-answers :
      (calls : List Call) (w : World Remote) (m : Bytes)
      → Stands w m
      → All (IsInside (length m)) calls
      → (w' : World Remote) × (run api calls w ≡ (ok (answers calls m), w'))
        × Stands w' (array_after calls m)
  run-answers [] w m h inside = (w, refl, h)
  run-answers (call ∷ calls) w m h inside =
      let (answer, m', done, next) = call-Answers call w m h inside.0 in
      let (w1, performed, h1, kept) = done in
      let (w2, returns, h2) =
        run-answers calls w1 m' h1
          (subst (λ (n : ℕ). All (IsInside n) calls) (sym kept) inside.1) in
      let (said, left) = next calls in
      (w2, ground (arith, performed, returns, said), subst (Stands w2) (sym left) h2)

  -- A new cache whose pages hold all of the remote memory answers any calls of read, write and flush inside the memory as an
  -- array of the memory's bytes does, and a flush behind them leaves the array in the remote memory, if the backend works and a
  -- page has at least one byte and fits a transfer.
  pub cache_refines :
      (capacity_mb page_size : ℕ) (cache : RemoteMemoryCache) (remote : Remote) (calls : List Call)
      → init capacity_mb (length (contents remote)) page_size ≡ ok cache
      → 0 < page_size
      → page_size ≤ max_transfer
      → length (contents remote) ≤ (capacity_mb * 1024 * 1024 / page_size) * page_size
      → All (IsInside (length (contents remote))) calls
      → (w : World Remote) × (w' : World Remote) × (run api calls
            (record { cache = cache; remote = remote })
          ≡ (ok (answers calls (contents remote)), w))
        × (flush api w ≡ (ok tt, w'))
        × (contents w'.remote ≡ array_after calls (contents remote))
  unfolding init
  cache_refines capacity_mb page_size cache remote calls made pos short room inside =
      let size = length (contents remote) in
      let fresh = init-Fresh contents capacity_mb size page_size cache remote made pos short refl in
      let fits : cache.remote_size ≤ cache.max_pages * cache.page_size =
        ground (arith, made, room) in
      let (w, returns, h) =
        run-answers calls (record { cache = cache; remote = remote }) (contents remote)
          (record {
            coherent = fresh.coherent;
            fits = fits;
            sized = fresh.coherent.sized;
            viewed = fresh.viewed;
          })
          inside in
      let r = flush-Flushes api contents w works h.coherent in
      (
        w,
        r.after,
        returns,
        r.returns,
        ext_get_elem? (contents r.after.remote) (array_after calls (contents remote))
            (λ i. r.stored i ∙ h.viewed i),
      )
