-- ===== src/PageCache/Read.antt =====
-- `read` of the page cache: the bytes that the cache stands for.
use mathlib.Core.List.{append_assoc, append-nil}
use ram_link.Base.{
  ℕ, suc, zero, ◌+◌, ◌-◌, ◌*◌, ◌/◌, ◌%◌, ◌≤◌, ◌<◌, min, ◌≡◌, refl, ◌∙◌, ap, some, inl, inr, arith,
  length, Bytes, ltb, ltb→lt, lookup, slice, get_elem?, get_elem?-slice, get_elem?-append,
  length-append, length-slice, Bool-cases, [], ◌++◌, ok, err, value_error,
}
use ram_link.Backend.{Backend, IsMemory}
use ram_link.PageCache.Defs.{World, check, read_loop, read, write}
use ram_link.PageCache.Paging.{page_length, page_split, div_page, mod_page}
use ram_link.PageCache.View.{view, IsCoherent, IsSafe, Agrees}
use ram_link.PageCache.Load.{load_page-Loads}

module _ {Remote : Type 0} (contents : Remote → Bytes) where
  pub Agrees-refl : (w : World Remote) → Agrees contents w w
  Agrees-refl w = record {
    page_size = refl;
    remote_size = refl;
    max_pages = refl;
    dirty = refl;
    bytes = λ i. refl;
  }

  pub Agrees-trans :
      (w w' w'' : World Remote)
      → Agrees contents w w'
      → Agrees contents w' w''
      → Agrees contents w w''
  Agrees-trans w w' w'' a b = record {
    page_size = b.page_size ∙ a.page_size;
    remote_size = b.remote_size ∙ a.remote_size;
    max_pages = b.max_pages ∙ a.max_pages;
    dirty = b.dirty ∙ a.dirty;
    bytes = λ i. b.bytes i ∙ a.bytes i;
  }

  pub Agrees-IsSafe : (w w' : World Remote) → Agrees contents w w' → IsSafe w → IsSafe w'
  Agrees-IsSafe w w' a (inl h) = inl (a.dirty ∙ h)
  Agrees-IsSafe w w' a (inr h) = inr (rw (a.remote_size, a.max_pages, a.page_size) h)

  -- A byte of a cached page.
  pub view_cached :
      (w : World Remote) (p r : ℕ) (b : Bytes)
      → lookup p w.cache.pages ≡ some b
      → r < w.cache.page_size
      → view contents w (p * w.cache.page_size + r) ≡ get_elem? b r
  unfolding view
  view_cached w p r b e small =
      ground (arith, div_page p w.cache.page_size r small, mod_page p w.cache.page_size r small, e)

module _ {Remote : Type 0} (api : Backend Remote) (contents : Remote → Bytes) where
  -- What the loop of `read` adds to its output.
  record ReadsOn (w : World Remote) (fuel offset size : ℕ) (output : Bytes) : Type 0 where
    bytes : Bytes
    after : World Remote
    returns : read_loop api fuel offset size output w ≡ (ok (output ++ bytes), after)
    coherent : IsCoherent contents after
    agrees : Agrees contents w after
    sized : length bytes ≡ size
    viewed : (i : ℕ) → i < size → get_elem? bytes i ≡ view contents w (offset + i)

  -- Where a page and the rest of the bytes meet.
  viewed_step :
      (w after : World Remote) (p inside n size : ℕ) (page rest : Bytes)
      → Agrees contents w after
      → lookup p after.cache.pages ≡ some page
      → inside + n ≤ length page
      → length page ≤ w.cache.page_size
      → ((i : ℕ)
          → i < size - n
          → get_elem? rest i ≡ view contents after (p * w.cache.page_size + inside + n + i))
      → (i : ℕ) → i < size
      → get_elem? (slice page inside (inside + n) ++ rest) i
        ≡ view contents w (p * w.cache.page_size + inside + i)
  viewed_step w after p inside n size page rest agrees cached fits short later i below =
      elim (Bool-cases (ltb i n)) [
        | inl here ↦
            let seen =
              view_cached contents after p (inside + i) page cached
                (omega (arith, ltb→lt i n here, agrees.page_size)) in
            let address : p * after.cache.page_size + (inside + i)
                ≡ p * w.cache.page_size + inside + i =
              omega (arith, ap (λ (s : ℕ). p * s) agrees.page_size) in
            ground (
              arith,
              seen,
              ap (view contents after) address,
              agrees.bytes (p * w.cache.page_size + inside + i),
              get_elem?-append (slice page inside (inside + n)) rest i,
              get_elem?-slice page inside (inside + n) i,
              length-slice page inside (inside + n) (omega arith) fits,
            )
        | inr there ↦
            let address : p * w.cache.page_size + inside + n + (i - n)
                ≡ p * w.cache.page_size + inside + i =
              ground arith in
            ground (
              arith,
              later (i - n),
              ap (view contents after) address,
              agrees.bytes (p * w.cache.page_size + inside + i),
              get_elem?-append (slice page inside (inside + n)) rest i,
              length-slice page inside (inside + n) (omega arith) fits,
            )
      ]

  module _ (works : IsMemory api contents) where
    read_loop-ReadsOn :
        (fuel offset size : ℕ) (output : Bytes) (w : World Remote)
        → size ≤ fuel
        → offset + size ≤ w.cache.remote_size
        → IsCoherent contents w
        → IsSafe w
        → ReadsOn w fuel offset size output
    unfolding read_loop
    read_loop-ReadsOn zero offset size output w enough fits h safe = record {
      bytes = [];
      after = w;
      returns = ground (arith, append-nil output);
      coherent = h;
      agrees = Agrees-refl contents w;
      sized = omega arith;
      viewed = λ i k. absurd (omega arith);
    }
    read_loop-ReadsOn (suc fuel) offset zero output w enough fits h safe = record {
      bytes = [];
      after = w;
      returns = ground (arith, append-nil output);
      coherent = h;
      agrees = Agrees-refl contents w;
      sized = omega arith;
      viewed = λ i k. absurd (omega arith);
    }
    read_loop-ReadsOn (suc fuel) offset (suc size) output w enough fits h safe =
        let ps = w.cache.page_size in
        let p = offset / ps in
        let inside = offset % ps in
        let (whole, small) = page_split offset ps h.page_pos in
        let loads = load_page-Loads api contents works w p h safe (omega arith) in
        let n = min (suc size) (length loads.page - inside) in
        let full : length loads.page ≡ page_length ps w.cache.remote_size p =
          loads.coherent.full p loads.page loads.cached
          ∙ rw (loads.agrees.page_size, loads.agrees.remote_size) refl in
        let more : inside < length loads.page = omega (arith, full, whole) in
        let rest =
          read_loop-ReadsOn fuel (offset + n) (suc size - n)
            (output ++ slice loads.page inside (inside + n)) loads.after (omega (arith, more))
            (omega (arith, more, loads.agrees.remote_size)) loads.coherent
            (Agrees-IsSafe contents w loads.after loads.agrees safe) in
        record {
          bytes = slice loads.page inside (inside + n) ++ rest.bytes;
          after = rest.after;
          returns = ground (
            arith,
            loads.returns,
            rest.returns,
            append_assoc output (slice loads.page inside (inside + n)) rest.bytes,
          );
          coherent = rest.coherent;
          agrees = Agrees-trans contents w loads.after rest.after loads.agrees rest.agrees;
          sized = omega (
            arith,
            more,
            rest.sized,
            length-append (slice loads.page inside (inside + n)) rest.bytes,
            length-slice loads.page inside (inside + n) (omega arith) (omega (arith, more)),
          );
          viewed = λ i below.
              let address : p * ps + inside + i ≡ offset + i = omega (arith, whole) in
              viewed_step w loads.after p inside n (suc size) loads.page rest.bytes loads.agrees
                loads.cached (omega (arith, more)) (omega (arith, full))
                (λ j k. rest.viewed j k ∙ ap (view contents loads.after) (omega (arith, whole))) i
                below
              ∙ ap (view contents w) address;
        }

  -- What `read` gives: the bytes that the cache stands for, which stay as they are.
  pub record Reads (w : World Remote) (offset size : ℕ) : Type 0 where
    pub bytes : Bytes
    pub after : World Remote
    pub returns : read api offset size w ≡ (ok bytes, after)
    pub coherent : IsCoherent contents after
    pub agrees : Agrees contents w after
    pub sized : length bytes ≡ size
    pub viewed : (i : ℕ) → i < size → get_elem? bytes i ≡ view contents w (offset + i)

  -- On a backend that works, `read` of a range of the memory returns as many bytes as it was asked for, those
  -- that the cache stands for, and leaves a cache that stands for the same memory, if no page that holds a
  -- change can be evicted.
  pub read-Reads :
      (w : World Remote) (offset size : ℕ)
      → IsMemory api contents
      → offset + size ≤ w.cache.remote_size
      → IsCoherent contents w
      → IsSafe w
      → Reads w offset size
  unfolding read check
  read-Reads w offset size works fits h safe =
      let on = read_loop-ReadsOn works size offset size [] w (omega arith) fits h safe in
      record {
        bytes = on.bytes;
        after = on.after;
        returns = ground (arith, on.returns);
        coherent = on.coherent;
        agrees = on.agrees;
        sized = on.sized;
        viewed = on.viewed;
      }

module _ {Remote : Type 0} (api : Backend Remote) where
  -- A `read` or a `write` outside of the memory raises ValueError and changes nothing.
  pub outside_refused :
      (w : World Remote) (offset size : ℕ) (bytes : Bytes)
      → w.cache.remote_size < offset + size
      → length bytes ≡ size
      → (read api offset size w ≡ (err value_error, w))
        × (write api offset bytes w ≡ (err value_error, w))
  unfolding read write check
  outside_refused w offset size bytes far e = (ground arith, ground (arith, e))
