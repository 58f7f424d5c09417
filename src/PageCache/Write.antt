-- ===== src/PageCache/Write.antt =====
-- `write` of the page cache: the memory that the cache stands for takes the bytes, where all pages fit the cache.
use ram_link.Base.{
  ℕ, suc, zero, ◌+◌, ◌-◌, ◌*◌, ◌/◌, ◌%◌, ◌≤◌, ◌<◌, min, ◌≡◌, refl, ◌∙◌, ap, inl, inr, arith, length,
  Bytes, if◌then◌else◌, ltb, leb, slice, set_slice, get_elem?, length-set_slice, length-slice,
  Bool-cases, Result, ok,
}
use ram_link.Backend.{Backend, IsMemory}
use ram_link.PageCache.Defs.{World, check, write_loop, write, load_page}
use ram_link.PageCache.Paging.{page_length, page_split}
use ram_link.PageCache.View.{view, IsCoherent}
use ram_link.PageCache.Load.{load_page-Loads}
use ram_link.PageCache.Put.{
  after_put, after_put-IsCoherent, Spliced, Spliced-trans, view-put_loaded,
}

-- The memory fits the cache.
abbrev pub Fits : {Remote : Type 0} → World Remote → Type 0
Fits w = w.cache.remote_size ≤ w.cache.max_pages * w.cache.page_size

module _ {Remote : Type 0} (api : Backend Remote) (contents : Remote → Bytes) where
  -- The sizes that no method changes.
  pub record SameSizes (w after : World Remote) : Type 0 where
    pub page_size : after.cache.page_size ≡ w.cache.page_size
    pub remote_size : after.cache.remote_size ≡ w.cache.remote_size
    pub max_pages : after.cache.max_pages ≡ w.cache.max_pages

  SameSizes-trans : (w w' w'' : World Remote) → SameSizes w w' → SameSizes w' w'' → SameSizes w w''
  SameSizes-trans w w' w'' a b = record {
    page_size = b.page_size ∙ a.page_size;
    remote_size = b.remote_size ∙ a.remote_size;
    max_pages = b.max_pages ∙ a.max_pages;
  }

  -- What the loop of `write` does with the bytes that are left.
  record WritesOn (w : World Remote) (fuel offset : ℕ) (bytes : Bytes) (pos : ℕ) : Type 0 where
    after : World Remote
    returns : write_loop api fuel offset bytes pos w ≡ (ok tt, after)
    coherent : IsCoherent contents after
    sizes : SameSizes w after
    spliced : Spliced contents w after offset bytes pos

  -- A round of the loop.
  write_step :
      (fuel offset : ℕ) (bytes : Bytes) (pos : ℕ) (w : World Remote) (page : Bytes)
      (after : World Remote) (r : Result (Unit {0}) × World Remote)
      → pos < length bytes
      → load_page api (offset / w.cache.page_size) w ≡ (ok page, after)
      → let n = min (length bytes - pos) (length page - offset % w.cache.page_size) in
        let inside = offset % w.cache.page_size in
        let chunk = slice bytes pos (pos + n) in
        write_loop api fuel (offset + n) bytes (pos + n) (
            after_put contents after
              (offset / w.cache.page_size)
              (set_slice page inside (inside + length chunk) chunk))
          ≡ r
        → write_loop api (suc fuel) offset bytes pos w ≡ r
  unfolding write_loop
  write_step fuel offset bytes pos w page after r left loaded rest =
      ground (arith, left, loaded, rest)

  module _ (works : IsMemory api contents) where
    write_loop-WritesOn :
        (fuel offset : ℕ) (bytes : Bytes) (pos : ℕ) (w : World Remote)
        → length bytes ≤ pos + fuel
        → pos ≤ length bytes
        → offset + (length bytes - pos) ≤ w.cache.remote_size
        → IsCoherent contents w
        → Fits w
        → WritesOn w fuel offset bytes pos
    unfolding write_loop
    write_loop-WritesOn zero offset bytes pos w enough upto fits h room = record {
      after = w;
      returns = ground arith;
      coherent = h;
      sizes = record { page_size = refl; remote_size = refl; max_pages = refl };
      spliced = λ i. ground arith;
    }
    write_loop-WritesOn (suc fuel) offset bytes pos w enough upto fits h room =
        elim (Bool-cases (leb (length bytes) pos)) [
          | inl all ↦ record {
            after = w;
            returns = ground (arith, all);
            coherent = h;
            sizes = record { page_size = refl; remote_size = refl; max_pages = refl };
            spliced = λ i. ground (arith, all);
          }
          | inr left ↦
              let ps = w.cache.page_size in
              let p = offset / ps in
              let inside = offset % ps in
              let (whole, small) = page_split offset ps h.page_pos in
              let some_left : pos < length bytes = ground (arith, left) in
              let loads = load_page-Loads api contents works w p h (inr room) (omega arith) in
              let page = loads.page in
              let full : length page ≡ page_length ps w.cache.remote_size p =
                loads.coherent.full p page loads.cached
                ∙ rw (loads.agrees.page_size, loads.agrees.remote_size) refl in
              let more : inside < length page = omega (arith, full, whole) in
              let n = min (length bytes - pos) (length page - inside) in
              let chunk = slice bytes pos (pos + n) in
              let new = set_slice page inside (inside + length chunk) chunk in
              let sized = length-slice bytes pos (pos + n) (omega arith) (omega arith) in
              let put = after_put contents loads.after p new in
              let coherent =
                after_put-IsCoherent contents loads.after p new page loads.coherent loads.cached (
                  length-set_slice page inside (inside + length chunk) chunk refl
                    (omega (arith, sized, more))) in
              let rest =
                write_loop-WritesOn fuel (offset + n) bytes (pos + n) put
                  (omega (arith, more, some_left)) (omega arith)
                  (omega (arith, loads.agrees.remote_size)) coherent
                  (rw (loads.agrees.remote_size, loads.agrees.max_pages, loads.agrees.page_size)
                    room) in
              let address : p * loads.after.cache.page_size + inside ≡ offset =
                ap (λ (s : ℕ). p * s + inside) loads.agrees.page_size ∙ whole in
              record {
                after = rest.after;
                returns =
                    write_step fuel offset bytes pos w page loads.after (ok tt, rest.after)
                      some_left loads.returns rest.returns;
                coherent = rest.coherent;
                sizes =
                    SameSizes-trans w put rest.after
                      (record {
                        page_size = loads.agrees.page_size;
                        remote_size = loads.agrees.remote_size;
                        max_pages = loads.agrees.max_pages;
                      })
                      rest.sizes;
                spliced =
                    Spliced-trans contents w put rest.after offset n pos bytes
                      (view-put_loaded contents w loads.after p inside n pos offset page bytes
                        loads.coherent loads.agrees loads.cached
                        (omega (arith, full, loads.agrees.page_size)) (omega (arith, more))
                        (omega arith) address)
                      rest.spliced (omega (arith));
              }
        ]

  -- What `write` does: the memory that the cache stands for holds the bytes, and is the same elsewhere.
  pub record Writes (w : World Remote) (offset : ℕ) (bytes : Bytes) : Type 0 where
    pub after : World Remote
    pub returns : write api offset bytes w ≡ (ok tt, after)
    pub coherent : IsCoherent contents after
    pub sizes : SameSizes w after
    pub viewed :
        (i : ℕ)
        → view contents after i ≡ (
            if ltb i offset
            then view contents w i
            else (if ltb i (offset + length bytes)
                then get_elem? bytes (i - offset)
                else view contents w i))

  whole :
      (w : World Remote) (offset : ℕ) (bytes : Bytes)
      → offset + length bytes ≤ w.cache.remote_size
      → WritesOn w (length bytes) offset bytes 0
      → Writes w offset bytes
  unfolding write check
  whole w offset bytes fits on = record {
    after = on.after;
    returns = ground (arith, on.returns);
    coherent = on.coherent;
    sizes = on.sizes;
    viewed = λ i.
        let place : 0 + (i - offset) ≡ i - offset = omega arith in
        ground (arith, on.spliced i, ap (get_elem? bytes) place);
  }

  -- On a backend that works, and where all pages fit the cache, `write` into the memory succeeds, and the
  -- memory that the cache stands for holds the bytes written and is the same elsewhere.
  pub write-Writes :
      (w : World Remote) (offset : ℕ) (bytes : Bytes)
      → IsMemory api contents
      → offset + length bytes ≤ w.cache.remote_size
      → IsCoherent contents w
      → Fits w
      → Writes w offset bytes
  write-Writes w offset bytes works fits h room = whole w offset bytes fits (
      write_loop-WritesOn works (length bytes) offset bytes 0 w (omega arith) (omega arith)
        (omega arith) h room)
