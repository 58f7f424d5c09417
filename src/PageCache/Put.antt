-- ===== src/PageCache/Put.antt =====
-- A change of a page that is there, and what can be read after it.
use ram_link.Base.{
  ℕ, ◌+◌, ◌-◌, ◌*◌, ◌/◌, ◌%◌, ◌≤◌, ◌≡◌, refl, ◌∙◌, ap, sym, subst, some, true, inl, inr, arith,
  length, Bytes, if◌then◌else◌, ltb, ◌==◌, ==_iff, HasDistinctKeys, Dict, lookup, insert,
  move_to_end, lookup-insert, lookup-move_to_end, insert-HasDistinctKeys,
  move_to_end-HasDistinctKeys, slice, set_slice, get_elem?, get_elem?-slice, get_elem?-set_slice,
  length-slice, lt-or-le, Bool-cases, Option-cases, List, [], ◌∷◌,
}
use ram_link.PageCache.Defs.{World, member, add}
use ram_link.PageCache.Paging.{page_split, page_of}
use ram_link.PageCache.View.{view, IsCoherent, Agrees}
use ram_link.PageCache.Read.{view_cached}

-- The dict of pages after a change of one of them.
abbrev pub put : ℕ → Bytes → Dict Bytes → Dict Bytes
put p b pages = move_to_end p (insert p b pages)

lookup-put :
    (q p : ℕ) (b : Bytes) (pages : Dict Bytes)
    → HasDistinctKeys pages
    → lookup q (put p b pages) ≡ (if q == p then some b else lookup q pages)
lookup-put q p b pages h =
    lookup-move_to_end q p (insert p b pages) (insert-HasDistinctKeys p b pages h)
    ∙ lookup-insert q p b pages

member-add : (q p : ℕ) (ps : List ℕ) → member q (add p ps) ≡ (if q == p then true else member q ps)
member-add q p [] = ground arith
member-add q p (m ∷ ps) = ground (arith, member-add q p ps)

module _ {Remote : Type 0} (contents : Remote → Bytes) (w : World Remote) (p : ℕ)
    (new : Bytes) where
  -- The state after a page took new bytes.
  abbrev pub after_put : World Remote
  after_put = record w {
    cache = record w.cache { pages = put p new w.cache.pages; dirty = add p w.cache.dirty };
  }

  pub after_put-IsCoherent :
      (old : Bytes)
      → IsCoherent contents w
      → lookup p w.cache.pages ≡ some old
      → length new ≡ length old
      → IsCoherent contents after_put
  after_put-IsCoherent old h found e =
      let distinct = insert-HasDistinctKeys p new w.cache.pages h.distinct in
      record {
        page_pos = h.page_pos;
        page_short = h.page_short;
        room = h.room;
        sized = h.sized;
        distinct = move_to_end-HasDistinctKeys p (insert p new w.cache.pages) distinct;
        inside = λ q bytes f. ground (
          arith,
          lookup-put q p new w.cache.pages h.distinct,
          h.inside q bytes,
          h.inside p old found,
        );
        full = λ q bytes f. ground (
          arith,
          lookup-put q p new w.cache.pages h.distinct,
          h.full q bytes,
          h.full p old found,
          e,
        );
        clean = λ q bytes f m. ground (
          arith,
          lookup-put q p new w.cache.pages h.distinct,
          h.clean q bytes,
          member-add q p w.cache.dirty,
        );
      }

  -- What can be read afterwards: the page's own bytes on that page, and what was there elsewhere.
  view-after_put :
      (i : ℕ)
      → IsCoherent contents w
      → view contents after_put i ≡ (
          if (i / w.cache.page_size) == p
          then get_elem? new (i % w.cache.page_size)
          else view contents w i)
  unfolding view
  view-after_put i h = elim (Option-cases (lookup (i / w.cache.page_size) w.cache.pages)) [
    | inl absent ↦ ground (arith, lookup-put (i / w.cache.page_size) p new w.cache.pages h.distinct)
    | inr (b, found) ↦
        ground (arith, lookup-put (i / w.cache.page_size) p new w.cache.pages h.distinct)
  ]

-- What the memory is after `bytes`, from index `pos` on, were written at `offset`.
abbrev pub Spliced :
    {Remote : Type 0} → (Remote → Bytes) → World Remote → World Remote → ℕ → Bytes → ℕ → Type 0
Spliced contents w after offset bytes pos =
    (i : ℕ)
    → view contents after i ≡ (
        if ltb i offset
        then view contents w i
        else (if ltb i (offset + (length bytes - pos))
            then get_elem? bytes (pos + (i - offset))
            else view contents w i))

module _ {Remote : Type 0} (contents : Remote → Bytes) (w : World Remote) (p inside n pos : ℕ)
    (page bytes : Bytes) where
  -- A page that takes some of the bytes.
  pub view-put_bytes :
      (i : ℕ)
      → IsCoherent contents w
      → lookup p w.cache.pages ≡ some page
      → length page ≤ w.cache.page_size
      → inside + n ≤ length page
      → pos + n ≤ length bytes
      → let offset = p * w.cache.page_size + inside in
        let chunk = slice bytes pos (pos + n) in
        view contents
          (after_put contents w p (set_slice page inside (inside + length chunk) chunk))
          i
        ≡ (if ltb i offset
            then view contents w i
            else (if ltb i (offset + n)
                then get_elem? bytes (pos + (i - offset))
                else view contents w i))
  view-put_bytes i h found short fits much =
      let ps = w.cache.page_size in
      let q = i / ps in
      let r = i % ps in
      let chunk = slice bytes pos (pos + n) in
      let new = set_slice page inside (inside + length chunk) chunk in
      let (whole, small) = page_split i ps h.page_pos in
      let seen = view-after_put contents w p new i h in
      let sized = length-slice bytes pos (pos + n) (omega arith) much in
      elim (Bool-cases (q == p)) [
        | inr elsewhere ↦ ground (arith, seen, elsewhere, page_of i p ps, fits, short)
        | inl here ↦
            let on : q ≡ p = (==_iff q p).0 here in
            let address : p * ps + r ≡ i = ap (λ (x : ℕ). x * ps + r) (sym on) ∙ whole in
            let place : pos + (r - inside) ≡ pos + (i - (p * ps + inside)) =
              omega (arith, address) in
            ground (
              arith,
              seen,
              here,
              address,
              sized,
              view_cached contents w p r page found small,
              ap (view contents w) address,
              get_elem?-set_slice page inside (inside + length chunk) chunk r refl (omega arith),
              get_elem?-slice bytes pos (pos + n) (r - inside),
              ap (get_elem? bytes) place,
            )
      ]

-- Bytes written in two parts.
pub Spliced-trans :
    {Remote : Type 0} (contents : Remote → Bytes) (w middle after : World Remote) (offset n pos : ℕ)
    (bytes : Bytes)
    → ((i : ℕ)
        → view contents middle i ≡ (
            if ltb i offset
            then view contents w i
            else (if ltb i (offset + n)
                then get_elem? bytes (pos + (i - offset))
                else view contents w i)))
    → Spliced contents middle after (offset + n) bytes (pos + n)
    → pos + n ≤ length bytes
    → Spliced contents w after offset bytes pos
Spliced-trans contents w middle after offset n pos bytes first second much i =
    elim (lt-or-le i (offset + n)) [
      | inl early ↦ ground (arith, first i, second i)
      | inr late ↦
          let place : pos + n + (i - (offset + n)) ≡ pos + (i - offset) = omega arith in
          ground (arith, first i, second i, ap (get_elem? bytes) place)
    ]

-- The same, seen from the state before the page was loaded.
pub view-put_loaded :
    {Remote : Type 0} (contents : Remote → Bytes) (w after : World Remote)
    (p inside n pos offset : ℕ) (page bytes : Bytes)
    → IsCoherent contents after
    → Agrees contents w after
    → lookup p after.cache.pages ≡ some page
    → length page ≤ after.cache.page_size
    → inside + n ≤ length page
    → pos + n ≤ length bytes
    → p * after.cache.page_size + inside ≡ offset
    → (i : ℕ)
    → let chunk = slice bytes pos (pos + n) in
      view contents
        (after_put contents after p (set_slice page inside (inside + length chunk) chunk))
        i
      ≡ (if ltb i offset
          then view contents w i
          else (if ltb i (offset + n)
              then get_elem? bytes (pos + (i - offset))
              else view contents w i))
view-put_loaded contents w after p inside n pos offset page bytes h agrees cached short fits much
      address i =
    let chunk = slice bytes pos (pos + n) in
    subst
      (λ (o : ℕ).
        view contents
          (after_put contents after p (set_slice page inside (inside + length chunk) chunk)) i
        ≡ (if ltb i o
            then view contents w i
            else (if ltb i (o + n) then get_elem? bytes (pos + (i - o)) else view contents w i)))
      address
      (view-put_bytes contents after p inside n pos page bytes i h cached short fits much
        ∙ rw (agrees.bytes i) refl)
