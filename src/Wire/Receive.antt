-- ===== src/Wire/Receive.antt =====
-- What `recv_all` returns does not depend on how the network cuts the stream.
use mathlib.Core.List.{append_assoc, append-nil}
use ram_link.Base.{
  ℕ, zero, suc, ◌+◌, ◌-◌, ◌≤◌, ◌<◌, min, ◌≡◌, refl, sym, ap, ◌∙◌, inl, inr, [], ◌∷◌, ◌++◌, arith,
  ltb, leb, ltb→lt, lt→ltb, ltb-false, leb-false, Bool-cases, length, take, drop, length-append,
  length-take, length-drop, take-append, drop-append, take-append-drop, Bytes, Result, ok, err,
  connection_error,
}
use ram_link.Wire.Stream.{Chunks, flatten, AreNonempty, recv, max_block, recv_loop, recv_all}

recv-flatten : (n : ℕ) (conn : Chunks) → (recv n conn).0 ++ flatten (recv n conn).1 ≡ flatten conn
unfolding recv
recv-flatten n [] = refl
recv-flatten n (c ∷ cs) = elim (Bool-cases (leb (length c) n)) [
  | inl whole ↦ rw whole
  | inr part ↦ rw part (
      sym (append_assoc (take n c) (drop n c) (flatten cs))
      ∙ ap (λ b. b ++ flatten cs) (take-append-drop n c))
]

recv-length-le : (n : ℕ) (conn : Chunks) → length (recv n conn).0 ≤ n
unfolding recv
recv-length-le n [] = omega arith
recv-length-le n (c ∷ cs) = ground (arith, length-take n c)

drop-ne-nil : (n : ℕ) (c : Bytes) → n < length c → drop n c ≡ [] → ⊥
drop-ne-nil n c h e = omega (arith, ap length e, length-drop n c)

length-nonempty : (c : Bytes) → (c ≡ [] → ⊥) → 0 < length c
length-nonempty [] h = absurd (h refl)
length-nonempty (b ∷ c) h = omega arith

recv-AreNonempty : (n : ℕ) (conn : Chunks) → AreNonempty conn → AreNonempty (recv n conn).1
unfolding recv
recv-AreNonempty n [] h = tt
recv-AreNonempty n (c ∷ cs) h = elim (Bool-cases (leb (length c) n)) [
  | inl whole ↦ rw whole h.1
  | inr part ↦ rw part (drop-ne-nil n c (ground arith), h.1)
]

-- Something comes as long as the stream has not ended.
recv-pos :
    (n : ℕ) (conn : Chunks)
    → AreNonempty conn
    → 0 < n
    → 0 < length (flatten conn)
    → 0 < length (recv n conn).0
unfolding recv
recv-pos n [] h p q = absurd (omega arith)
recv-pos n (c ∷ cs) h p q = ground (arith, length-take n c, length-nonempty c h.0)

-- What is left after a round of the loop.
recv-length :
    (n : ℕ) (conn : Chunks)
    → length (recv n conn).0 + length (flatten (recv n conn).1) ≡ length (flatten conn)
recv-length n conn =
    sym (length-append (recv n conn).0 (flatten (recv n conn).1))
    ∙ ap (length {A = ℕ}) (recv-flatten n conn)

-- The bytes that were wanted, and the stream behind them.
pub record Received (size : ℕ) (conn : Chunks) (r : Result Bytes × Chunks) : Type 0 where
  pub result : r.0 ≡ ok (take size (flatten conn))
  pub rest : flatten r.1 ≡ drop size (flatten conn)
  pub nonempty : AreNonempty r.1

-- One round's chunk, and what a later round takes from the stream behind it.
take_after :
    (size : ℕ) (received chunk s s' : Bytes)
    → chunk ++ s' ≡ s
    → length received + length chunk ≤ size
    → (received ++ chunk) ++ take (size - length (received ++ chunk)) s'
      ≡ received ++ take (size - length received) s
take_after size received chunk s s' e h =
    let left : size - length (received ++ chunk) ≡ size - length received - length chunk =
      omega (arith, length-append received chunk) in
    rw (left, ← e, take-append (size - length received) chunk s' (omega arith))
      (append_assoc received chunk (take (size - length received - length chunk) s'))

drop_after :
    (size : ℕ) (received chunk s s' : Bytes)
    → chunk ++ s' ≡ s
    → length received + length chunk ≤ size
    → drop (size - length (received ++ chunk)) s' ≡ drop (size - length received) s
drop_after size received chunk s s' e h =
    let left : size - length (received ++ chunk) ≡ size - length received - length chunk =
      omega (arith, length-append received chunk) in
    rw (left, ← e, drop-append (size - length received) chunk s' (omega arith))

abbrev Collects : ℕ → Bytes → Chunks → Result Bytes × Chunks → Type 0
Collects size received conn r =
    (r.0 ≡ ok (received ++ take (size - length received) (flatten conn)))
    × (flatten r.1 ≡ drop (size - length received) (flatten conn))
    × AreNonempty r.1

recv_loop_done :
    (fuel size : ℕ) (received : Bytes) (conn : Chunks)
    → size ≤ length received
    → recv_loop fuel size received conn ≡ (ok received, conn)
unfolding recv_loop
recv_loop_done zero size received conn h = rw (ltb-false _ _ h)
recv_loop_done (suc fuel) size received conn h = rw (ltb-false _ _ h)

recv_loop_more :
    (fuel size : ℕ) (received : Bytes) (conn : Chunks)
    → length received < size
    → let (chunk, conn') = recv (min max_block (size - length received)) conn in
      0 < length chunk
      → recv_loop (suc fuel) size received conn ≡ recv_loop fuel size (received ++ chunk) conn'
unfolding recv_loop
recv_loop_more fuel size received conn h pos = rw (lt→ltb _ _ h, leb-false _ _ pos)

Collects-done :
    (size : ℕ) (received : Bytes) (conn : Chunks)
    → AreNonempty conn
    → length received ≡ size
    → Collects size received conn (ok received, conn)
Collects-done size received conn ne e =
    let left : size - length received ≡ 0 = omega arith in
    rw left (rw (append-nil received), refl, ne)

recv_loop-Collects :
    (fuel size : ℕ) (received : Bytes) (conn : Chunks)
    → AreNonempty conn
    → length received ≤ size
    → size ≤ length received + fuel
    → size ≤ length received + length (flatten conn)
    → Collects size received conn (recv_loop fuel size received conn)
recv_loop-Collects zero size received conn ne p q r =
    rw (recv_loop_done 0 size received conn (omega arith))
      (Collects-done size received conn ne (omega arith))
recv_loop-Collects (suc fuel) size received conn ne p q r =
    elim (Bool-cases (ltb (length received) size)) [
      | inl more ↦
          let n : ℕ = min max_block (size - length received) in
          let m : Chunks = (recv n conn).1 in
          let chunk : Bytes = (recv n conn).0 in
          let lt : length received < size = ltb→lt _ _ more in
          let pos : 0 < length chunk = recv-pos n conn ne (omega arith) (omega arith) in
          let fits : length received + length chunk ≤ size = omega (arith, recv-length-le n conn) in
          let grown = length-append received chunk in
          let (result, rest, left) =
            recv_loop-Collects fuel size (received ++ chunk) m (recv-AreNonempty n conn ne)
              (omega arith) (omega arith) (omega (arith, recv-length n conn)) in
          rw (recv_loop_more fuel size received conn lt pos) (
            result ∙ ap ok (take_after size received chunk _ _ (recv-flatten n conn) fits),
            rest ∙ drop_after size received chunk _ _ (recv-flatten n conn) fits,
            left,
          )
      | inr done ↦
          rw (recv_loop_done (suc fuel) size received conn (ground arith))
            (Collects-done size received conn ne (ground arith))
    ]

-- Whatever the cuts, `recv_all(conn, size)` returns the first `size` bytes of the stream and leaves
-- the rest of it, if that many bytes come before the peer closes.
pub recv_all-Received :
    (size : ℕ) (conn : Chunks)
    → AreNonempty conn
    → size ≤ length (flatten conn)
    → Received size conn (recv_all size conn)
unfolding recv_all
recv_all-Received size conn ne h =
    let (result, rest, left) =
      recv_loop-Collects size size [] conn ne (omega arith) (omega arith) (omega arith) in
    let all : size - 0 ≡ size = omega arith in
    record {
      result = result ∙ ap (λ k. ok (take k (flatten conn))) all;
      rest = rest ∙ ap (λ k. drop k (flatten conn)) all;
      nonempty = left;
    }

recv_loop_closed :
    (fuel size : ℕ) (received : Bytes) (conn : Chunks)
    → AreNonempty conn
    → size ≤ length received + fuel
    → length received + length (flatten conn) < size
    → (recv_loop fuel size received conn).0 ≡ err connection_error
unfolding recv_loop
recv_loop_closed zero size received conn ne p q = absurd (omega arith)
recv_loop_closed (suc fuel) size received conn ne p q =
    let n : ℕ = min max_block (size - length received) in
    let chunk : Bytes = (recv n conn).0 in
    elim (Bool-cases (leb (length chunk) 0)) [
      | inl closed ↦ rw (lt→ltb (length received) size (omega arith), closed)
      | inr some_bytes ↦ rw (recv_loop_more fuel size received conn (omega arith) (ground arith)) (
          recv_loop_closed fuel size (received ++ chunk) (recv n conn).1
            (recv-AreNonempty n conn ne) (ground (arith, length-append received chunk))
            (omega (arith, length-append received chunk, recv-length n conn)))
    ]

-- If the peer closes before `size` bytes have come, `recv_all` raises ConnectionError: it neither
-- returns a short result nor waits for ever.
pub recv_all_closed :
    (size : ℕ) (conn : Chunks)
    → AreNonempty conn
    → length (flatten conn) < size
    → (recv_all size conn).0 ≡ err connection_error
unfolding recv_all
recv_all_closed size conn ne h = recv_loop_closed size size [] conn ne (omega arith) (omega arith)

recv_loop-length :
    (fuel size : ℕ) (received : Bytes) (conn : Chunks) {bs : Bytes}
    → length received ≤ size
    → (recv_loop fuel size received conn).0 ≡ ok bs
    → length bs ≡ size
unfolding recv_loop
recv_loop-length zero size received conn {bs} h e = ground arith
recv_loop-length (suc fuel) size received conn {bs} h e =
    let n : ℕ = min max_block (size - length received) in
    ground (
      arith,
      recv-length-le n conn,
      length-append received (recv n conn).0,
      recv_loop-length fuel size (received ++ (recv n conn).0) (recv n conn).1 {bs = bs},
    )

-- What `recv_all` returns always has the length that was asked for.
pub recv_all-length :
    (size : ℕ) (conn : Chunks) {bs : Bytes} → (recv_all size conn).0 ≡ ok bs → length bs ≡ size
unfolding recv_all
recv_all-length size conn e = recv_loop-length size size [] conn (omega arith) e
