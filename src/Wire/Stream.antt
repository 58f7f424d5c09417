-- ===== src/Wire/Stream.antt =====
-- A connected socket seen from the reader, and the `recv_all` loops.
use ram_link.Base.{
  ℕ, zero, suc, ◌-◌, ◌*◌, ◌≢◌, List, [], ◌∷◌, ◌++◌, min, ltb, leb, if◌then◌else◌, length, take,
  drop, Bytes, Result, ok, err, stuck, connection_error,
}

-- What the network will deliver, cut as it happens to arrive; after the last the peer has closed.
abbrev pub Chunks : Type 0
Chunks = List Bytes

-- The byte stream, with the cuts forgotten.
abbrev pub flatten : Chunks → Bytes
flatten [] = []
flatten (c ∷ cs) = c ++ flatten cs

-- No chunk is empty: `recv` returns `b""` only at the end.
abbrev pub AreNonempty : Chunks → Type 0
AreNonempty [] = Unit
AreNonempty (c ∷ cs) = (c ≢ []) × AreNonempty cs

-- `conn.recv(n)`
unfoldable pub recv : ℕ → Chunks → Bytes × Chunks
recv n [] = ([], [])
recv n (c ∷ cs) = if leb (length c) n then (c, cs) else (take n c, drop n c ∷ cs)

-- MAX_BLOCK
abbrev pub max_block : ℕ
max_block = 1024 * 1024

-- The loop of `recv_all`; each round brings a byte at least.
unfoldable pub recv_loop : ℕ → ℕ → Bytes → Chunks → Result Bytes × Chunks
recv_loop zero size received conn =
    (if ltb (length received) size then stuck else ok received, conn)
recv_loop (suc fuel) size received conn =
    let (chunk, conn') = recv (min max_block (size - length received)) conn in
    let more = recv_loop fuel size (received ++ chunk) conn' in
    if ltb (length received) size
    then (if leb (length chunk) 0 then (err connection_error, conn') else more)
    else (ok received, conn)

unfoldable pub recv_all : ℕ → Chunks → Result Bytes × Chunks
unfolding recv_loop recv
recv_all size conn = recv_loop size size [] conn
