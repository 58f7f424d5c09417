-- ===== src/Client/Transfers/Laws.antt =====
-- The loops over blocks bring what the requests bring.
use mathlib.Core.List.{append_assoc, append-nil}
use ram_link.Base.{
  ℕ, zero, suc, ◌+◌, ◌-◌, ◌*◌, ◌/◌, ◌≤◌, ◌<◌, min, ◌≡◌, refl, ◌∙◌, ap, [], ◌++◌, inl, inr, arith,
  leb, length, length-take, length-append, subst, take_of_length-le, slice, slice_empty,
  slice-append, Bytes, Bool, Result, Error, ok, err, stuck, ◌≢◌, Bool-cases,
}
use ram_link.Exec.{Exec}
use ram_link.Wire.{max_block}
use ram_link.Wire.Op
use ram_link.Wire.Header.{unpack_lease_reply}
use ram_link.Client.Host.{Host}
use ram_link.Client.Request.{Reply}
use ram_link.Client.Transfers.{
  counting, repeated, pattern, write_blocks, read_blocks, request, check_memory, give_back,
  borrow_memory, borrow_and_check,
}

length-counting : (n first : ℕ) → length (counting n first) ≡ n
length-counting zero first = refl
length-counting (suc n) first = omega (arith, length-counting n (first + 1))

length-repeated : (n : ℕ) (bytes : Bytes) → length (repeated n bytes) ≡ n * length bytes
length-repeated zero bytes = omega arith
length-repeated (suc n) bytes =
    ground (arith, length-append bytes (repeated n bytes), length-repeated n bytes)

pub length-pattern : (size : ℕ) → length (pattern size) ≡ size
unfolding pattern
length-pattern size =
    let cycle : length (repeated (size / 256 + 1) (counting 256 0))
        ≡ (size / 256 + 1) * length (counting 256 0) =
      length-repeated (size / 256 + 1) (counting 256 0) in
    let bytes : length (counting 256 0) ≡ 256 = length-counting 256 0 in
    omega (
      arith,
      length-take size (repeated (size / 256 + 1) (counting 256 0)),
      cycle ∙ ap (λ (n : ℕ). (size / 256 + 1) * n) bytes,
    )

-- The bytes of a block and those behind it, if a block has at most `step` bytes.
slice-block :
    (m : Bytes) (offset step : ℕ)
    → offset ≤ length m
    → slice m offset (offset + min step (length m - offset)) ++ slice m (offset + step) (length m)
      ≡ slice m offset (length m)
slice-block m offset step inside = elim (Bool-cases (leb (length m) (offset + step))) [
  | inl last ↦
      let end_ : offset + min step (length m - offset) ≡ length m = ground (arith, last) in
      rw (end_, slice_empty m (offset + step) (length m) (ground (arith, last)))
        (append-nil (slice m offset (length m)))
  | inr more ↦
      let end_ : offset + min step (length m - offset) ≡ offset + step = ground (arith, more) in
      rw end_ (
        slice-append m offset (offset + step) (length m) (omega arith) (ground (arith, more))
          (ground (arith, more)))
]

module _ {Net : Type 0} (request : ℕ → ℕ → ℕ → Bytes → Exec Net Reply) (base : ℕ) (m : Bytes)
    (P : Net → Type 0) where
  -- While `P` holds, a READ of a block inside the bytes `m` at `base` brings the bytes of the block.
  abbrev pub Brings : Type 0
  Brings =
      (offset n : ℕ) (net : Net)
      → P net
      → n ≤ max_block
      → offset + n ≤ length m
      → (reply : Reply) × (net' : Net) × (request Op.read (base + offset) n [] net
          ≡ (ok reply, net'))
        × (reply.body ≡ slice m offset (offset + n))
        × P net'

  nothing : (out : Bytes) (offset : ℕ) → length m ≤ offset → out ++ slice m offset (length m) ≡ out
  nothing out offset h = rw (slice_empty m offset (length m) h) (append-nil out)

  read_blocks-Brings :
      (brings : Brings) (fuel : ℕ) (out : Bytes) (offset : ℕ) (net : Net)
      → length m ≤ offset + fuel
      → P net
      → (net' : Net) × (read_blocks request fuel base (length m) out offset net
          ≡ (ok (out ++ slice m offset (length m)), net'))
        × P net'
  unfolding read_blocks
  read_blocks-Brings brings zero out offset net enough p =
      (net, ground (arith, nothing out offset (omega (arith, enough))), p)
  read_blocks-Brings brings (suc fuel) out offset net enough p =
      elim (Bool-cases (leb (length m) offset)) [
        | inl done ↦ (net, ground (arith, done, nothing out offset (ground (arith, done))), p)
        | inr more ↦
            let n = min max_block (length m - offset) in
            let (reply, net1, sent, body, p1) =
              brings offset n net p (omega arith) (ground (arith, more)) in
            let (net2, rest, p2) =
              read_blocks-Brings brings fuel (out ++ reply.body) (offset + max_block) net1
                (omega (arith, enough)) p1 in
            let inside : offset ≤ length m = ground (arith, more) in
            (
              net2,
              ground (arith, more, sent, rest)
                  ∙ ap (λ (b : Bytes). (ok b, net2))
                      (append_assoc out reply.body (slice m (offset + max_block) (length m))
                        ∙ ap (λ (b : Bytes). out ++ b)
                            (rw body (slice-block m offset max_block inside))),
              p2,
            )
      ]

  -- The loop from the start brings the bytes and nothing else.
  pub read_blocks-whole :
      (brings : Brings) (size : ℕ) (net : Net)
      → length m ≡ size
      → P net
      → (net' : Net) × (read_blocks request size base size [] 0 net ≡ (ok m, net')) × P net'
  unfolding slice
  read_blocks-whole brings size net sized p =
      let (net', returns, p') = read_blocks-Brings brings (length m) [] 0 net (omega arith) p in
      subst
        (λ (k : ℕ). (net' : Net) × (read_blocks request k base k [] 0 net ≡ (ok m, net')) × P net')
        sized
        (
          net',
          returns
              ∙ ap (λ (b : Bytes). (ok b, net')) (take_of_length-le (length m - 0) m (omega arith)),
          p',
        )

module _ {Net : Type 0} (request : ℕ → ℕ → ℕ → Bytes → Exec Net Reply) where
  -- A block that cannot be written ends the loop.
  pub write_blocks_fails :
      (fuel base size : ℕ) (bytes : Bytes) (offset : ℕ) (e : Error) (net net' : Net)
      → 0 < fuel
      → offset < size
      → request Op.write
          (base + offset)
          (min max_block (size - offset))
          (slice bytes offset (offset + min max_block (size - offset)))
          net
        ≡ (err e, net')
      → write_blocks request fuel base size bytes offset net ≡ (err e, net')
  unfolding write_blocks
  write_blocks_fails zero base size bytes offset e net net' some_fuel more failed =
      absurd (omega arith)
  write_blocks_fails (suc fuel) base size bytes offset e net net' some_fuel more failed =
      ground (arith, failed)

module _ {Net : Type 0} (host : Host Net) (sha256 : Bytes → Bytes) where
  gives_back :
      (sock lease_id : ℕ) (asked : Result Reply) (net net' net'' : Net)
      → request host sock Op.release lease_id 0 [] net ≡ (asked, net')
      → asked ≢ stuck
      → host.close sock net' ≡ (ok tt, net'')
      → give_back host sock lease_id net ≡ (ok tt, net'')
  unfolding give_back
  gives_back sock lease_id (ok reply) net net' net'' sent ends shut = ground (arith, sent, shut)
  gives_back sock lease_id (err e) net net' net'' sent ends shut = ground (arith, sent, shut)
  gives_back sock lease_id stuck net net' net'' sent ends shut = absurd (ends refl)

  -- Once the memory is granted, client.py asks for its release and closes the socket, however its transfers end and whatever
  -- becomes of the release; it ends as its transfers ended, if `close` does not raise.
  pub borrow_and_check_closes :
      (mb sock lease_id base granted : ℕ) (reply : Reply) (r : Result Bool) (asked : Result Reply)
      (net net1 net2 net3 net4 net5 : Net)
      → host.connect net ≡ (ok sock, net1)
      → request host sock Op.borrow 0 (mb * 1024 * 1024) [] net1 ≡ (ok reply, net2)
      → unpack_lease_reply reply.body ≡ ok (lease_id, base, granted)
      → check_memory host sha256 sock base (mb * 1024 * 1024) net2 ≡ (r, net3)
      → request host sock Op.release lease_id 0 [] net3 ≡ (asked, net4)
      → asked ≢ stuck
      → host.close sock net4 ≡ (ok tt, net5)
      → borrow_and_check host sha256 mb net ≡ (r, net5)
  unfolding borrow_and_check borrow_memory
  borrow_and_check_closes mb sock lease_id base granted reply r asked net net1 net2 net3 net4 net5
        connected borrowed fields checked sent ends shut =
      let over = gives_back sock lease_id asked net3 net4 net5 sent ends shut in
      ground (arith, connected, borrowed, fields, checked, over)
