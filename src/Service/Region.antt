-- ===== src/Service/Region.antt =====
-- `read` of `RemoteMemory` on a connection that works, for ranges of any length; and the ranges that are refused.
use mathlib.Core.List.{append_assoc, append-nil}
use ram_link.Base.{
  ℕ, zero, suc, ◌+◌, ◌-◌, ◌≤◌, ◌<◌, min, ◌≡◌, ◌≢◌, refl, ◌∙◌, ap, some, [], ◌++◌, inl, inr, arith,
  ◌==◌, length, slice, slice_empty, length-slice, slice-append, Bytes, ok, err, value_error,
  Bool-cases,
}
use ram_link.Wire.{max_block}
use ram_link.Wire.Op
use ram_link.Client.Host.{Host}
use ram_link.Client.Request.{Reply, rml_request}
use ram_link.Service.Memory.{Service, request_with_reconnect, read_rounds, read, write}
use ram_link.Service.Requests.{read_step, request_succeeds}

-- While `P` holds, the server answers on the socket a READ inside the region that begins at `low` with the bytes
-- there. `contents` are the bytes of the region.
pub record IsServed {Net : Type 0} (host : Host Net) (sock low size : ℕ) (P : Net → Type 0)
    (contents : Net → Bytes) : Type 0 where
  pub sized : (net : Net) → P net → length (contents net) ≡ size
  pub reads :
      (offset n : ℕ) (net : Net)
      → P net
      → n ≤ max_block
      → offset + n ≤ size
      → (reply : Reply) × (net' : Net) × (rml_request host sock Op.read (low + offset) n [] net
          ≡ (ok reply, net'))
        × (reply.body ≡ slice (contents net) offset (offset + n))
        × P net'
        × (contents net' ≡ contents net)

-- The bytes of a round and those of the rounds to come.
joined :
    (output body m m' : Bytes) (pos n left : ℕ)
    → n ≤ left
    → pos + left ≤ length m
    → body ≡ slice m pos (pos + n)
    → m' ≡ m
    → (output ++ body) ++ slice m' (pos + n) (pos + n + (left - n))
      ≡ output ++ slice m pos (pos + left)
joined output body m m' pos n left small fits e same =
    let end_ : pos + n + (left - n) ≡ pos + left = omega arith in
    append_assoc output body (slice m' (pos + n) (pos + n + (left - n)))
    ∙ ap (λ (b : Bytes). output ++ b)
        (rw (e, same, end_)
          (slice-append m pos (pos + n) (pos + left) (omega arith) (omega arith) (omega arith)))

module _ {Net : Type 0} (host : Host Net) where
  module _ (sock low size : ℕ) (P : Net → Type 0) (contents : Net → Bytes)
      (served : IsServed host sock low size P contents) where
    -- The service holds the region and its connection.
    abbrev Holds : Service Net → Type 0
    Holds s =
        (s.memory.sock ≡ some sock)
        × (s.memory.base_offset ≡ low)
        × (s.memory.length ≡ size)
        × P s.net

    nothing :
        (output : Bytes) (net : Net) (pos left : ℕ)
        → left ≡ 0
        → output ++ slice (contents net) pos (pos + left) ≡ output
    nothing output net pos left h =
        rw (slice_empty (contents net) pos (pos + left) (omega arith)) (append-nil output)

    read_rounds-ok :
        (fuel pos left : ℕ) (output : Bytes) (s : Service Net)
        → left ≤ fuel
        → pos + left ≤ size
        → Holds s
        → (net : Net) × (read_rounds host fuel pos left output s
            ≡ (ok (output ++ slice (contents s.net) pos (pos + left)), record s { net = net }))
          × P net
          × (contents net ≡ contents s.net)
    unfolding read_rounds
    read_rounds-ok zero pos left output s enough fits h =
        (s.net, ground (arith, nothing output s.net pos left), h.3, refl)
    read_rounds-ok (suc fuel) pos left output s enough fits h = elim (Bool-cases (left == 0)) [
      | inl all ↦ (s.net, ground (arith, all, nothing output s.net pos left), h.3, refl)
      | inr more ↦
          let n = min max_block left in
          let (reply, net, sent, body, p, same) =
            served.reads pos n s.net h.3 (omega arith) (ground arith) in
          let request : request_with_reconnect host Op.read (s.memory.base_offset + pos) n [] s
              ≡ (ok reply, record s { net = net }) =
            request_succeeds host s sock h.0 Op.read (s.memory.base_offset + pos) n [] reply net
              (rw h.1 sent) in
          let some_left : left ≢ 0 = λ none_left. ground (arith, more, none_left) in
          let full : length reply.body ≡ n =
            ap (length {A = ℕ}) body
            ∙ omega (arith, length-slice (contents s.net) pos (pos + n), served.sized s.net h.3) in
          let (net', returns, p', same') =
            read_rounds-ok fuel (pos + n) (left - n) (output ++ reply.body) (record s { net = net })
              (omega (arith, some_left)) (omega arith) (h.0, h.1, h.2, p) in
          let end_ : pos + n + (left - n) ≡ pos + left = omega arith in
          (
            net',
            read_step host fuel pos left output s n reply (record s { net = net }) some_left refl
                  request full
                ∙ returns
                ∙ ap (λ (b : Bytes). (ok b, record s { net = net' }))
                    (joined output reply.body (contents s.net) (contents net) pos n left
                      (omega arith) (omega (arith, served.sized s.net h.3)) body same),
            p',
            same' ∙ same,
          )
    ]

    -- `read` of a range inside the region, of any length, returns its bytes and changes nothing, while the server
    -- answers as it should.
    pub read-Served :
        (s : Service Net) (offset n : ℕ)
        → s.memory.sock ≡ some sock
        → s.memory.base_offset ≡ low
        → s.memory.length ≡ size
        → P s.net
        → offset + n ≤ size
        → (net : Net) × (read host offset n s
            ≡ (ok (slice (contents s.net) offset (offset + n)), record s { net = net }))
          × P net
          × (contents net ≡ contents s.net)
    unfolding read
    read-Served s offset n connected base whole p fits =
        let (net, returns, p', same) =
          read_rounds-ok n offset n [] s (omega arith) fits (connected, base, whole, p) in
        (net, ground (arith, whole, returns), p', same)

  -- A read or a write that leaves the borrowed region raises ValueError, sends nothing and changes nothing.
  pub outside_region_refused :
      (s : Service Net) (offset : ℕ) (bytes : Bytes)
      → s.memory.length < offset + length bytes
      → (read host offset (length bytes) s ≡ (err value_error, s))
        × (write host offset bytes s ≡ (err value_error, s))
  unfolding read write
  outside_region_refused s offset bytes far = (ground arith, ground arith)
