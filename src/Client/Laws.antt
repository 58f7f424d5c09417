-- ===== src/Client/Laws.antt =====
-- When `recv_all` and a request return.
use ram_link.Base.{
  ℕ, zero, suc, ◌+◌, ◌-◌, ◌≤◌, ◌<◌, min, ◌≡◌, ◌≢◌, refl, [], ◌++◌, Bool, not, value_error, inl, inr,
  true, false, arith, ltb, leb, ◌==◌, if◌then◌else◌, length, length-append, bytes_eq, Bytes, Error,
  Result, ok, err, stuck, Bool-cases, Result-cases,
}
use ram_link.Exec.{Exec, ◌>>=◌, ◌>>◌, pure, lift, raise_if}
use ram_link.Wire.{max_block}
use ram_link.Wire.Header.{Header, pack_header, unpack_header, header_size, magic}
use ram_link.Client.Host.{Host, receiving, recv_all}
use ram_link.Client.Request.{body_of, reply_from, rml_request}

module _ {Net : Type 0} (host : Host Net) where
  receiving-done :
      (fuel sock size : ℕ) (received : Bytes) (net : Net)
      → size ≤ length received
      → receiving host fuel sock size received net ≡ (ok received, net)
  unfolding receiving
  receiving-done zero sock size received net h = ground arith
  receiving-done (suc fuel) sock size received net h = ground arith

  -- What comes in one piece.
  pub recv_all-whole :
      (sock size : ℕ) (chunk : Bytes) (net net' : Net)
      → 0 < size
      → size ≤ max_block
      → length chunk ≡ size
      → host.recv sock (min max_block (size - 0)) net ≡ (ok chunk, net')
      → recv_all host sock size net ≡ (ok chunk, net')
  unfolding recv_all receiving
  recv_all-whole sock zero chunk net net' pos short e came = absurd (omega arith)
  recv_all-whole sock (suc size) chunk net net' pos short e came =
      ground (arith, e, came, receiving-done size sock (suc size) chunk net')

  pub rml_request-ok :
      (sock op offset size : ℕ) (payload header answer : Bytes) (h : Header) (body : Bytes)
      (net net1 net2 net3 net4 : Net)
      → pack_header op offset size ≡ ok header
      → host.sendall sock header net ≡ (ok tt, net1)
      → (if length payload == 0 then pure tt else host.sendall sock payload) net1 ≡ (ok tt, net2)
      → recv_all host sock header_size net2 ≡ (ok answer, net3)
      → unpack_header answer ≡ ok h
      → bytes_eq h.signature magic ≡ true
      → (if h.size == 0 then pure [] else recv_all host sock h.size) net3 ≡ (ok body, net4)
      → rml_request host sock op offset size payload net
        ≡ (ok (record { op = h.op; offset = h.offset; body = body }), net4)
  unfolding rml_request reply_from body_of
  rml_request-ok sock op offset size payload header answer h body net net1 net2 net3 net4 packed
        sent paid came parsed signed rest =
      ground (arith, packed, sent, paid, came, parsed, signed, rest)

  -- A socket that brings an exception ends the loop with it.
  pub recv_all-broken :
      (sock size : ℕ) (e : Error) (net net' : Net)
      → 0 < size
      → host.recv sock (min max_block (size - 0)) net ≡ (err e, net')
      → recv_all host sock size net ≡ (err e, net')
  unfolding recv_all receiving
  recv_all-broken sock zero e net net' pos broken = absurd (omega arith)
  recv_all-broken sock (suc size) e net net' pos broken = ground (arith, broken)

  pub rml_request-no_body :
      (sock op offset size : ℕ) (payload header answer : Bytes) (h : Header) (e : Error)
      (net net1 net2 net3 net4 : Net)
      → pack_header op offset size ≡ ok header
      → host.sendall sock header net ≡ (ok tt, net1)
      → (if length payload == 0 then pure tt else host.sendall sock payload) net1 ≡ (ok tt, net2)
      → recv_all host sock header_size net2 ≡ (ok answer, net3)
      → unpack_header answer ≡ ok h
      → bytes_eq h.signature magic ≡ true
      → 0 < h.size
      → recv_all host sock h.size net3 ≡ (err e, net4)
      → rml_request host sock op offset size payload net ≡ (err e, net4)
  unfolding rml_request reply_from body_of
  rml_request-no_body sock op offset size payload header answer h e net net1 net2 net3 net4 packed
        sent paid came parsed signed announced broken =
      ground (arith, packed, sent, paid, came, parsed, signed, broken)

  -- Each round of `recv_all` brings a byte or ends the loop.
  receiving-ends :
      (fuel sock size : ℕ) (received : Bytes) (net : Net)
      → ((n : ℕ) (net : Net) → (host.recv sock n net).0 ≢ stuck)
      → size ≤ length received + fuel
      → (receiving host fuel sock size received net).0 ≢ stuck
  unfolding receiving
  receiving-ends zero sock size received net alive enough = ground arith
  receiving-ends (suc fuel) sock size received net alive enough =
      elim (Bool-cases (ltb (length received) size)) [
        | inr done ↦ ground (arith, done)
        | inl more ↦
            let r = host.recv sock (min max_block (size - length received)) net in
            elim (Result-cases r.0) [
              | inr (inl (x, e)) ↦ ground (arith, more, e)
              | inr (inr e) ↦ absurd (alive (min max_block (size - length received)) net e)
              | inl (chunk, e) ↦ elim (Bool-cases (leb (length chunk) 0)) [
                | inl closed ↦ ground (arith, more, e, closed)
                | inr some_bytes ↦
                    let ends =
                      receiving-ends fuel sock size (received ++ chunk) r.1 alive
                        (ground (arith, length-append received chunk, some_bytes)) in
                    ground (arith, more, e, some_bytes, ends)
              ]
            ]
      ]

  -- The call returns or raises.
  abbrev Finishes : {A : Type 0} → Exec Net A → Type 0
  Finishes m = (net : Net) → (m net).0 ≢ stuck

  >>=-Finishes :
      {A B : Type 0} (m : Exec Net A) (f : A → Exec Net B)
      → Finishes m
      → ((a : A) → Finishes (f a))
      → Finishes (m >>= f)
  >>=-Finishes {A} {B} m f h k net = go (m net) (h net)
    where
      go :
          (r : Result A × Net)
          → r.0 ≢ stuck
          → (elim r.0 as (λ _. Result B × Net) [
            | ok a ↦ f a r.1
            | err e ↦ (err e, r.1)
            | stuck ↦ (stuck, r.1)
          ]).0
            ≢ stuck
      go (ok a, net') e = k a net'
      go (err x, net') e = λ same. cc same
      go (stuck, net') e = absurd (e refl)

  pure-Finishes : {A : Type 0} (a : A) → Finishes (pure a)
  pure-Finishes a net same = cc same

  raise_if-Finishes :
      (b : Bool) → ◌≢◌ {A = Result (Unit {0})} (if not b then err value_error else ok tt) stuck
  raise_if-Finishes true = λ same. cc same
  raise_if-Finishes false = λ same. cc same

  if-Finishes :
      {A : Type 0} (b : Bool) (m m' : Exec Net A)
      → Finishes m
      → Finishes m'
      → Finishes (if b then m else m')
  if-Finishes true m m' h k = h
  if-Finishes false m m' h k = k

  pack_header-Finishes : (op offset size : ℕ) → pack_header op offset size ≢ stuck
  unfolding pack_header
  pack_header-Finishes op offset size = ground arith

  unpack_header-Finishes : (bs : Bytes) → unpack_header bs ≢ stuck
  unfolding unpack_header
  unpack_header-Finishes bs = ground arith

  -- A request ends: it returns or raises, if no call of the socket hangs.
  pub rml_request-ends :
      (sock op offset size : ℕ) (payload : Bytes) (net : Net)
      → ((n : ℕ) (net : Net) → (host.recv sock n net).0 ≢ stuck)
      → ((bytes : Bytes) (net : Net) → (host.sendall sock bytes net).0 ≢ stuck)
      → (rml_request host sock op offset size payload net).0 ≢ stuck
  unfolding rml_request reply_from body_of recv_all
  rml_request-ends sock op offset size payload net receives sends =
      let all : (n : ℕ) → Finishes (recv_all host sock n) =
        λ n net. receiving-ends n sock n [] net receives (omega arith) in
      let pay = if length payload == 0 then pure tt else host.sendall sock payload in
      let bodied : (h : Header) → Finishes (body_of host sock h) = λ h.
        >>=-Finishes (raise_if (not (bytes_eq h.signature magic)) value_error)
          (λ _.
            ((if h.size == 0 then pure [] else recv_all host sock h.size) >>= λ body.
            pure (record { op = h.op; offset = h.offset; body = body })))
          (λ _. raise_if-Finishes (bytes_eq h.signature magic))
          (λ _.
            >>=-Finishes (if h.size == 0 then pure [] else recv_all host sock h.size)
              (λ body. pure (record { op = h.op; offset = h.offset; body = body }))
              (if-Finishes (h.size == 0) (pure []) (recv_all host sock h.size) (pure-Finishes [])
                (all h.size))
              (λ body. pure-Finishes (record { op = h.op; offset = h.offset; body = body }))) in
      let replied : Finishes (reply_from host sock) =
        >>=-Finishes (recv_all host sock header_size)
          (λ answer. (lift (unpack_header answer) >>= λ h. body_of host sock h)) (all header_size)
          (λ answer.
            >>=-Finishes (lift (unpack_header answer)) (λ h. body_of host sock h)
              (λ _. unpack_header-Finishes answer) bodied) in
      >>=-Finishes (lift (pack_header op offset size))
        (λ header. (host.sendall sock header >> (pay >> reply_from host sock)))
        (λ _. pack_header-Finishes op offset size)
        (λ header.
          >>=-Finishes (host.sendall sock header) (λ _. (pay >> reply_from host sock))
            (sends header)
            (λ _.
              >>=-Finishes pay (λ _. reply_from host sock)
                (if-Finishes (length payload == 0) (pure tt) (host.sendall sock payload)
                  (pure-Finishes tt) (sends payload))
                (λ _. replied)))
        net
