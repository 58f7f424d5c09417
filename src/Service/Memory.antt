-- ===== src/Service/Memory.antt =====
-- `RemoteMemory` (clients/windows/ramlink_memory_service.py). Its methods run from start to end: its lock is not
-- modelled, nor the thread that calls `keepalive`.
use ram_link.Base.{
  ℕ, zero, suc, ◌+◌, ◌-◌, ◌*◌, min, true, false, not, Option, none, some, ltb, leb, ◌==◌,
  if◌then◌else◌, [], ◌++◌, length, slice, Bytes, Error, ok, err, stuck, value_error, os_error,
  attribute_error,
}
use ram_link.Exec.{Exec, ◌>>=◌, ◌>>◌, pure, gets, raise, raise_if, lift, modify, try_except}
use ram_link.Wire.{max_block}
use ram_link.Wire.Op
use ram_link.Wire.Header.{unpack_lease_reply}
use ram_link.Client.Host.{Host}
use ram_link.Client.Request.{Reply, rml_request}

pub record RemoteMemory : Type 0 where
  pub megabytes : ℕ
  pub sock : Option ℕ
  pub lease_id : ℕ
  pub base_offset : ℕ
  pub length : ℕ
  pub started : Option ℕ
  pub last_keepalive : Option ℕ
  pub last_error : Option Error
  pub reconnects : ℕ

-- The object, and all that is behind its sockets.
pub record Service (Net : Type 0) : Type 0 where
  pub memory : RemoteMemory
  pub net : Net

-- `RemoteMemory(host, port, megabytes, keepalive_seconds)`
unfoldable pub new_memory : ℕ → RemoteMemory
new_memory megabytes = record {
  megabytes = megabytes;
  sock = none;
  lease_id = 0;
  base_offset = 0;
  length = 0;
  started = none;
  last_keepalive = none;
  last_error = none;
  reconnects = 0;
}

-- What `_borrow_new_socket` returns.
pub record Borrowed : Type 0 where
  pub sock : ℕ
  pub lease_id : ℕ
  pub base_offset : ℕ
  pub length : ℕ

module _ {Net : Type 0} where
  abbrev pub assign : (RemoteMemory → RemoteMemory) → Exec (Service Net) (Unit {0})
  assign f = modify (λ s. record s { memory = f s.memory })

  abbrev pub on_net : {A : Type 0} → Exec Net A → Exec (Service Net) A
  on_net f s = let (r, net) = f s.net in (r, record s { net = net })

module _ {Net : Type 0} (host : Host Net) where
  abbrev pub now : Exec (Service Net) ℕ
  now s = let (t, net) = host.time s.net in (ok t, record s { net = net })

  -- `_borrow_new_socket`, once the socket is connected
  unfoldable pub borrow_on : ℕ → ℕ → Exec Net Borrowed
  borrow_on megabytes sock = do
    reply ← rml_request host sock Op.borrow 0 (megabytes * 1024 * 1024) []
    raise_if (not (length reply.body == 24)) value_error
    fields ← lift (unpack_lease_reply reply.body)
    let (lease_id, base_offset, size) = fields
    pure (record { sock = sock; lease_id = lease_id; base_offset = base_offset; length = size })

  unfoldable pub borrow_new_socket : ℕ → Exec Net Borrowed
  unfolding borrow_on
  borrow_new_socket megabytes = do
    sock ← host.connect
    try_except (borrow_on megabytes sock) (λ e. (do host.close sock; raise e))

  unfoldable pub connect_and_borrow : Exec (Service Net) (Unit {0})
  unfolding borrow_new_socket
  connect_and_borrow = do
    megabytes ← gets (λ s. s.memory.megabytes)
    b ← on_net (borrow_new_socket megabytes)
    t ← now
    assign (λ m. record m {
      sock = some b.sock;
      lease_id = b.lease_id;
      base_offset = b.base_offset;
      length = b.length;
      started = some t;
      last_keepalive = some t;
      last_error = none;
    })

  -- `_mark_disconnected`; an OSError from `close` is dropped, and `close` raises no other
  unfoldable pub mark_disconnected : Error → Exec (Service Net) (Unit {0})
  mark_disconnected e = do
    old ← gets (λ s. s.memory.sock)
    assign (λ m. record m { sock = none; lease_id = 0; base_offset = 0; last_error = some e })
    elim old [ none ↦ pure tt | some sock ↦ try_except (on_net (host.close sock)) (λ _. pure tt) ]

  unfoldable pub reconnect : Exec (Service Net) (Unit {0})
  unfolding borrow_new_socket
  reconnect = do
    megabytes ← gets (λ s. s.memory.megabytes)
    b ← on_net (borrow_new_socket megabytes)
    assign (λ m. record m {
      sock = some b.sock;
      lease_id = b.lease_id;
      base_offset = b.base_offset;
      length = b.length;
    })
    t ← now
    assign (λ m. record m {
      last_keepalive = some t;
      reconnects = m.reconnects + 1;
      last_error = none;
    })

  -- `rml_request(self.sock, …)`; without a socket `None` has no attribute `sendall`
  unfoldable pub request_here : ℕ → ℕ → ℕ → Bytes → Exec (Service Net) Reply
  request_here op offset size payload s = elim s.memory.sock [
    | none ↦ (err attribute_error, s)
    | some sock ↦ on_net (rml_request host sock op offset size payload) s
  ]

  unfoldable pub request_with_reconnect : ℕ → ℕ → ℕ → Bytes → Exec (Service Net) Reply
  unfolding request_here mark_disconnected reconnect
  request_with_reconnect op offset size payload =
      try_except (request_here op offset size payload)
        (λ e. (do mark_disconnected e; reconnect; request_here op offset size payload))

  -- `keepalive`; a lease with the id 0 counts as none
  unfoldable pub keepalive : Exec (Service Net) (Unit {0})
  unfolding mark_disconnected
  keepalive s = elim s.memory.sock [
    | none ↦ (ok tt, s)
    | some sock ↦
        (if s.memory.lease_id == 0
            then pure tt
            else try_except
                (do
                  on_net (rml_request host sock Op.keepalive s.memory.lease_id 0 [])
                  t ← now
                  assign (λ m. record m { last_keepalive = some t; last_error = none }))
                (λ e. (do mark_disconnected e; raise e)))
          s
  ]

  -- The loop of `read`, with `left` bytes to come. A round asks for a byte at least.
  unfoldable pub read_rounds : ℕ → ℕ → ℕ → Bytes → Exec (Service Net) Bytes
  unfolding request_with_reconnect
  read_rounds zero pos left output s = (if left == 0 then ok output else stuck, s)
  read_rounds (suc fuel) pos left output s = elim (left == 0) [
    | true ↦ (ok output, s)
    | false ↦
        (do
          let n = min max_block left
          base ← gets (λ s. s.memory.base_offset)
          reply ← request_with_reconnect Op.read (base + pos) n []
          raise_if (not (length reply.body == n)) os_error
          read_rounds fuel (pos + n) (left - n) (output ++ reply.body))
          s
  ]

  -- `read`; the numbers are not negative
  unfoldable pub read : ℕ → ℕ → Exec (Service Net) Bytes
  unfolding read_rounds
  read offset size = do
    borrowed ← gets (λ s. s.memory.length)
    raise_if (ltb borrowed (offset + size)) value_error
    read_rounds size offset size []

  -- The loop of `write`, with `pos` as far as it has come.
  unfoldable pub write_rounds : ℕ → ℕ → Bytes → ℕ → Exec (Service Net) (Unit {0})
  unfolding request_with_reconnect
  write_rounds zero offset bytes pos s = (if leb (length bytes) pos then ok tt else stuck, s)
  write_rounds (suc fuel) offset bytes pos s = elim (leb (length bytes) pos) [
    | true ↦ (ok tt, s)
    | false ↦
        (do
          let n = min max_block (length bytes - pos)
          base ← gets (λ s. s.memory.base_offset)
          request_with_reconnect Op.write (base + offset + pos) n (slice bytes pos (pos + n))
          write_rounds fuel offset bytes (pos + n))
          s
  ]

  -- `write`; the offset is not negative
  unfoldable pub write : ℕ → Bytes → Exec (Service Net) (Unit {0})
  unfolding write_rounds
  write offset bytes = do
    borrowed ← gets (λ s. s.memory.length)
    raise_if (ltb borrowed (offset + length bytes)) value_error
    write_rounds (length bytes) offset bytes 0

  -- `release`
  unfoldable pub release : Exec (Service Net) (Unit {0})
  release = do
    m ← gets (λ s. s.memory)
    assign (λ m. record m { sock = none; lease_id = 0 })
    elim m.sock [
      | none ↦ pure tt
      | some sock ↦
          (if m.lease_id == 0 then pure tt else (do
            try_except (on_net (rml_request host sock Op.release m.lease_id 0 []) >>= λ _. pure tt)
                (λ _. pure tt)
            on_net (host.close sock)))
    ]
