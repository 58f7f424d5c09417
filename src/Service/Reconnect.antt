-- ===== src/Service/Reconnect.antt =====
-- What `read` of `RemoteMemory` does when its connection breaks.
use ram_link.Base.{
  ℕ, zero, suc, ◌+◌, ◌-◌, ◌≤◌, ◌<◌, min, ◌≡◌, refl, ◌∙◌, ap, sym, some, [], arith, length, Bytes,
  Error, Result, ok, err,
}
use ram_link.Wire.{max_block}
use ram_link.Wire.Op
use ram_link.Client.Host.{Host}
use ram_link.Client.Request.{Reply, rml_request}
use ram_link.Service.Memory.{
  Service, Borrowed, borrow_new_socket, request_here, request_with_reconnect, read_rounds, read,
}
use ram_link.Service.Requests.{read_step, reconnected, request_again}

module _ {Net : Type 0} (host : Host Net) where
  read_rounds-done :
      (fuel pos left : ℕ) (output : Bytes) (s : Service Net)
      → left ≡ 0
      → read_rounds host fuel pos left output s ≡ (ok output, s)
  unfolding read_rounds
  read_rounds-done zero pos left output s none_left = ground arith
  read_rounds-done (suc fuel) pos left output s none_left = ground arith

  -- A read of one block.
  read_block :
      (offset n : ℕ) (s s' : Service Net) (reply : Reply)
      → 0 < n
      → n ≤ max_block
      → offset + n ≤ s.memory.length
      → request_with_reconnect host Op.read (s.memory.base_offset + offset) n [] s ≡ (ok reply, s')
      → length reply.body ≡ n
      → read host offset n s ≡ (ok reply.body, s')
  unfolding read read_rounds
  read_block offset zero s s' reply pos short inside sent sized = absurd (omega arith)
  read_block offset (suc n) s s' reply pos short inside sent sized =
      let whole : min max_block (suc n) ≡ suc n = omega arith in
      let step =
        read_step host n offset (suc n) [] s (suc n) reply s' (omega arith) (sym whole) sent
          sized in
      let done : read_rounds host n (offset + suc n) (suc n - suc n) reply.body s'
          ≡ (ok reply.body, s') =
        read_rounds-done n (offset + suc n) (suc n - suc n) reply.body s' (omega arith) in
      ground (arith, step, done)

  -- `read` of one block at most, when its connection breaks and a new one is made: it returns what the server holds at
  -- the place that the offset had in the old region, though the region borrowed now may lie elsewhere.
  pub read_reconnected :
      (s : Service Net) (sock offset n : ℕ) (e : Error) (b : Borrowed) (t : ℕ) (reply : Reply)
      (net net' net'' net3 net4 : Net)
      → s.memory.sock ≡ some sock
      → 0 < n
      → n ≤ max_block
      → offset + n ≤ s.memory.length
      → rml_request host sock Op.read (s.memory.base_offset + offset) n [] s.net ≡ (err e, net)
      → host.close sock net ≡ (ok tt, net')
      → borrow_new_socket host s.memory.megabytes net' ≡ (ok b, net'')
      → host.time net'' ≡ (t, net3)
      → rml_request host b.sock Op.read (s.memory.base_offset + offset) n [] net3 ≡ (ok reply, net4)
      → length reply.body ≡ n
      → (s' : Service Net) × (read host offset n s ≡ (ok reply.body, s'))
        × (s'.memory.base_offset ≡ b.base_offset)
        × (s'.net ≡ net4)
  unfolding request_here
  read_reconnected s sock offset n e b t reply net net' net'' net3 net4 connected pos short inside
        broken shut borrowed clock answered sized =
      let address = s.memory.base_offset + offset in
      let s' = record (reconnected host s sock connected Op.read address n [] b t net3) {
        net = net4;
      } in
      let again =
        request_again host s sock connected Op.read address n [] e b t net net' net'' net3 broken
          shut borrowed clock in
      (
        s',
        read_block offset n s s' reply pos short inside
            (again ∙ ap (λ (x : Result Reply × Net). (x.0, record s' { net = x.1 })) answered)
            sized,
        refl,
        refl,
      )
