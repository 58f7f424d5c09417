-- ===== src/EndToEnd/Stack.antt =====
-- A read from an application's cache down to the phone: `RemoteAPI.read`, `LocalApi`, `RemoteMemory.read` and the phone's
-- server, with a network between each two.
use ram_link.Base.{
  ℕ, ◌+◌, ◌^◌, ◌≤◌, ◌<◌, ◌≡◌, some, true, [], arith, length, slice, length-slice, Bytes, Error, ok,
  codes,
}
use ram_link.Wire.{Chunks, flatten, AreNonempty, recv, max_block}
use ram_link.Server.Handle.{Clock}
use ram_link.Service.Memory.{RemoteMemory, Service}
use ram_link.EndToEnd.Link.{Link, link_host}
use ram_link.EndToEnd.Exchange.{IsIdle}
use ram_link.EndToEnd.Region.{region_read}
use ram_link.Local.Text.{Unicode}
use ram_link.Local.Lines.{command_line}
use ram_link.Local.Callers.{api_read}
use ram_link.Local.Link.{LocalLink, local_host}
use ram_link.Local.Calls.{read_call}

module _ (cut : Bytes → Chunks) (clock : ℕ → Clock) (joins : (b : Bytes) → flatten (cut b) ≡ b)
    (pieces : (b : Bytes) → AreNonempty (cut b)) (unicode : Unicode)
    (status_text : RemoteMemory → ℕ → Bytes) (message : Error → Bytes)
    (local_cut : Bytes → Chunks) where
  -- `RemoteAPI.read` of any range of at most MAX_TRANSFER bytes inside the borrowed region returns the bytes of the
  -- phone's buffer at the region's place and changes nothing at the phone, if the region lies in the buffer, nothing
  -- waits on the connection to the phone, and the line of the command reaches the local service in one piece.
  pub stack_read :
      (l : LocalLink Link) (offset n : ℕ) (more : Chunks)
      → let memory = l.service.memory in
        let server = l.service.net.server in
        memory.sock ≡ some 0
        → IsIdle l.service.net
        → memory.base_offset + memory.length ≤ server.size
        → server.size ≤ length server.memory
        → server.size < 256 ^ 8
        → offset + n ≤ memory.length
        → n ≤ max_block
        → recv 4096 (local_cut (command_line (codes "READ") offset n))
          ≡ (command_line (codes "READ") offset n, more)
        → (l' : LocalLink Link) × (api_read
              (local_host (link_host cut clock) unicode status_text message local_cut)
              offset
              n
              l
            ≡ (
              ok (
                  slice server.memory
                    (memory.base_offset + offset)
                    (memory.base_offset + (offset + n))),
              l',
            ))
          × IsIdle l'.service.net
          × (l'.service.net.server ≡ server)
  stack_read l offset n more connected idle lies whole word inside short piece =
      let memory = l.service.memory in
      let server = l.service.net.server in
      let bytes =
        slice server.memory (memory.base_offset + offset) (memory.base_offset + (offset + n)) in
      let (net, returns, idle', same) =
        region_read cut clock joins pieces l.service offset n connected idle lies whole word
          inside in
      let sized : length bytes ≡ n = omega (
        arith,
        length-slice server.memory (memory.base_offset + offset)
            (memory.base_offset + (offset + n)),
      ) in
      let service : Service Link = record l.service { net = net } in
      (
        record { service = service; inbox = []; outbox = []; is_served = true },
        (read_call (link_host cut clock) unicode status_text message local_cut l offset n bytes more
            service short piece returns sized).0,
        idle',
        same,
      )
