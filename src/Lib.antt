-- ===== src/Lib.antt =====
-- RAM-Link: memory of one machine, borrowed by another over the RML1 protocol.
--
-- android/termux/server.py is the phone's server. It owns one buffer of bytes, grants leases on regions
-- of it, and answers requests to read and write it. Each connection is a thread with a loop of requests.
-- clients/windows/ramlink_memory_provider.py is a server of the same protocol on a PC.
-- clients/windows/ramlink_cache_manager.py caches pages of a borrowed memory on the borrower's side, and
-- clients/windows/ramlink_memory_api.py divides such a memory into regions for applications.
--
-- The files:
--   Base and its children: shared names, Python's slices, dicts and exceptions.
--   Exec: code that changes a state and may raise; Exec/Triple: what such a call does to the state.
--   Wire: headers and replies as bytes (HEADER, LEASE_REPLY), the operations, and the loop of recv_all
--     over a stream that the network cuts into pieces as it likes.
--   Connection: a connection's bytes to come and bytes sent, recv_all, send_header and sendall on it.
--   Server/Leases: Lease, the fields of RAMLinkServer, and the lease table (find_free_region,
--     cleanup_expired, get_lease). Server/Session: the server and a connection. Server/Handle: borrow, info, handle and
--     client. Server/Regions, Invariant, Quiet, Ranges, Preserve, Connection, Transfers and Borrow hold the
--     proofs. Server/Race: two threads that borrow, in turns; Server/Overlap: what the turns of both can lead to.
--   Provider/Defs: RAMProvider (clients/windows/ramlink_memory_provider.py), the PC's server, whose READ and
--     WRITE need a lease. Provider/Isolation, Table, Steps and Invariant hold the proofs.
--   Backend: the remote memory that a cache is handed, a parameter, and what is asked of it.
--   PageCache/Defs: RemoteMemoryCache (clients/windows/ramlink_cache_manager.py), a least recently used
--     cache of pages. PageCache/View: the memory that it stands for, and its invariant. PageCache/Paging,
--     States, Load, Read, Put, Write, Flush, Eviction and Fresh hold the proofs. PageCache/Session: calls in a row,
--     against an array.
--   MemoryApi/Cache and MemoryApi/Regions: _Cache, MemoryRegion and RAMLinkMemory
--     (clients/windows/ramlink_memory_api.py). MemoryApi/Mirror and Methods compare _Cache with
--     RemoteMemoryCache, Contents carries its laws over, Layout, Steady and Steps hold the division into
--     regions, Isolation what an application sees.
--   Client/Host: a client's sockets and clock, a parameter, and recv_all on them. Client/Request: rml_request
--     (clients/windows/ramlink_memory_service.py). Client/Laws: when they return. Client/Desktop: request
--     and ping_host of clients/windows/ramlink_client.py. Client/Transfers: android/termux/client.py and the loops
--     over blocks of ramlink_client.py.
--   Service/Memory: RemoteMemory (the same file), the borrower's side of a lease, with its reconnections.
--     Service/Requests, Region, Reconnect and Release hold the proofs.
--   EndToEnd/Serve: what the phone's server makes of one request. EndToEnd/Link: sockets that lead to it, for
--     one client. EndToEnd/Exchange, Region and Stall compose RemoteMemory with the server, Desktop and Ping
--     compose ramlink_client.py with it.
--   Local/Text: what the local service uses of Python's texts (decode, strip, split, upper, int). Local/Api:
--     LocalApi (the same file). Local/Callers: RemoteAPI (clients/windows/ramlink_cache_manager.py) and _Service
--     (clients/windows/ramlink_memory_api.py). Local/Link: connections that lead to LocalApi. Local/Words,
--     Numbers, Lines, Serve, Calls and Writes hold the proofs; EndToEnd/Stack goes from RemoteAPI down to the phone.
--   RemoteCache/Defs: RemoteCache (android/termux/remote_cache.py), the phone's write-through cache of pages of
--     a PC's memory. RemoteCache/Pages, Loading, Bounded and Hit hold the proofs.
--
-- Choices. Numbers are unbounded; a number that does not fit its field makes pack raise struct.error.
-- A call takes the readings of the clock as an argument, a number for each place that reads it, in
-- nanoseconds; a pass over the lease table reads the clock once. A connection takes all that is sent.
-- recv_all, receiving and the loops of RemoteMemory and RemoteCache have the number of bytes asked for as their
-- fuel, since each round brings or sends a byte at least, and so have the loops over blocks; the loops of the
-- page cache have the length of the range; client takes its fuel as an argument. A socket of the link
-- that has nothing to bring times out, as settimeout of the clients has it.
--
-- Not modelled: the menus, the search for networks of ramlink_client.py and its threads, the keepalive thread of
-- client.py; the accept loops, printing, a buffer that cannot be allocated, and the locks of the caches and of
-- RemoteMemory. SHA-256 is a parameter of the transfers. Offsets and lengths that callers hand to the
-- caches and to RemoteMemory are not negative, and a backend of the page caches that returns sends as many bytes as it was
-- asked for: on less, the loops of the source compute with negative numbers. LocalApi reads
-- negative ones and does with them what the source does.
-- What Python knows of characters beyond ASCII is a parameter of LocalApi.
pub mod Base
pub mod Exec
pub mod Wire
pub mod Connection
pub mod Server
pub mod Provider
pub mod Backend
pub mod PageCache
pub mod MemoryApi
pub mod Client
pub mod Service
pub mod EndToEnd
pub mod RemoteCache
pub mod Local
