-- ===== src/Server/Session.antt =====
-- A connection of `RAMLinkServer` (android/termux/server.py).
use ram_link.Exec.{Exec}
use ram_link.Connection.{Connected}
use ram_link.Server.Leases.{RamLinkServer}

abbrev pub Session : Type 0
Session = Connected RamLinkServer

abbrev pub Action : Type 0 → Type 0
Action = Exec Session
