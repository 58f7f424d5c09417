-- ===== src/Wire/Op.antt =====
-- The operations of RML1, OP_INFO to OP_KEEPALIVE (android/termux/server.py).
use ram_link.Base.{ℕ}

abbrev pub info : ℕ
info = 1

abbrev pub read : ℕ
read = 2

abbrev pub write : ℕ
write = 3

abbrev pub ping : ℕ
ping = 4

abbrev pub block_info : ℕ
block_info = 5

abbrev pub block_read : ℕ
block_read = 6

abbrev pub block_write : ℕ
block_write = 7

abbrev pub borrow : ℕ
borrow = 8

abbrev pub release : ℕ
release = 9

abbrev pub keepalive : ℕ
keepalive = 10
