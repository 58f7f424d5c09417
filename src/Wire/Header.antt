-- ===== src/Wire/Header.antt =====
-- `HEADER` and `LEASE_REPLY` (android/termux/server.py).
use ram_link.Base.{
  ℕ, ◌^◌, [], ◌∷◌, ◌++◌, not, ltb, ◌==◌, length, take, slice, Bytes, Result, ok, ◌>>◌, raise_if,
  struct_error,
}
use ram_link.Wire.BigEndian.{be_bytes, be_value}

-- `b"RML1"`
abbrev pub magic : Bytes
magic = b'R' ∷ b'M' ∷ b'L' ∷ b'1' ∷ []

-- The fields of `struct.Struct("!4sBQI")`.
pub record Header : Type 0 where
  pub signature : Bytes
  pub op : ℕ
  pub offset : ℕ
  pub size : ℕ

abbrev pub header_size : ℕ
header_size = 17

-- `HEADER.pack(MAGIC, op, offset, length)` raises struct.error at a number that its field cannot hold.
unfoldable pub pack_header : ℕ → ℕ → ℕ → Result Bytes
pack_header op offset size = do
  raise_if (not (ltb op (256 ^ 1))) struct_error
  raise_if (not (ltb offset (256 ^ 8))) struct_error
  raise_if (not (ltb size (256 ^ 4))) struct_error
  ok (magic ++ (be_bytes 1 op ++ (be_bytes 8 offset ++ be_bytes 4 size)))

-- `HEADER.unpack(header)`
unfoldable pub unpack_header : Bytes → Result Header
unpack_header bs = do
  raise_if (not (length bs == header_size)) struct_error
  ok (record {
    signature = take 4 bs;
    op = be_value (slice bs 4 5);
    offset = be_value (slice bs 5 13);
    size = be_value (slice bs 13 17);
  })

-- `LEASE_REPLY = struct.Struct("!QQQ")`: lease_id, byte_offset, byte_length
unfoldable pub pack_lease_reply : ℕ → ℕ → ℕ → Result Bytes
pack_lease_reply lease_id offset size = do
  raise_if (not (ltb lease_id (256 ^ 8))) struct_error
  raise_if (not (ltb offset (256 ^ 8))) struct_error
  raise_if (not (ltb size (256 ^ 8))) struct_error
  ok (be_bytes 8 lease_id ++ (be_bytes 8 offset ++ be_bytes 8 size))

unfoldable pub unpack_lease_reply : Bytes → Result (ℕ × ℕ × ℕ)
unpack_lease_reply bs = do
  raise_if (not (length bs == 24)) struct_error
  ok (be_value (slice bs 0 8), be_value (slice bs 8 16), be_value (slice bs 16 24))

-- `struct.pack("!QQ", SECTOR_SIZE, self.sectors)`
unfoldable pub pack_block_info : ℕ → ℕ → Result Bytes
pack_block_info sector_size sectors = do
  raise_if (not (ltb sector_size (256 ^ 8))) struct_error
  raise_if (not (ltb sectors (256 ^ 8))) struct_error
  ok (be_bytes 8 sector_size ++ be_bytes 8 sectors)
