-- ===== src/Wire/RoundTrip.antt =====
-- Packing and unpacking are inverse to one another.
use ram_link.Base.{
  ℕ, ◌+◌, ◌<◌, ◌≤◌, ◌^◌, ◌≡◌, refl, sym, ◌∙◌, ◌++◌, arith, lt→ltb, length, take, slice, Bytes, ok,
  length-slice, take_of_length-le, ap, slice-append,
}
use ram_link.Wire.BigEndian.{
  be_bytes, be_value, be_into, be_value-be_bytes, be_bytes-be_value, AreBytes, slice-AreBytes,
  be_value-lt,
}
use ram_link.Wire.Header.{
  Header, magic, pack_header, unpack_header, pack_lease_reply, unpack_lease_reply,
}

-- What `HEADER.pack` returns is the four fields, and each number fits its own.
pub pack_header_ok :
    (op offset size : ℕ) {bs : Bytes}
    → pack_header op offset size ≡ ok bs
    → (op < 256 ^ 1)
      × (offset < 256 ^ 8)
      × (size < 256 ^ 4)
      × (bs ≡ magic ++ (be_bytes 1 op ++ (be_bytes 8 offset ++ be_bytes 4 size)))
unfolding pack_header
pack_header_ok op offset size h = ground arith

-- A header that was packed is unpacked to the numbers that went in.
pub unpack_header-pack_header :
    (op offset size : ℕ) {bs : Bytes}
    → pack_header op offset size ≡ ok bs
    → unpack_header bs ≡ ok (record { signature = magic; op = op; offset = offset; size = size })
unfolding unpack_header slice be_into
unpack_header-pack_header op offset size h =
    let (fits_op, fits_offset, fits_size, e) = pack_header_ok op offset size h in
    rw e λ i. ok (record {
      signature = magic;
      op = be_value-be_bytes 1 op fits_op i;
      offset = be_value-be_bytes 8 offset fits_offset i;
      size = be_value-be_bytes 4 size fits_size i;
    })

pack_lease_reply_ok :
    (lease_id offset size : ℕ) {bs : Bytes}
    → pack_lease_reply lease_id offset size ≡ ok bs
    → (lease_id < 256 ^ 8)
      × (offset < 256 ^ 8)
      × (size < 256 ^ 8)
      × (bs ≡ be_bytes 8 lease_id ++ (be_bytes 8 offset ++ be_bytes 8 size))
unfolding pack_lease_reply
pack_lease_reply_ok lease_id offset size h = ground arith

-- A BORROW reply that was packed is unpacked to the lease's id, offset and length.
pub unpack_lease_reply-pack_lease_reply :
    (lease_id offset size : ℕ) {bs : Bytes}
    → pack_lease_reply lease_id offset size ≡ ok bs
    → unpack_lease_reply bs ≡ ok (lease_id, offset, size)
unfolding unpack_lease_reply slice be_into
unpack_lease_reply-pack_lease_reply lease_id offset size h =
    let (fits_id, fits_offset, fits_size, e) = pack_lease_reply_ok lease_id offset size h in
    rw e λ i. ok (
      be_value-be_bytes 8 lease_id fits_id i,
      be_value-be_bytes 8 offset fits_offset i,
      be_value-be_bytes 8 size fits_size i,
    )

-- The fields of 17 bytes, joined again.
fields_join :
    (bs : Bytes)
    → length bs ≡ 17
    → take 4 bs ++ (slice bs 4 5 ++ (slice bs 5 13 ++ slice bs 13 17)) ≡ bs
fields_join bs n =
    let tail_ : slice bs 5 13 ++ slice bs 13 17 ≡ slice bs 5 17 =
      slice-append bs 5 13 17 (omega arith) (omega arith) (omega arith) in
    let after : slice bs 4 5 ++ slice bs 5 17 ≡ slice bs 4 17 =
      slice-append bs 4 5 17 (omega arith) (omega arith) (omega arith) in
    let first : take 4 bs ++ slice bs 4 17 ≡ slice bs 0 4 ++ slice bs 4 17 = unfold slice in refl in
    let all : slice bs 0 17 ≡ bs = unfold slice in take_of_length-le 17 bs (omega arith) in
    let whole : slice bs 0 4 ++ slice bs 4 17 ≡ slice bs 0 17 =
      slice-append bs 0 4 17 (omega arith) (omega arith) (omega arith) in
    rw (tail_, after) (first ∙ whole ∙ all)

-- What `HEADER.unpack` reads: the four fields of exactly 17 bytes.
pub unpack_header_ok :
    (bs : Bytes) {h : Header}
    → unpack_header bs ≡ ok h
    → (length bs ≡ 17)
      × (h.signature ≡ take 4 bs)
      × (h.op ≡ be_value (slice bs 4 5))
      × (h.offset ≡ be_value (slice bs 5 13))
      × (h.size ≡ be_value (slice bs 13 17))
unfolding unpack_header
unpack_header_ok bs h = ground arith

-- A slice of bytes within the list is the bytes of its number, and the number fits.
slice_field :
    (bs : Bytes) (a w : ℕ)
    → AreBytes bs
    → a + w ≤ length bs
    → (be_value (slice bs a (a + w)) < 256 ^ w)
      × (be_bytes w (be_value (slice bs a (a + w))) ≡ slice bs a (a + w))
slice_field bs a w are h =
    let n : length (slice bs a (a + w)) ≡ w =
      omega (arith, length-slice bs a (a + w) (omega arith) h) in
    let bytes = slice-AreBytes bs a (a + w) are in
    (be_value-lt (slice bs a (a + w)) w n bytes, be_bytes-be_value (slice bs a (a + w)) w n bytes)

pub pack_header_eq :
    (op offset size : ℕ)
    → op < 256 ^ 1
    → offset < 256 ^ 8
    → size < 256 ^ 4
    → pack_header op offset size
      ≡ ok (magic ++ (be_bytes 1 op ++ (be_bytes 8 offset ++ be_bytes 4 size)))
unfolding pack_header
pack_header_eq op offset size p q r = rw (lt→ltb _ _ p, lt→ltb _ _ q, lt→ltb _ _ r)

-- 17 bytes that begin with the magic are what packing their three numbers gives.
pub pack_header-unpack_header :
    (bs : Bytes) {h : Header}
    → AreBytes bs
    → unpack_header bs ≡ ok h
    → h.signature ≡ magic
    → pack_header h.op h.offset h.size ≡ ok bs
pack_header-unpack_header bs {h} are e m =
    let (n, sig, op, offset, size) = unpack_header_ok bs e in
    let (fits_op, op_back) = slice_field bs 4 1 are (omega arith) in
    let (fits_offset, offset_back) = slice_field bs 5 8 are (omega arith) in
    let (fits_size, size_back) = slice_field bs 13 4 are (omega arith) in
    rw (op, offset, size)
      (pack_header_eq _ _ _ fits_op fits_offset fits_size
        ∙ ap ok (
            rw (op_back, offset_back, size_back)
              (ap (λ front. front ++ (slice bs 4 5 ++ (slice bs 5 13 ++ slice bs 13 17)))
                  (sym m ∙ sig)
                ∙ fields_join bs n)))
