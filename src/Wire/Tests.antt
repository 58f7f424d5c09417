-- ===== src/Wire/Tests.antt =====
-- Runs of the wire format, and the theorems about it at concrete inputs.
use ram_link.Base.{
  ◌^◌, ◌≡◌, refl, [], ◌∷◌, arith, Bytes, ok, err, connection_error, struct_error, slice,
}
use ram_link.Wire.Stream.{AreNonempty, Chunks, recv_all}
use ram_link.Wire.Header.{magic, pack_header, unpack_header}
use ram_link.Wire.Receive.{Received, recv_all-Received, recv_all_closed}
use ram_link.Wire.RoundTrip.{unpack_header-pack_header, pack_header-unpack_header}
use ram_link.Wire.BigEndian.{be_into, value_from}

-- Five bytes in three pieces.
abbrev pieces : Chunks
pieces = (1 ∷ 2 ∷ []) ∷ (3 ∷ []) ∷ (4 ∷ 5 ∷ []) ∷ []

pieces-AreNonempty : AreNonempty pieces
pieces-AreNonempty = ((λ e. cc), ((λ e. cc), ((λ e. cc), tt)))

recv_all_run : recv_all 4 pieces ≡ (ok (1 ∷ 2 ∷ 3 ∷ 4 ∷ []), (5 ∷ []) ∷ [])
unfolding recv_all
recv_all_run = refl

-- READ of 16 bytes at offset 515.
abbrev read_header : Bytes
read_header = 82 ∷ 77 ∷ 76 ∷ 49 ∷ 2 ∷ 0 ∷ 0 ∷ 0 ∷ 0 ∷ 0 ∷ 0 ∷ 2 ∷ 3 ∷ 0 ∷ 0 ∷ 0 ∷ 16 ∷ []

pack_header_run : pack_header 2 515 16 ≡ ok read_header
unfolding pack_header be_into
pack_header_run = refl

pack_header_too_long : pack_header 2 0 (2 ^ 32) ≡ err struct_error
unfolding pack_header
pack_header_too_long = refl

unpack_header_run :
    unpack_header read_header ≡ ok (record { signature = magic; op = 2; offset = 515; size = 16 })
unfolding unpack_header slice value_from
unpack_header_run = refl

recv_all-Received_example : Received 4 pieces (recv_all 4 pieces)
recv_all-Received_example = recv_all-Received 4 pieces pieces-AreNonempty (omega arith)

recv_all_closed_example : (recv_all 9 pieces).0 ≡ err connection_error
recv_all_closed_example = recv_all_closed 9 pieces pieces-AreNonempty (omega arith)

unpack_header-pack_header_example :
    unpack_header read_header ≡ ok (record { signature = magic; op = 2; offset = 515; size = 16 })
unpack_header-pack_header_example = unpack_header-pack_header 2 515 16 pack_header_run

pack_header-unpack_header_example : pack_header 2 515 16 ≡ ok read_header
pack_header-unpack_header_example =
    pack_header-unpack_header read_header (omega arith) unpack_header_run refl
