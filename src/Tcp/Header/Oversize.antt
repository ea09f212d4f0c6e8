-- ===== src/Tcp/Header/Oversize.antt =====
-- `Marshal` on options that are too long for the four bits of the data offset.
use gonet.Prelude.{
  ℕ, ◌+◌, ◌/◌, ◌^◌, ◌≤◌, ◌<◌, ◌≡◌, List, ◌++◌, arith, lt→ltb, le→ltb_false, length, u8, shl, err,
}
use gonet.Tcp.Header.{
  Header, invalid_data_offset, parse_header, encode_options, padded_options, layout, marshal,
}
use gonet.Tcp.Header.RoundTrip.{length-padded_options}

-- With 41 to 60 bytes of options `Marshal` returns a segment whose data offset has wrapped below 5,
-- and `ParseHeader` answers every segment that starts with it by ErrInvalidDataOffset.
pub marshal_oversize :
    (h : Header) (payload : List ℕ)
    → 40 < length (encode_options h.options)
    → length (encode_options h.options) ≤ 60
    → parse_header ((marshal h).0 ++ payload) ≡ err invalid_data_offset
unfolding parse_header marshal layout
marshal_oversize h payload long fits = rw (
  le→ltb_false (length ((marshal h).0 ++ payload)) 20 (omega arith),
  lt→ltb (u8 (shl (u8 (20 + length (padded_options h)) / 4) 4) / 2 ^ 4) 5
      (omega (arith, length-padded_options h)),
)
