-- ===== src/Tcp/Header/Runs.antt =====
-- Runs of the TCP header code, and its theorems at concrete headers.
use gonet.Prelude.{◌≡◌, refl, ◌≢◌, inl, inr, List, [], ◌∷◌, ◌++◌, arith, replicate, ok, err, panic}
use gonet.Tcp.Header.{
  Header, TcpOption, invalid_data_offset, length_exceeds, parse_header, parse_options, marshal,
  encode_options, next_option, layout, padded_options,
}
use gonet.Tcp.Header.Options.{parse_options-ne-panic, parse_options-encode}
use gonet.Tcp.Header.RoundTrip.{IsValid, tcp_parse_header-marshal}
use gonet.Tcp.Header.Oversize.{marshal_oversize}

abbrev mss : TcpOption
mss = record { kind = 2; len = 4; content = 5 ∷ 0xb4 ∷ [] }

abbrev nop : TcpOption
nop = record { kind = 1; len = 0; content = [] }

abbrev with_options : List TcpOption → Header
with_options options = record {
  src_port = 50000;
  dst_port = 80;
  seq_num = 0x01020304;
  ack_num = 0;
  data_offset = 0;
  flags = 0x02;
  window = 65535;
  checksum = 0;
  urgent = 0;
  options = options;
}

marshal_run :
    (marshal (with_options (mss ∷ nop ∷ []))).0
    ≡ 0xc3 ∷ 0x50 ∷ 0 ∷ 80 ∷ 1 ∷ 2 ∷ 3 ∷ 4 ∷ 0 ∷ 0 ∷ 0 ∷ 0 ∷ 0x70 ∷ 2 ∷ 0xff ∷ 0xff ∷ 0 ∷ 0 ∷ 0 ∷ 0
      ∷ 2 ∷ 4 ∷ 5 ∷ 0xb4 ∷ 1 ∷ 0 ∷ 0 ∷ 0 ∷ []
unfolding marshal layout padded_options encode_options
marshal_run = refl

parse_options_run : parse_options (2 ∷ 9 ∷ 5 ∷ []) ≡ err (length_exceeds 9 2)
unfolding parse_options next_option
parse_options_run = refl

parse_options-ne-panic_example : parse_options (2 ∷ 9 ∷ 5 ∷ []) ≢ panic
parse_options-ne-panic_example = parse_options-ne-panic (2 ∷ 9 ∷ 5 ∷ [])

parse_options-encode_example :
    parse_options (encode_options (nop ∷ mss ∷ []) ++ (0 ∷ 7 ∷ [])) ≡ ok (nop ∷ mss ∷ [])
unfolding next_option
parse_options-encode_example =
    parse_options-encode (nop ∷ mss ∷ []) (0 ∷ 7 ∷ [])
      (inl (refl, refl, refl), (inr (omega arith, refl), tt)) refl

sent-IsValid : IsValid (with_options (mss ∷ nop ∷ []))
unfolding encode_options
sent-IsValid = record {
  src_port_fits = omega arith;
  dst_port_fits = omega arith;
  seq_num_fits = omega arith;
  ack_num_fits = omega arith;
  flags_fit = omega arith;
  window_fits = omega arith;
  checksum_fits = omega arith;
  urgent_fits = omega arith;
  options_wire = (inr (omega arith, refl), (inl (refl, refl, refl), tt));
  options_fit = omega arith;
}

tcp_parse_header-marshal_example :
    parse_header ((marshal (with_options (mss ∷ nop ∷ []))).0 ++ (1 ∷ 2 ∷ []))
    ≡ ok (marshal (with_options (mss ∷ nop ∷ []))).1
tcp_parse_header-marshal_example =
    tcp_parse_header-marshal (with_options (mss ∷ nop ∷ [])) (1 ∷ 2 ∷ []) sent-IsValid

abbrev eleven_mss : List TcpOption
eleven_mss = replicate 11 mss

marshal_oversize_example :
    parse_header ((marshal (with_options eleven_mss)).0 ++ []) ≡ err invalid_data_offset
unfolding encode_options
marshal_oversize_example = marshal_oversize (with_options eleven_mss) [] (omega arith) (omega arith)
