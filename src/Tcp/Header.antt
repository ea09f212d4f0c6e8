-- ===== src/Tcp/Header.antt =====
-- internal/tcp/header.go: the TCP header, its options, `ParseHeader`, `ParseOptions`, `Marshal` and
-- the flags. `String` is not modelled. `panic` stands for a loop out of fuel as well as for a slice
-- bound out of range.
pub mod Options
pub mod RoundTrip
pub mod Oversize
pub mod Flags
mod Runs
use gonet.Prelude.{
  ℕ, zero, suc, ◌+◌, ◌-◌, ◌*◌, ◌/◌, ◌%◌, bit_and, bit_or, Bool, ◌||◌, List, [], ◌∷◌, ◌++◌, not,
  Result, ok, err, panic, ◌>>=◌, byte_at, slice, uint16_at, uint32_at, be16, be32, length, take,
  drop, ltb, ◌==◌, if◌then◌else◌, u8, shl, shr,
}

abbrev pub flag_fin : ℕ
flag_fin = 0x01

abbrev pub flag_syn : ℕ
flag_syn = 0x02

abbrev pub flag_rst : ℕ
flag_rst = 0x04

abbrev pub flag_psh : ℕ
flag_psh = 0x08

abbrev pub flag_ack : ℕ
flag_ack = 0x10

abbrev pub flag_urg : ℕ
flag_urg = 0x20

abbrev pub flag_ece : ℕ
flag_ece = 0x40

abbrev pub flag_cwr : ℕ
flag_cwr = 0x80

abbrev pub opt_end_of_list : ℕ
opt_end_of_list = 0

abbrev pub opt_nop : ℕ
opt_nop = 1

abbrev pub opt_mss : ℕ
opt_mss = 2

abbrev pub min_header_len : ℕ
min_header_len = 20

pub record TcpOption : Type 0 where
  pub kind : ℕ
  pub len : ℕ
  pub content : List ℕ

pub record Header : Type 0 where
  pub src_port : ℕ
  pub dst_port : ℕ
  pub seq_num : ℕ
  pub ack_num : ℕ
  pub data_offset : ℕ
  pub flags : ℕ
  pub window : ℕ
  pub checksum : ℕ
  pub urgent : ℕ
  pub options : List TcpOption

-- The last three are ErrMalformedOptions with what its text names.
pub data Error : Type 0 where
  header_too_short invalid_data_offset header_exceeds_packet : Error
  missing_length : ℕ → Error
  length_too_short length_exceeds : ℕ → ℕ → Error

-- What one round of the loop of `ParseOptions` finds at the front of the bytes left.
pub data Next : Type 0 where
  stop : Next
  fail : Error → Next
  -- A slice bound out of range.
  out_of_range : Next
  take_option : TcpOption → List ℕ → Next

-- `data[i+2 : i+int(length)]` and `i += int(length)`, on the bytes from `i` on: the slice needs its
-- bounds in order and inside the bytes.
unfoldable pub cut_option : ℕ → ℕ → List ℕ → Next
cut_option kind len bytes =
    if ltb len 2 || ltb (length bytes) len
    then out_of_range
    else take_option (record { kind = kind; len = len; content = slice bytes 2 len })
        (drop len bytes)

unfoldable pub sized_option : ℕ → List ℕ → Next
unfolding cut_option
sized_option kind [] = fail (missing_length kind)
sized_option kind (len ∷ body) =
    if ltb len 2
    then fail (length_too_short len kind)
    else if ltb (2 + length body) len
    then fail (length_exceeds len kind)
    else cut_option kind len (kind ∷ len ∷ body)

unfoldable pub next_option : List ℕ → Next
unfolding sized_option
next_option [] = stop
next_option (kind ∷ rest) =
    if kind == opt_end_of_list
    then stop
    else if kind == opt_nop
    then take_option (record { kind = kind; len = 0; content = [] }) rest
    else sized_option kind rest

-- The rest of the round: break, return an error, or append the option and go on.
abbrev pub after : Next → (List ℕ → Result Error (List TcpOption)) → Result Error (List TcpOption)
after stop loop = ok []
after (fail e) loop = err e
after out_of_range loop = panic
after (take_option opt rest) loop = loop rest >>= λ opts. ok (opt ∷ opts)

unfoldable pub options_loop : ℕ → List ℕ → Result Error (List TcpOption)
options_loop zero bytes = after (next_option bytes) (λ rest. panic)
options_loop (suc fuel) bytes = after (next_option bytes) (options_loop fuel)

-- Each round takes a byte at least, so the loop has as many rounds as bytes.
unfoldable pub parse_options : List ℕ → Result Error (List TcpOption)
unfolding options_loop
parse_options bytes = options_loop (length bytes) bytes

-- The header literal of `ParseHeader`, with its later assignments.
unfoldable pub read_fields : List ℕ → List TcpOption → Header
read_fields raw options = record {
  src_port = uint16_at raw 0;
  dst_port = uint16_at raw 2;
  seq_num = uint32_at raw 4;
  ack_num = uint32_at raw 8;
  data_offset = shr (byte_at raw 12) 4;
  flags = byte_at raw 13;
  window = uint16_at raw 14;
  checksum = uint16_at raw 16;
  urgent = uint16_at raw 18;
  options = options;
}

unfoldable pub parse_header : List ℕ → Result Error Header
parse_header raw =
    if ltb (length raw) min_header_len
    then err header_too_short
    else let data_offset = shr (byte_at raw 12) 4 in
      let header_len = data_offset * 4 in
      if ltb data_offset 5
      then err invalid_data_offset
      else if ltb (length raw) header_len
      then err header_exceeds_packet
      else if ltb min_header_len header_len
      then (parse_options (slice raw min_header_len header_len) >>= λ opts.
          ok (read_fields raw opts))
      else ok (read_fields raw [])

-- The loop of `Marshal` over the options.
unfoldable pub encode_options : List TcpOption → List ℕ
encode_options [] = []
encode_options (opt ∷ opts) =
    let rest = encode_options opts in
    if opt.kind == opt_end_of_list
    then opt_end_of_list ∷ []
    else if opt.kind == opt_nop
    then opt_nop ∷ rest
    else opt.kind ∷ opt.len ∷ opt.content ++ rest

-- `for (MinHeaderLen+len(optsBytes))%4 != 0`; three rounds are enough.
unfoldable pub pad_loop : ℕ → List ℕ → List ℕ
pad_loop zero bytes = bytes
pad_loop (suc fuel) bytes =
    let more = pad_loop fuel (bytes ++ (opt_end_of_list ∷ [])) in
    if (min_header_len + length bytes) % 4 == 0 then bytes else more

unfoldable pub padded_options : Header → List ℕ
unfolding pad_loop
padded_options h = pad_loop 3 (encode_options h.options)

-- `h.DataOffset = uint8(MinHeaderLen+len(optsBytes)) / 4`
unfoldable pub set_data_offset : Header → ℕ → Header
set_data_offset h opts_len = record h { data_offset = u8 (min_header_len + opts_len) / 4 }

-- The buffer of `Marshal`: its writes cover the first twenty bytes in this order, and the options
-- the rest.
unfoldable pub layout : Header → List ℕ → List ℕ
layout h opts_bytes =
    be16 h.src_port
    ++ (be16 h.dst_port
        ++ (be32 h.seq_num
            ++ (be32 h.ack_num
                ++ (u8 (shl h.data_offset 4) ∷ h.flags ∷ be16 h.window
                    ++ (be16 h.checksum ++ (be16 h.urgent ++ opts_bytes))))))

-- `Marshal` never fails; it returns the bytes and leaves the data offset in the header.
unfoldable pub marshal : Header → List ℕ × Header
unfolding set_data_offset
marshal h =
    let opts_bytes = padded_options h in
    let h' = set_data_offset h (length opts_bytes) in (layout h' opts_bytes, h')

unfoldable pub has_flag : Header → ℕ → Bool
has_flag h flag = not (bit_and h.flags flag == 0)

unfoldable pub set_flag : Header → ℕ → Header
set_flag h flag = record h { flags = bit_or h.flags flag }

unfoldable pub header_len : Header → ℕ
header_len h = h.data_offset * 4
