-- ===== src/Ip/Header.antt =====
-- internal/ip/header.go: the IPv4 header, `ParseHeader`, `Marshal`, `HeaderLen` and `Payload`.
-- A byte slice is a list of numbers below 256; a nil slice and an empty one are both `[]`.
pub mod Wire
pub mod Read
pub mod Parse
pub mod Panics
pub mod RoundTrip
mod Runs
use gonet.Prelude.{
  ℕ, ◌+◌, ◌*◌, ◌≤◌, ◌<◌, ◌≡◌, bit_and, bit_or, List, [], ◌∷◌, none, some, Result, ok, err, ◌>>=◌,
  IsByte, byte_at, slice, uint16_at, be16, put_bytes, copy_from, length, drop, replicate, u8, u16,
  shl, shr, ltb, leb, ◌==◌, if◌then◌else◌, not,
}
use gonet.Prelude.Net.{to4}
use gonet.Ip.Errors.{Error, too_short, invalid}

abbrev pub flag_df : ℕ
flag_df = 0x02

abbrev pub flag_mf : ℕ
flag_mf = 0x01

abbrev pub proto_icmp : ℕ
proto_icmp = 1

abbrev pub proto_tcp : ℕ
proto_tcp = 6

abbrev pub proto_udp : ℕ
proto_udp = 17

abbrev pub min_header_len : ℕ
min_header_len = 20

abbrev pub default_ttl : ℕ
default_ttl = 64

pub record Header : Type 0 where
  pub version : ℕ
  pub ihl : ℕ
  pub tos : ℕ
  pub total_len : ℕ
  pub id : ℕ
  pub flags : ℕ
  pub frag_offset : ℕ
  pub ttl : ℕ
  pub protocol : ℕ
  pub checksum : ℕ
  pub src : List ℕ
  pub dst : List ℕ
  pub options : List ℕ

-- The last part of `ParseHeader`, behind its checks.
unfoldable pub read_fields : List ℕ → ℕ → ℕ → Header
read_fields raw version ihl =
    let flags_and_offset = uint16_at raw 6 in
    record {
      version = version;
      ihl = ihl;
      tos = byte_at raw 1;
      total_len = uint16_at raw 2;
      id = uint16_at raw 4;
      flags = u8 (shr flags_and_offset 13);
      frag_offset = bit_and flags_and_offset 0x1fff;
      ttl = byte_at raw 8;
      protocol = byte_at raw 9;
      checksum = uint16_at raw 10;
      src = slice raw 12 16;
      dst = slice raw 16 20;
      options = if ltb min_header_len (ihl * 4) then slice raw 20 (ihl * 4) else [];
    }

unfoldable pub parse_header : List ℕ → Result Error Header
parse_header raw =
    if ltb (length raw) min_header_len
    then err too_short
    else let version = shr (byte_at raw 0) 4 in
      let ihl = bit_and (byte_at raw 0) 0x0f in
      if not (version == 4)
      then err invalid
      else if ltb (length raw) (ihl * 4)
      then err too_short
      else if ltb (uint16_at raw 2) (ihl * 4)
      then err invalid
      else ok (read_fields raw version ihl)

unfoldable pub header_len : Header → ℕ
header_len h = h.ihl * 4

-- `if ip4 := ip.To4(); ip4 != nil { copy(buf[i:i+4], ip4) }`
unfoldable pub put_ip : ℕ → List ℕ → List ℕ → Result Error (List ℕ)
put_ip i ip buf = elim (to4 ip) [ none ↦ ok buf | some four ↦ put_bytes i four buf ]

unfoldable pub put_options : List ℕ → List ℕ → Result Error (List ℕ)
put_options options buf = if ltb 0 (length options) then copy_from 20 options buf else ok buf

-- The writes of `Marshal`, in order, into the fresh buffer.
unfoldable pub fill : Header → List ℕ → Result Error (List ℕ)
fill h buf0 = do
  buf1 ← put_bytes 0 (bit_or (u8 (shl h.version 4)) (bit_and h.ihl 0x0f) ∷ []) buf0
  buf2 ← put_bytes 1 (h.tos ∷ []) buf1
  buf3 ← put_bytes 2 (be16 h.total_len) buf2
  buf4 ← put_bytes 4 (be16 h.id) buf3
  buf5 ← put_bytes 6 (be16 (bit_or (u16 (shl h.flags 13)) (bit_and h.frag_offset 0x1fff))) buf4
  buf6 ← put_bytes 8 (h.ttl ∷ []) buf5
  buf7 ← put_bytes 9 (h.protocol ∷ []) buf6
  buf8 ← put_bytes 10 (be16 h.checksum) buf7
  buf9 ← put_ip 12 h.src buf8
  buf10 ← put_ip 16 h.dst buf9
  put_options h.options buf10

unfoldable pub marshal : Header → Result Error (List ℕ)
unfolding fill header_len
marshal h = fill h (replicate (header_len h) 0)

-- `none` of the source, nil, is the empty slice.
unfoldable pub payload : Header → List ℕ → List ℕ
unfolding header_len
payload h raw = if leb (length raw) (header_len h) then [] else drop (header_len h) raw

-- A header whose fields fit their widths on the wire, with IPv4 addresses of four bytes.
pub record IsValid (h : Header) : Type 0 where
  pub version_four : h.version ≡ 4
  pub ihl_low : 5 ≤ h.ihl
  pub ihl_high : h.ihl < 16
  pub tos_fits : IsByte h.tos
  pub total_len_fits : h.total_len < 65536
  pub total_len_covers : h.ihl * 4 ≤ h.total_len
  pub id_fits : h.id < 65536
  pub flags_fit : h.flags < 8
  pub frag_offset_fits : h.frag_offset < 8192
  pub ttl_fits : IsByte h.ttl
  pub protocol_fits : IsByte h.protocol
  pub checksum_fits : h.checksum < 65536
  pub src_four : length h.src ≡ 4
  pub dst_four : length h.dst ≡ 4
  pub options_length : 20 + length h.options ≡ h.ihl * 4
