-- ===== src/Ip/Parser.antt =====
-- internal/ip/parser.go: `Parse`, `ParseDebug` and `Summary`. The decoders of the gopacket library
-- are arguments, and of its layers the model has the fields that the source reads. `net.IP.String`
-- and `%d` are arguments of `Summary`; text is a list of bytes.
pub mod Layers
pub mod Words
mod Runs
use gonet.Prelude.{
  ℕ, Bool, Option, none, some, List, [], ◌∷◌, ◌++◌, ◌==◌, if◌then◌else◌, Result, ok, err, panic,
  ◌>>=◌, length, u8,
}
use gonet.Ip.Errors.{Error}
use gonet.Ip.Header.{Header, parse_header, payload, proto_tcp, proto_udp, proto_icmp}

-- The fields of `layers.TCP` that are read.
pub record TcpLayer : Type 0 where
  pub src_port : ℕ
  pub dst_port : ℕ
  pub seq : ℕ
  pub syn : Bool
  pub ack : Bool
  pub fin : Bool
  pub rst : Bool
  pub psh : Bool
  pub urg : Bool
  pub segment : List ℕ

-- Those of `layers.UDP`.
pub record UdpLayer : Type 0 where
  pub src_port : ℕ
  pub dst_port : ℕ
  pub len : ℕ

-- `TypeCode` of `layers.ICMPv4`.
pub record IcmpLayer : Type 0 where
  pub kind : ℕ
  pub code : ℕ

-- `DecodeFromBytes` of the three layers; `none` is its error.
pub record Decoders : Type 0 where
  pub tcp : List ℕ → Option TcpLayer
  pub udp : List ℕ → Option UdpLayer
  pub icmp : List ℕ → Option IcmpLayer

pub record ParsedPacket : Type 0 where
  pub ip_header : Option Header
  pub protocol : ℕ
  pub src_ip : List ℕ
  pub dst_ip : List ℕ
  pub content : List ℕ
  pub tcp_layer : Option TcpLayer
  pub udp_layer : Option UdpLayer
  pub icmp_layer : Option IcmpLayer

-- The packet that `Parse` starts from; `Payload` returns nil for an empty one.
unfoldable pub bare : Header → List ℕ → ParsedPacket
bare h raw = record {
  ip_header = some h;
  protocol = h.protocol;
  src_ip = h.src;
  dst_ip = h.dst;
  content = payload h raw;
  tcp_layer = none;
  udp_layer = none;
  icmp_layer = none;
}

-- The switch over the protocol.
unfoldable pub decode_layer : Decoders → ParsedPacket → ParsedPacket
decode_layer dec p =
    if p.protocol == proto_tcp
    then record p { tcp_layer = dec.tcp p.content }
    else if p.protocol == proto_udp
    then record p { udp_layer = dec.udp p.content }
    else if p.protocol == proto_icmp
    then record p { icmp_layer = dec.icmp p.content }
    else p

-- `if p.Payload != nil`
unfoldable pub with_layer : Decoders → ParsedPacket → List ℕ → ParsedPacket
unfolding decode_layer
with_layer dec p [] = p
with_layer dec p (b ∷ bs) = decode_layer dec p

unfoldable pub parse : Decoders → List ℕ → Result Error ParsedPacket
unfolding bare with_layer
parse dec raw = parse_header raw >>= λ h. ok (with_layer dec (bare h raw) (bare h raw).content)

-- The IPv4 layer of gopacket.
pub record Ipv4Layer : Type 0 where
  pub protocol : ℕ
  pub src_ip : List ℕ
  pub dst_ip : List ℕ
  pub content : List ℕ

-- A packet of gopacket, with its layers.
pub record Decoded (E : Type 0) : Type 0 where
  pub error_layer : Option E
  pub ipv4 : Option Ipv4Layer
  pub tcp_layer : Option TcpLayer
  pub udp_layer : Option UdpLayer
  pub icmp_layer : Option IcmpLayer

pub data DebugError (E : Type 0) : Type 0 where
  decode_failed : E → DebugError E
  not_ipv4 : DebugError E

module _ {E : Type 0} where
  -- `if h, err := ParseHeader(raw); err == nil`
  unfoldable pub header_if : Result Error Header → Result (DebugError E) (Option Header)
  header_if (ok h) = ok (some h)
  header_if (err e) = ok none
  header_if panic = panic

  unfoldable pub debug_layers :
      List ℕ → Decoded E → Option Ipv4Layer → Result (DebugError E) ParsedPacket
  unfolding header_if
  debug_layers raw decoded none = err not_ipv4
  debug_layers raw decoded (some ip) = header_if (parse_header raw) >>= λ header. ok (record {
    ip_header = header;
    protocol = u8 ip.protocol;
    src_ip = ip.src_ip;
    dst_ip = ip.dst_ip;
    content = ip.content;
    tcp_layer = decoded.tcp_layer;
    udp_layer = decoded.udp_layer;
    icmp_layer = decoded.icmp_layer;
  })

  unfoldable pub debug_packet : List ℕ → Decoded E → Option E → Result (DebugError E) ParsedPacket
  unfolding debug_layers
  debug_packet raw decoded (some e) = err (decode_failed e)
  debug_packet raw decoded none = debug_layers raw decoded decoded.ipv4

  unfoldable pub parse_debug : (List ℕ → Decoded E) → List ℕ → Result (DebugError E) ParsedPacket
  unfolding debug_packet
  parse_debug new_packet raw = debug_packet raw (new_packet raw) (new_packet raw).error_layer

-- `flags = append(flags, …)` under its test.
unfoldable pub flag_if : Bool → List ℕ → List (List ℕ)
flag_if c word = if c then word ∷ [] else []

-- The words of the flags that are set.
unfoldable pub flag_words : TcpLayer → List (List ℕ)
unfolding flag_if
flag_words t =
    flag_if t.syn (83 ∷ 89 ∷ 78 ∷ [])
    ++ (flag_if t.ack (65 ∷ 67 ∷ 75 ∷ [])
        ++ (flag_if t.fin (70 ∷ 73 ∷ 78 ∷ [])
            ++ (flag_if t.rst (82 ∷ 83 ∷ 84 ∷ [])
                ++ (flag_if t.psh (80 ∷ 83 ∷ 72 ∷ []) ++ flag_if t.urg (85 ∷ 82 ∷ 71 ∷ [])))))

-- `strings.Join(flags, ",")`
unfoldable pub join : List (List ℕ) → List ℕ
join [] = []
join (word ∷ []) = word
join (word ∷ next ∷ words) = word ++ (44 ∷ join (next ∷ words))

-- `net.IP.String`, and `%d`.
pub record Printer : Type 0 where
  pub ip_string : List ℕ → List ℕ
  pub decimal : ℕ → List ℕ

-- The last two `Sprintf` of `Summary`, by the text of `info`.
unfoldable pub summary_line : List ℕ → List ℕ → List ℕ → List ℕ → List ℕ
summary_line proto src dst [] = proto ++ (32 ∷ (src ++ (32 ∷ 45 ∷ 62 ∷ 32 ∷ dst)))
summary_line proto src dst (b ∷ info) =
    proto ++ (32 ∷ (src ++ (32 ∷ 45 ∷ 62 ∷ 32 ∷ (dst ++ (32 ∷ b ∷ info)))))

module _ (print : Printer) where
  -- "%s:%d"
  unfoldable pub with_port : List ℕ → ℕ → List ℕ
  with_port ip port = print.ip_string ip ++ (58 ∷ print.decimal port)

  -- "[%s] seq=%d len=%d"
  unfoldable pub tcp_info : TcpLayer → List ℕ
  unfolding join flag_words
  tcp_info t =
      91
      ∷ (join (flag_words t)
          ++ (93
              ∷ 32
              ∷ 115
              ∷ 101
              ∷ 113
              ∷ 61
              ∷ (print.decimal t.seq
                  ++ (32 ∷ 108 ∷ 101 ∷ 110 ∷ 61 ∷ print.decimal (length t.segment)))))

  -- "type=%d code=%d"
  unfoldable pub icmp_info : IcmpLayer → List ℕ
  icmp_info m =
      116
      ∷ 121
      ∷ 112
      ∷ 101
      ∷ 61
      ∷ (print.decimal m.kind ++ (32 ∷ 99 ∷ 111 ∷ 100 ∷ 101 ∷ 61 ∷ print.decimal m.code))

  -- "len=%d"
  unfoldable pub len_info : ℕ → List ℕ
  len_info n = 108 ∷ 101 ∷ 110 ∷ 61 ∷ print.decimal n

  -- The switch of `Summary`.
  unfoldable pub summary_of :
      ParsedPacket → Option TcpLayer → Option UdpLayer → Option IcmpLayer → List ℕ
  unfolding summary_line with_port tcp_info icmp_info len_info
  summary_of p (some t) udp icmp =
      summary_line (84 ∷ 67 ∷ 80 ∷ []) (with_port p.src_ip t.src_port)
        (with_port p.dst_ip t.dst_port) (tcp_info t)
  summary_of p none (some u) icmp =
      summary_line (85 ∷ 68 ∷ 80 ∷ []) (with_port p.src_ip u.src_port)
        (with_port p.dst_ip u.dst_port) (len_info u.len)
  summary_of p none none (some m) =
      summary_line (73 ∷ 67 ∷ 77 ∷ 80 ∷ []) (print.ip_string p.src_ip) (print.ip_string p.dst_ip)
        (icmp_info m)
  summary_of p none none none =
      summary_line (80 ∷ 82 ∷ 79 ∷ 84 ∷ 79 ∷ 45 ∷ print.decimal p.protocol)
        (print.ip_string p.src_ip) (print.ip_string p.dst_ip) (len_info (length p.content))

  unfoldable pub summary : ParsedPacket → List ℕ
  unfolding summary_of
  summary p = summary_of p p.tcp_layer p.udp_layer p.icmp_layer
