-- ===== src/Ip/Parser/Runs.antt =====
-- Runs of the parser, and its theorems at a concrete packet.
use gonet.Prelude.{
  ℕ, ◌≡◌, refl, true, false, none, some, List, [], ◌∷◌, ◌++◌, map, arith, ltb, if◌then◌else◌,
  length, ok, byte_at,
}
use gonet.Prelude.Net.{v4_prefix}
use gonet.Ip.Header.{Header, parse_header, read_fields, payload}
use gonet.Ip.Dispatcher.{
  Dispatcher, ProtocolHandler, new_dispatcher, register, dispatch, hand_over, add_received,
  add_dispatched,
}
use gonet.Ip.Parser.{
  TcpLayer, Decoders, ParsedPacket, Printer, bare, decode_layer, with_layer, parse, summary,
}
use gonet.Ip.Parser.Layers.{HasLayers, parse-dispatch}
use gonet.Ip.Parser.Words.{bracketed, flags_in, IsPlain, IsPlainPrinter, summary-flags}

abbrev Inbox : Type 0
Inbox = List (List ℕ)

abbrev collector : ProtocolHandler Inbox ℕ
collector = record {
  protocol = 1;
  handle_ip_payload = λ src dst bytes inbox. (bytes ∷ inbox, none);
}

abbrev listening : Dispatcher Inbox ℕ
unfolding register new_dispatcher
listening = register new_dispatcher collector

-- An ICMP packet with four bytes behind its total length.
abbrev padded : List ℕ
padded =
    0x45 ∷ 0 ∷ 0 ∷ 22 ∷ 0 ∷ 1 ∷ 0 ∷ 0 ∷ 64 ∷ 1 ∷ 0 ∷ 0 ∷ 10 ∷ 0 ∷ 0 ∷ 1 ∷ 10 ∷ 0 ∷ 0 ∷ 2 ∷ 8 ∷ 0 ∷ 0
    ∷ 0 ∷ 0 ∷ 0 ∷ []

abbrev padded_header : Header
padded_header = record {
  version = 4;
  ihl = 5;
  tos = 0;
  total_len = 22;
  id = 1;
  flags = 0;
  frag_offset = 0;
  ttl = 64;
  protocol = 1;
  checksum = 0;
  src = 10 ∷ 0 ∷ 0 ∷ 1 ∷ [];
  dst = 10 ∷ 0 ∷ 0 ∷ 2 ∷ [];
  options = [];
}

-- Decoders by length and first bytes.
abbrev decoders : Decoders
decoders = record {
  tcp = λ bytes. none;
  udp = λ bytes. none;
  icmp = λ bytes.
      if ltb (length bytes) 4
      then none
      else some (record { kind = byte_at bytes 0; code = byte_at bytes 1 });
}

parses : parse_header padded ≡ ok padded_header
unfolding parse_header read_fields
parses = refl

-- The decoder accepts the six bytes, of which the packet has two.
parse_run :
    parse decoders padded
    ≡ ok (record (bare padded_header padded) { icmp_layer = some (record { kind = 8; code = 0 }) })
unfolding parse parse_header read_fields bare with_layer decode_layer payload
parse_run = refl

parse-dispatch_example :
    (p : ParsedPacket) × (seen : List ℕ) × (parse decoders padded ≡ ok p)
    × HasLayers decoders p
    × (p.content ≡ seen ++ (0 ∷ 0 ∷ 0 ∷ 0 ∷ []))
    × (dispatch listening padded []
        ≡ hand_over
            (add_dispatched (add_received listening))
            (collector.handle_ip_payload (v4_prefix ++ p.src_ip) (v4_prefix ++ p.dst_ip) seen []))
unfolding register new_dispatcher
parse-dispatch_example =
    parse-dispatch decoders listening padded [] padded_header collector (omega arith) parses
      (omega arith) (omega arith) (omega arith) refl

-- A printer that prints every byte as a digit.
abbrev digits : Printer
digits = record { ip_string = λ ip. map (λ b. 48) ip; decimal = λ n. 48 ∷ [] }

map-IsPlain : (ip : List ℕ) → IsPlain (map (λ b. 48) ip)
map-IsPlain [] = tt
map-IsPlain (b ∷ ip) = ((λ e. omega (arith, e)), map-IsPlain ip)

digits-IsPlain : IsPlainPrinter digits
digits-IsPlain = record {
  ip_plain = map-IsPlain;
  decimal_plain = λ n. ((λ e. omega (arith, e)), tt);
}

abbrev syn_ack : TcpLayer
syn_ack = record {
  src_port = 80;
  dst_port = 1024;
  seq = 7;
  syn = true;
  ack = true;
  fin = false;
  rst = false;
  psh = false;
  urg = false;
  segment = [];
}

abbrev answered : ParsedPacket
answered = record {
  ip_header = none;
  protocol = 6;
  src_ip = 10 ∷ 0 ∷ 0 ∷ 1 ∷ [];
  dst_ip = 10 ∷ 0 ∷ 0 ∷ 2 ∷ [];
  content = [];
  tcp_layer = some syn_ack;
  udp_layer = none;
  icmp_layer = none;
}

summary-flags_example :
    flags_in (bracketed (summary digits answered)) ≡ (true, true, false, false, false, false)
summary-flags_example = summary-flags digits answered syn_ack digits-IsPlain refl
