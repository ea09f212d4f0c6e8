-- ===== src/Ip/Header/Runs.antt =====
-- Runs of the header code, and its theorems at concrete headers.
use gonet.Prelude.{ℕ, ◌≡◌, refl, List, [], ◌∷◌, ◌++◌, arith, replicate, ok, err, panic, ◌>>=◌}
use gonet.Prelude.Net.{to4}
use gonet.Ip.Errors.{too_short}
use gonet.Ip.Header.{Header, marshal, put_ip, put_options, parse_header, read_fields, payload}
use gonet.Ip.Header.RoundTrip.{parse_header-marshal, marshal-parse_header, parse_header_short_ihl}

abbrev router_alert : Header
router_alert = record {
  version = 4;
  ihl = 6;
  tos = 0;
  total_len = 28;
  id = 0x1234;
  flags = 2;
  frag_offset = 0;
  ttl = 64;
  protocol = 1;
  checksum = 0xabcd;
  src = 10 ∷ 0 ∷ 0 ∷ 1 ∷ [];
  dst = 10 ∷ 0 ∷ 0 ∷ 2 ∷ [];
  options = 0x94 ∷ 4 ∷ 0 ∷ 0 ∷ [];
}

abbrev router_alert_bytes : List ℕ
router_alert_bytes =
    0x46 ∷ 0 ∷ 0 ∷ 28 ∷ 0x12 ∷ 0x34 ∷ 0x40 ∷ 0 ∷ 64 ∷ 1 ∷ 0xab ∷ 0xcd ∷ 10 ∷ 0 ∷ 0 ∷ 1 ∷ 10 ∷ 0 ∷ 0
    ∷ 2 ∷ 0x94 ∷ 4 ∷ 0 ∷ 0 ∷ []

marshal_run : marshal router_alert ≡ ok router_alert_bytes
unfolding marshal put_ip put_options to4
marshal_run = refl

parse_run : parse_header (router_alert_bytes ++ (1 ∷ 2 ∷ 3 ∷ 4 ∷ [])) ≡ ok router_alert
unfolding parse_header read_fields
parse_run = refl

parse_short_run : parse_header (0x45 ∷ []) ≡ err too_short
unfolding parse_header
parse_short_run = refl

payload_run : payload router_alert (router_alert_bytes ++ (1 ∷ 2 ∷ [])) ≡ 1 ∷ 2 ∷ []
unfolding payload
payload_run = refl

parse_header-marshal_example :
    (marshal router_alert >>= λ bytes. parse_header (bytes ++ (7 ∷ []))) ≡ ok router_alert
parse_header-marshal_example = parse_header-marshal router_alert (7 ∷ []) (omega arith)

parsed : parse_header router_alert_bytes ≡ ok router_alert
unfolding parse_header read_fields
parsed = refl

marshal-parse_header_example : marshal router_alert ≡ ok router_alert_bytes
marshal-parse_header_example =
    marshal-parse_header router_alert_bytes router_alert (omega arith) parsed (omega arith)

-- Version 4 with an IHL of 0: twenty bytes from anyone.
abbrev no_header : List ℕ
no_header = 0x40 ∷ replicate 19 0

parse_header_short_ihl_example :
    (h : Header) × (parse_header no_header ≡ ok h) × (marshal h ≡ panic)
parse_header_short_ihl_example = parse_header_short_ihl no_header (omega arith) (omega arith)
