-- ===== src/Ip/Fragment/Example.antt =====
-- A packet of 20 bytes behind its header, and its three fragments for an MTU of 28.
use gonet.Prelude.{ℕ, ◌≡◌, refl, List, [], ◌∷◌, ok}
use gonet.Ip.Header.{Header, parse_header, read_fields, marshal, payload, put_ip, put_options}
use gonet.Prelude.Net.{to4}
use gonet.Ip.Checksum.{checksum, fold_sum, add_words}
use gonet.Ip.Header.Wire.{wire}
use gonet.Ip.Summed.{marshal_summed}
use gonet.Ip.Fragment.{fragment, fragment_header, fragment_packet, fragment_loop, split_packet}

abbrev pub packet_header : Header
packet_header = record {
  version = 4;
  ihl = 5;
  tos = 0;
  total_len = 40;
  id = 7;
  flags = 0;
  frag_offset = 0;
  ttl = 64;
  protocol = 17;
  checksum = 26300;
  src = 10 ∷ 0 ∷ 0 ∷ 1 ∷ [];
  dst = 10 ∷ 0 ∷ 0 ∷ 2 ∷ [];
  options = [];
}

abbrev pub packet : List ℕ
packet =
    69 ∷ 0 ∷ 0 ∷ 40 ∷ 0 ∷ 7 ∷ 0 ∷ 0 ∷ 64 ∷ 17 ∷ 102 ∷ 188 ∷ 10 ∷ 0 ∷ 0 ∷ 1 ∷ 10 ∷ 0 ∷ 0 ∷ 2 ∷ 1 ∷ 2
    ∷ 3 ∷ 4 ∷ 5 ∷ 6 ∷ 7 ∷ 8 ∷ 9 ∷ 10 ∷ 11 ∷ 12 ∷ 13 ∷ 14 ∷ 15 ∷ 16 ∷ 17 ∷ 18 ∷ 19 ∷ 20 ∷ []

abbrev pub fragment_one : List ℕ
fragment_one =
    69 ∷ 0 ∷ 0 ∷ 28 ∷ 0 ∷ 7 ∷ 32 ∷ 0 ∷ 64 ∷ 17 ∷ 70 ∷ 200 ∷ 10 ∷ 0 ∷ 0 ∷ 1 ∷ 10 ∷ 0 ∷ 0 ∷ 2 ∷ 1 ∷ 2
    ∷ 3 ∷ 4 ∷ 5 ∷ 6 ∷ 7 ∷ 8 ∷ []

abbrev pub fragment_two : List ℕ
fragment_two =
    69 ∷ 0 ∷ 0 ∷ 28 ∷ 0 ∷ 7 ∷ 32 ∷ 1 ∷ 64 ∷ 17 ∷ 70 ∷ 199 ∷ 10 ∷ 0 ∷ 0 ∷ 1 ∷ 10 ∷ 0 ∷ 0 ∷ 2 ∷ 9 ∷ 10
    ∷ 11 ∷ 12 ∷ 13 ∷ 14 ∷ 15 ∷ 16 ∷ []

abbrev pub fragment_three : List ℕ
fragment_three =
    69 ∷ 0 ∷ 0 ∷ 24 ∷ 0 ∷ 7 ∷ 0 ∷ 2 ∷ 64 ∷ 17 ∷ 102 ∷ 202 ∷ 10 ∷ 0 ∷ 0 ∷ 1 ∷ 10 ∷ 0 ∷ 0 ∷ 2 ∷ 17
    ∷ 18 ∷ 19 ∷ 20 ∷ []

pub parsed : parse_header packet ≡ ok packet_header
unfolding parse_header read_fields
parsed = refl

pub sum_run : packet_header.checksum ≡ checksum (wire (record packet_header { checksum = 0 }))
unfolding checksum fold_sum add_words
sum_run = refl

pub fragment_run : fragment packet 28 ≡ ok (fragment_one ∷ fragment_two ∷ fragment_three ∷ [])
unfolding fragment parse_header split_packet read_fields fragment_loop payload fragment_packet
    marshal_summed marshal fragment_header put_ip to4 put_options checksum fold_sum add_words
fragment_run = refl
