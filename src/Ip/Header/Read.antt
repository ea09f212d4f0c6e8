-- ===== src/Ip/Header/Read.antt =====
-- `ParseHeader` on the wire format: it accepts it, and reads every field back.
use mathlib.Core.List.{append_assoc}
use gonet.Prelude.{
  ℕ, ◌+◌, ◌-◌, ◌*◌, ◌/◌, ◌%◌, ◌^◌, ◌≤◌, ◌<◌, ◌≡◌, sym, ap, ◌∙◌, bit_and, List, [], ◌∷◌, ◌++◌, ok,
  byte_at, uint16_at, length, take, drop, length-append, take-append, drop-append, drop-drop,
  lt→ltb, le→ltb_false, ltb, if◌then◌else◌, bit_and-ones, arith,
}
use gonet.Ip.Header.{Header, IsValid, parse_header, read_fields}
use gonet.Ip.Header.Wire.{wire, length-wire}

module _ (src dst options rest : List ℕ) (s : length src ≡ 4) (d : length dst ≡ 4) where
  abbrev after_twelve : List ℕ
  after_twelve = (src ++ (dst ++ options)) ++ rest

  take_src : take 4 after_twelve ≡ src
  take_src =
      ap (take 4) (append_assoc src (dst ++ options) rest)
      ∙ take-append 4 src ((dst ++ options) ++ rest) s

  drop_src : drop 4 after_twelve ≡ dst ++ (options ++ rest)
  drop_src =
      ap (drop 4) (append_assoc src (dst ++ options) rest)
      ∙ drop-append 4 src ((dst ++ options) ++ rest) s
      ∙ append_assoc dst options rest

  take_dst : take 4 (drop 4 after_twelve) ≡ dst
  take_dst = ap (take 4) drop_src ∙ take-append 4 dst (options ++ rest) d

  drop_eight : drop 8 after_twelve ≡ options ++ rest
  drop_eight =
      sym (drop-drop 4 4 after_twelve)
      ∙ ap (drop 4) drop_src
      ∙ drop-append 4 dst (options ++ rest) d

  -- The options are read back where there are any.
  read_options :
      (n : ℕ)
      → 20 + length options ≡ n
      → (if ltb 20 n then take (n - 20) (drop 8 after_twelve) else []) ≡ options
  read_options n h = rw drop_eight (by_length options h)
    where
      by_length :
          (o : List ℕ)
          → 20 + length o ≡ n
          → (if ltb 20 n then take (n - 20) (o ++ rest) else []) ≡ o
      by_length [] k = rw (le→ltb_false 20 n (omega (arith, k)))
      by_length (b ∷ o) k =
          rw (lt→ltb 20 n (omega (arith, k))) (take-append (n - 20) (b ∷ o) rest (omega (arith, k)))

split_flags :
    (f o : ℕ)
    → f < 8
    → o < 8192
    → let w = (f * 8192 + o) / 256 % 256 * 256 + (f * 8192 + o) % 256 in
      (w / 2 ^ 13 % 2 ^ 8 ≡ f) × (bit_and w 0x1fff ≡ o)
split_flags f o hf ho = (omega arith, rw (bit_and-ones 13) (omega arith))

read_fields-wire :
    (h : Header) (rest : List ℕ) → IsValid h → read_fields (wire h ++ rest) h.version h.ihl ≡ h
unfolding read_fields
read_fields-wire h rest v = λ i. record {
  version = h.version;
  ihl = h.ihl;
  tos = h.tos;
  total_len = joins h.total_len v.total_len_fits i;
  id = joins h.id v.id_fits i;
  flags = (split_flags h.flags h.frag_offset v.flags_fit v.frag_offset_fits).0 i;
  frag_offset = (split_flags h.flags h.frag_offset v.flags_fit v.frag_offset_fits).1 i;
  ttl = h.ttl;
  protocol = h.protocol;
  checksum = joins h.checksum v.checksum_fits i;
  src = take_src h.src h.dst h.options rest v.src_four v.dst_four i;
  dst = take_dst h.src h.dst h.options rest v.src_four v.dst_four i;
  options =
      read_options h.src h.dst h.options rest v.src_four v.dst_four (h.ihl * 4) v.options_length i;
}
  where
    joins : (x : ℕ) → x < 65536 → x / 256 % 256 * 256 + x % 256 ≡ x
    joins x fits = omega arith

-- The checks of `ParseHeader` that a packet has to pass.
pub parse_header_accepts :
    (raw : List ℕ) (ihl : ℕ)
    → 20 ≤ length raw
    → byte_at raw 0 / 2 ^ 4 ≡ 4
    → bit_and (byte_at raw 0) 0x0f ≡ ihl
    → ihl * 4 ≤ length raw
    → ihl * 4 ≤ uint16_at raw 2
    → parse_header raw ≡ ok (read_fields raw 4 ihl)
unfolding parse_header
parse_header_accepts raw ihl long four low fits covers = rw (
  low,
  four,
  le→ltb_false (length raw) 20 long,
  le→ltb_false (length raw) (ihl * 4) fits,
  le→ltb_false (uint16_at raw 2) (ihl * 4) covers,
)

-- `ParseHeader` reads a header back from its wire format, whatever bytes follow.
pub parse_header-wire :
    (h : Header) (rest : List ℕ) → IsValid h → parse_header (wire h ++ rest) ≡ ok h
parse_header-wire h rest v =
    parse_header_accepts (wire h ++ rest) h.ihl (omega (arith, long))
      (omega (arith, v.version_four))
      (bit_and-ones 4 (h.version * 16 + h.ihl) ∙ omega (arith, v.ihl_high)) (omega (arith, long))
      (omega (arith, v.total_len_fits, v.total_len_covers))
    ∙ ap ok (rw (sym v.version_four) (read_fields-wire h rest v))
  where
    long : h.ihl * 4 ≤ length (wire h ++ rest)
    long = omega (arith, length-append (wire h) rest, length-wire h v)
