-- ===== src/Tcp/Header/RoundTrip.antt =====
-- `ParseHeader` reads back the headers that `Marshal` writes.
use mathlib.Core.List.{append_assoc, append-nil}
use gonet.Prelude.{
  ℕ, zero, suc, ◌+◌, ◌-◌, ◌*◌, ◌/◌, ◌%◌, ◌^◌, ◌≤◌, ◌<◌, ◌≡◌, refl, sym, ap, ◌∙◌, inl, inr, List, [],
  ◌∷◌, ◌++◌, arith, ltb, ltb_false→le, le→ltb_false, eq→==, ne→==_false, Bool-cases, length,
  replicate, All, length-append, length-replicate, take-append, u8, ok, byte_at, slice,
}
use gonet.Tcp.Header.{
  Header, TcpOption, parse_header, parse_options, read_fields, next_option, stop, encode_options,
  pad_loop, padded_options, layout, marshal,
}
use gonet.Tcp.Header.Options.{IsOption, length-encode_options, parse_options-encode}

-- The fields fit their widths, and the options fit into the 40 bytes that the data offset can span.
pub record IsValid (h : Header) : Type 0 where
  pub src_port_fits : h.src_port < 65536
  pub dst_port_fits : h.dst_port < 65536
  pub seq_num_fits : h.seq_num < 2 ^ 32
  pub ack_num_fits : h.ack_num < 2 ^ 32
  pub flags_fit : h.flags < 256
  pub window_fits : h.window < 65536
  pub checksum_fits : h.checksum < 65536
  pub urgent_fits : h.urgent < 65536
  pub options_wire : All IsOption h.options
  pub options_fit : length (encode_options h.options) ≤ 40

-- How many end-of-list bytes fill up the last group of four.
abbrev pub pad_count : ℕ → ℕ
pad_count n = (4 - n % 4) % 4

pad_loop-replicate :
    (fuel k : ℕ) (bytes : List ℕ)
    → (length bytes + k) % 4 ≡ 0
    → k ≤ fuel
    → k < 4
    → pad_loop fuel bytes ≡ bytes ++ replicate k 0
unfolding pad_loop
pad_loop-replicate zero zero bytes m h lt = sym (append-nil bytes)
pad_loop-replicate zero (suc k) bytes m h lt = absurd (omega arith)
pad_loop-replicate (suc fuel) zero bytes m h lt =
    rw (eq→== ((20 + length bytes) % 4) 0 (omega arith)) (sym (append-nil bytes))
pad_loop-replicate (suc fuel) (suc k) bytes m h lt =
    rw (ne→==_false ((20 + length bytes) % 4) 0 (omega arith)) (
      pad_loop-replicate fuel k (bytes ++ (0 ∷ [])) (omega (arith, length-append bytes (0 ∷ [])))
        (omega arith) (omega arith)
      ∙ append_assoc bytes (0 ∷ []) (replicate k 0))

-- Three rounds of the padding loop fill the options up to a multiple of four bytes.
pub padded_options-eq :
    (h : Header)
    → padded_options h
      ≡ encode_options h.options ++ replicate (pad_count (length (encode_options h.options))) 0
unfolding padded_options
padded_options-eq h =
    pad_loop-replicate 3 (pad_count (length (encode_options h.options))) (encode_options h.options)
      (omega arith) (omega arith) (omega arith)

pub length-padded_options :
    (h : Header)
    → length (padded_options h)
      ≡ length (encode_options h.options) + pad_count (length (encode_options h.options))
length-padded_options h =
    ap length (padded_options-eq h)
    ∙ length-append (encode_options h.options)
        (replicate (pad_count (length (encode_options h.options))) 0)
    ∙ ap (λ k. length (encode_options h.options) + k)
        (length-replicate (pad_count (length (encode_options h.options))) 0)

zeros-stop : (k : ℕ) → next_option (replicate k 0) ≡ stop
unfolding next_option
zeros-stop zero = refl
zeros-stop (suc k) = refl

parse_padded :
    (h : Header) → All IsOption h.options → parse_options (padded_options h) ≡ ok h.options
parse_padded h v = rw padded_options-eq (
    parse_options-encode h.options (replicate (pad_count (length (encode_options h.options))) 0) v
      (zeros-stop (pad_count (length (encode_options h.options)))))

-- Behind the checks, `ParseHeader` reads the options of the bytes that the data offset spans.
pub parse_header_accepts :
    (raw options_bytes : List ℕ) (options : List TcpOption) (offset : ℕ)
    → byte_at raw 12 / 2 ^ 4 ≡ offset
    → 5 ≤ offset
    → offset * 4 ≤ length raw
    → slice raw 20 (offset * 4) ≡ options_bytes
    → parse_options options_bytes ≡ ok options
    → (offset ≡ 5 → options ≡ [])
    → parse_header raw ≡ ok (read_fields raw options)
unfolding parse_header
parse_header_accepts raw options_bytes options offset nibble low fits here parsed empty =
    rw
      (
        nibble,
        le→ltb_false (length raw) 20 (omega arith),
        le→ltb_false offset 5 low,
        le→ltb_false (length raw) (offset * 4) fits,
      )
      (elim (Bool-cases (ltb 20 (offset * 4))) [
        | inl more ↦ rw (more, here, parsed)
        | inr plain ↦ rw plain (
            ap (λ o. ok (read_fields raw o))
              (sym (empty (omega (arith, low, ltb_false→le 20 (offset * 4) plain)))))
      ])

layout_read :
    (h : Header) (options_bytes payload : List ℕ) (v : IsValid h) (off : ℕ)
    → off < 16
    → read_fields (layout (record h { data_offset = off }) options_bytes ++ payload) h.options
      ≡ record h { data_offset = off }
unfolding read_fields layout
layout_read h options_bytes payload v off lt = λ i. record {
  src_port = two h.src_port v.src_port_fits i;
  dst_port = two h.dst_port v.dst_port_fits i;
  seq_num = four h.seq_num v.seq_num_fits i;
  ack_num = four h.ack_num v.ack_num_fits i;
  data_offset = nibble i;
  flags = h.flags;
  window = two h.window v.window_fits i;
  checksum = two h.checksum v.checksum_fits i;
  urgent = two h.urgent v.urgent_fits i;
  options = h.options;
}
  where
    two : (x : ℕ) → x < 65536 → x / 256 % 256 * 256 + x % 256 ≡ x
    two x fits = omega arith

    four :
        (x : ℕ)
        → x < 2 ^ 32
        → (x / 16777216 % 256 * 256 + x / 65536 % 256) * 65536 + (x / 256 % 256 * 256 + x % 256) ≡ x
    four x fits = omega arith

    nibble : off * 2 ^ 4 % 2 ^ 8 / 2 ^ 4 ≡ off
    nibble = omega arith

-- The data offset that `Marshal` computes, for options that fit.
pub offset_of :
    (h : Header)
    → IsValid h
    → (u8 (20 + length (padded_options h)) / 4 < 16)
      × (u8 (20 + length (padded_options h)) / 4 * 4 ≡ 20 + length (padded_options h))
offset_of h v = omega (arith, length-padded_options h, v.options_fit)

no_options : (opts : List TcpOption) → length opts ≤ 0 → opts ≡ []
no_options [] h = refl
no_options (opt ∷ opts) h = absurd (omega arith)

length-layout :
    (h : Header) (options_bytes : List ℕ)
    → length (layout h options_bytes) ≡ 20 + length options_bytes
unfolding layout
length-layout h options_bytes = omega arith

layout_options :
    (h : Header) (options_bytes payload : List ℕ) (n : ℕ)
    → length options_bytes ≡ n
    → slice (layout h options_bytes ++ payload) 20 (20 + n) ≡ options_bytes
unfolding layout
layout_options h options_bytes payload n e =
    take-append (20 + n - 20) options_bytes payload (omega arith)

-- A segment that starts with the bytes of `Marshal` is parsed to the header that `Marshal` leaves,
-- for a header whose fields fit and whose options are well formed and take at most 40 bytes.
pub tcp_parse_header-marshal :
    (h : Header) (payload : List ℕ)
    → IsValid h
    → parse_header ((marshal h).0 ++ payload) ≡ ok (marshal h).1
unfolding marshal
tcp_parse_header-marshal h payload v =
    parse_header_accepts raw (padded_options h) h.options off nibble (omega (arith, fits))
      (omega (arith, fits, long))
      (ap (slice raw 20) fits.1
        ∙ layout_options sent (padded_options h) payload (length (padded_options h)) refl)
      (parse_padded h v.options_wire)
      (λ five. no_options h.options (
        omega (
          arith,
          five,
          fits,
          length-padded_options h,
          length-encode_options h.options v.options_wire,
        )))
    ∙ ap ok (layout_read h (padded_options h) payload v off fits.0)
  where
    off : ℕ
    off = u8 (20 + length (padded_options h)) / 4

    fits : (off < 16) × (off * 4 ≡ 20 + length (padded_options h))
    fits = offset_of h v

    sent : Header
    sent = record h { data_offset = off }

    raw : List ℕ
    raw = layout sent (padded_options h) ++ payload

    nibble : byte_at raw 12 / 2 ^ 4 ≡ off
    nibble = unfold layout in omega (arith, fits)

    long : 20 + length (padded_options h) ≤ length raw
    long = omega (
      arith,
      length-append (layout sent (padded_options h)) payload,
      length-layout sent (padded_options h),
    )
