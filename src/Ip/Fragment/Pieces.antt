-- ===== src/Ip/Fragment/Pieces.antt =====
-- The fragments that `Fragment` returns, against a specification of a fragmentation.
use gonet.Prelude.{
  ℕ, ◌+◌, ◌*◌, ◌/◌, ◌<◌, bit_or, ◌≡◌, refl, ap, ◌∙◌, Bool, true, false, List, ◌++◌, arith, ltb,
  if◌then◌else◌, ltb→lt, length, take, drop, length-append, take-append, drop-append, all_under,
  all_under_sound, ok, slice,
}
use gonet.Ip.Header.{Header, IsValid, parse_header, header_len, flag_mf}
use gonet.Ip.Header.Wire.{wire, length-wire}
use gonet.Ip.Header.Read.{parse_header-wire}
use gonet.Ip.Checksum.{verify_checksum}
use gonet.Ip.Summed.{HasBytes, summed, summed-IsValid, marshal_summed-wire, verify_checksum-summed}
use gonet.Ip.Fragment.{fragment_header, fragment_packet}

-- A fragment of a packet with this header: it carries a piece of the payload from `offset` on.
pub record IsFragmentOf (h : Header) (offset : ℕ) (piece : List ℕ) (is_last : Bool)
    (packet : List ℕ) (g : Header) : Type 0 where
  pub parses : parse_header packet ≡ ok g
  pub verifies : verify_checksum (take (h.ihl * 4) packet) ≡ true
  pub carries : drop (h.ihl * 4) packet ≡ piece
  pub total_len : g.total_len ≡ length packet
  pub frag_offset : g.frag_offset ≡ h.frag_offset + offset / 8
  pub flags : g.flags ≡ (if is_last then h.flags else bit_or h.flags flag_mf)
  pub version : g.version ≡ h.version
  pub ihl : g.ihl ≡ h.ihl
  pub id : g.id ≡ h.id
  pub protocol : g.protocol ≡ h.protocol
  pub tos : g.tos ≡ h.tos
  pub ttl : g.ttl ≡ h.ttl
  pub src : g.src ≡ h.src
  pub dst : g.dst ≡ h.dst
  pub options : g.options ≡ h.options

more_table : all_under 8 (λ x. ltb (bit_or x 1) 8) ≡ true
unfolding all_under
more_table = refl

more_flag : (f : ℕ) → f < 8 → bit_or f 1 < 8
more_flag f lt = ltb→lt (bit_or f 1) 8 (all_under_sound 8 (λ x. ltb (bit_or x 1) 8) f more_table lt)

module _ (h : Header) (v : IsValid h) (bytes : HasBytes h) where
  abbrev part : ℕ → ℕ → Bool → Header
  unfolding fragment_header
  part offset len is_last = fragment_header h offset len is_last

  part-IsValid :
      (offset len : ℕ) (is_last : Bool)
      → h.frag_offset + offset / 8 < 8192
      → h.ihl * 4 + len < 65536
      → IsValid (part offset len is_last)
  unfolding fragment_header header_len
  part-IsValid offset len is_last o l = record {
    version_four = v.version_four;
    ihl_low = v.ihl_low;
    ihl_high = v.ihl_high;
    tos_fits = v.tos_fits;
    total_len_fits = omega arith;
    total_len_covers = omega arith;
    id_fits = v.id_fits;
    flags_fit = flags is_last;
    frag_offset_fits = omega arith;
    ttl_fits = v.ttl_fits;
    protocol_fits = v.protocol_fits;
    checksum_fits = v.checksum_fits;
    src_four = v.src_four;
    dst_four = v.dst_four;
    options_length = v.options_length;
  }
    where
      flags : (b : Bool) → (if b then h.flags else bit_or h.flags flag_mf) < 8
      flags true = v.flags_fit
      flags false = more_flag h.flags v.flags_fit

  pub fragment_packet-IsFragmentOf :
      (all : List ℕ) (offset len : ℕ) (is_last : Bool)
      → h.frag_offset + offset / 8 < 8192
      → h.ihl * 4 + len < 65536
      → length (slice all offset (offset + len)) ≡ len
      → (packet : List ℕ) × (g : Header) × (fragment_packet h all offset len is_last ≡ ok packet)
        × IsFragmentOf h offset (slice all offset (offset + len)) is_last packet g
        × (length packet ≡ h.ihl * 4 + len)
  unfolding fragment_packet fragment_header header_len
  fragment_packet-IsFragmentOf all offset len is_last o l exact = (
    wire (summed (part offset len is_last)) ++ piece,
    summed (part offset len is_last),
    rw (marshal_summed-wire (part offset len is_last) good),
    record {
      parses =
          parse_header-wire (summed (part offset len is_last)) piece
            (summed-IsValid (part offset len is_last) good);
      verifies =
          ap verify_checksum
            (take-append (h.ihl * 4) (wire (summed (part offset len is_last))) piece front)
          ∙ verify_checksum-summed (part offset len is_last) good bytes;
      carries = drop-append (h.ihl * 4) (wire (summed (part offset len is_last))) piece front;
      total_len = omega (arith, whole);
      frag_offset = omega arith;
      flags = refl;
      version = refl;
      ihl = refl;
      id = refl;
      protocol = refl;
      tos = refl;
      ttl = refl;
      src = refl;
      dst = refl;
      options = refl;
    },
    whole,
  )
    where
      piece : List ℕ
      piece = slice all offset (offset + len)

      good : IsValid (part offset len is_last)
      good = part-IsValid offset len is_last o l

      front : length (wire (summed (part offset len is_last))) ≡ h.ihl * 4
      front =
          length-wire (summed (part offset len is_last))
            (summed-IsValid (part offset len is_last) good)

      whole : length (wire (summed (part offset len is_last)) ++ piece) ≡ h.ihl * 4 + len
      whole =
          omega (arith, length-append (wire (summed (part offset len is_last))) piece, front, exact)
