-- ===== src/Ip/Reassembly/Piece.antt =====
-- A fragment of a packet is an arrival of the piece of the payload that it carries.
use gonet.Prelude.{
  ℕ, ◌+◌, ◌*◌, ◌%◌, ◌<◌, bit_and, bit_or, ◌≡◌, refl, sym, ap, ◌∙◌, Bool, true, false, ◌&&◌, not,
  List, ◌++◌, arith, ◌==◌, length, length-append, u16, bit_and_not, all_under, all_under_sound, ok,
}
use mathlib.Core.Path.{subst}
use gonet.Prelude.Net.{to4}
use gonet.Ip.Header.{Header, IsValid, parse_header, read_fields, header_len, flag_mf}
use gonet.Ip.Header.Parse.{parse_header_checks}
use gonet.Ip.Fragment.Pieces.{IsFragmentOf}
use gonet.Ip.Reassembly.Group.{whole_header}
use gonet.Ip.Reassembly.{fragment_key, is_fragment, four_bytes}
use gonet.Ip.Reassembly.Parts.{IsPart}
use gonet.Ip.Reassembly.Arrival.{IsArrival}
use gonet.Ip.Reassembly.Sequence.{at}

pub parsed_at :
    (packet : List ℕ) (g : Header) → parse_header packet ≡ ok g → g.frag_offset ≡ at packet
unfolding read_fields
parsed_at packet g e = ap (λ (h : Header). h.frag_offset) (parse_header_checks packet g e).1

flag_table :
    all_under 8
      (λ f. not (bit_and (bit_or f 1) 1 == 0) && bit_and_not (bit_or f 1) 1 == bit_and_not f 1)
    ≡ true
unfolding all_under
flag_table = refl

pub with_mf :
    (f : ℕ)
    → f < 8
    → ((bit_and (bit_or f 1) 1 == 0) ≡ false) × (bit_and_not (bit_or f 1) 1 ≡ bit_and_not f 1)
with_mf f lt = ground (
  arith,
  all_under_sound 8
      (λ f. not (bit_and (bit_or f 1) 1 == 0) && bit_and_not (bit_or f 1) 1 == bit_and_not f 1) f
      flag_table lt,
)

module _ (h : Header) (v : IsValid h) (unfragmented : h.frag_offset ≡ 0)
    (no_more : bit_and h.flags flag_mf ≡ 0) (whole : List ℕ) (short : length whole < 65536) where
  module _ (offset : ℕ) (piece behind before packet : List ℕ) (g : Header) (is_last : Bool)
      (f : IsFragmentOf h offset piece is_last packet g)
      (inside : whole ≡ before ++ (piece ++ behind)) (starts : length before ≡ offset)
      (blocks : offset % 8 ≡ 0) (nonempty : 0 < length piece) where
    pub starts_at : at packet * 8 ≡ offset
    starts_at = omega (arith, parsed_at packet g f.parses, f.frag_offset, unfragmented, blocks)

    pub fits_whole : offset + length piece + length behind ≡ length whole
    fits_whole = omega (
      arith,
      ap (λ (bs : List ℕ). length bs) inside,
      length-append before (piece ++ behind),
      length-append piece behind,
      starts,
    )

    piece-part : IsPart (h.ihl * 4) whole (at packet) packet
    piece-part = record {
      header = g;
      before = before;
      behind = behind;
      parses = f.parses;
      header_skips = ap (λ n. n * 4) f.ihl;
      inside = inside ∙ ap (λ bs. before ++ (bs ++ behind)) (sym f.carries);
      starts = starts ∙ sym starts_at;
    }

    same_key : fragment_key g ≡ fragment_key h
    unfolding fragment_key
    same_key = λ i. record {
      src = four_bytes (to4 (f.src i));
      dst = four_bytes (to4 (f.dst i));
      id = f.id i;
      proto = f.protocol i;
    }

    same_whole :
        bit_and_not g.flags flag_mf ≡ bit_and_not h.flags flag_mf
        → record (whole_header g (length whole)) { checksum = 0 }
          ≡ record (whole_header h (length whole)) { checksum = 0 }
    unfolding whole_header header_len
    same_whole flags = λ i. record {
      version = f.version i;
      ihl = f.ihl i;
      tos = f.tos i;
      total_len = u16 (f.ihl i * 4 + length whole);
      id = f.id i;
      flags = flags i;
      frag_offset = 0;
      ttl = f.ttl i;
      protocol = f.protocol i;
      checksum = 0;
      src = f.src i;
      dst = f.dst i;
      options = f.options i;
    }

    pub piece-IsArrival :
        bit_and_not g.flags flag_mf ≡ bit_and_not h.flags flag_mf
        → is_fragment g ≡ true
        → (bit_and g.flags flag_mf == 0) ≡ (offset + length piece == length whole)
        → IsArrival h whole (at packet) packet
    unfolding piece-part
    piece-IsArrival flags fragmentary ends = record {
      part = piece-part;
      at_offset = parsed_at packet g f.parses;
      offset_fits = omega (arith, starts_at, fits_whole);
      keyed = same_key;
      fragmentary = fragmentary;
      nonempty = subst (λ bs. 0 < length bs) (sym f.carries) nonempty;
      ends = ends ∙ sym (λ i. starts_at i + length (f.carries i) == length whole);
      same = same_whole flags;
    }
