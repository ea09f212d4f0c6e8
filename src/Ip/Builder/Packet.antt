-- ===== src/Ip/Builder/Packet.antt =====
-- The packets of a `PacketBuilder`: what `ParseHeader` reads from them, and their checksum.
use gonet.Prelude.{
  ℕ, ◌+◌, ◌≤◌, ◌<◌, ◌≡◌, refl, sym, ap, ◌∙◌, true, some, List, [], ◌++◌, arith, lt→ltb,
  le→ltb_false, length, take, drop, All, length-append, take-append, drop-append, All-append, ok,
  err, IsByte,
}
use mathlib.Core.Path.{subst}
use gonet.Prelude.Net.{to4, to4_of_four}
use gonet.Ip.Summed.{HasBytes}
use gonet.Ip.Errors.{packet_too_large}
use gonet.Ip.Header.{Header, IsValid, marshal, fill, put_ip, parse_header}
use gonet.Ip.Header.Wire.{wire, marshal-wire, length-wire}
use gonet.Ip.Header.Read.{parse_header-wire}
use gonet.Ip.Checksum.{checksum, verify_checksum}
use gonet.Ip.Checksum.Closed.{checksum-lt}
use gonet.Ip.Checksum.Verify.{verify_checksum-set}
use gonet.Ip.Builder.{
  PacketBuilder, BuildContext, BuildOption, IdGenerator, next, header_of, assemble, apply_options,
  build_with_options, initial_context,
}

-- `Marshal` takes an address only through `To4`.
put_ip-to4 :
    (i : ℕ) (ip four : List ℕ)
    → to4 ip ≡ some four
    → length four ≡ 4
    → (buf : List ℕ) → put_ip i ip buf ≡ put_ip i four buf
unfolding put_ip
put_ip-to4 i ip four e l buf = rw (e, to4_of_four four l, put_ip)

fill-to4 :
    (h : Header) (s d buf : List ℕ)
    → to4 h.src ≡ some s
    → to4 h.dst ≡ some d
    → length s ≡ 4
    → length d ≡ 4
    → fill h buf ≡ fill (record h { src = s; dst = d }) buf
unfolding fill
fill-to4 h s d buf hs hd ls ld = simp (put_ip-to4 12 h.src s hs ls, put_ip-to4 16 h.dst d hd ld)

pub marshal-to4 :
    (h : Header) (s d : List ℕ)
    → to4 h.src ≡ some s
    → to4 h.dst ≡ some d
    → length s ≡ 4
    → length d ≡ 4
    → marshal h ≡ marshal (record h { src = s; dst = d })
unfolding marshal
marshal-to4 h s d hs hd ls ld = fill-to4 h s d _ hs hd ls ld

-- Addresses that `To4` takes for IPv4, and fields that fit their widths.
pub record IsBuildable (b : PacketBuilder) (ctx : BuildContext) (src dst : List ℕ) : Type 0 where
  pub src_v4 : to4 b.src ≡ some src
  pub src_four : length src ≡ 4
  pub src_bytes : All IsByte src
  pub dst_v4 : to4 b.dst ≡ some dst
  pub dst_four : length dst ≡ 4
  pub dst_bytes : All IsByte dst
  pub proto_fits : IsByte b.proto
  pub ttl_fits : IsByte ctx.ttl
  pub tos_fits : IsByte ctx.tos
  pub flags_fit : ctx.flags < 8
  pub id_fits : ctx.id < 65536

-- A packet that carries a payload under the fields of the builder and the context.
pub record IsPacketOf (b : PacketBuilder) (ctx : BuildContext) (src4 dst4 payload packet : List ℕ)
    (h : Header) : Type 0 where
  pub parses : parse_header packet ≡ ok h
  pub verifies : verify_checksum (take 20 packet) ≡ true
  pub carries : drop 20 packet ≡ payload
  pub total_len : h.total_len ≡ length packet
  pub src : h.src ≡ src4
  pub dst : h.dst ≡ dst4
  pub protocol : h.protocol ≡ b.proto
  pub ttl : h.ttl ≡ ctx.ttl
  pub tos : h.tos ≡ ctx.tos
  pub flags : h.flags ≡ ctx.flags
  pub id : h.id ≡ ctx.id
  pub whole : h.frag_offset ≡ 0
  pub ihl : h.ihl ≡ 5
  pub summed : h.checksum ≡ checksum (wire (record h { checksum = 0 }))
  pub bytes : All IsByte (take 20 packet)

-- The bytes of a header, in front of its addresses too.
wire-All : (h : Header) → IsValid h → HasBytes h → All IsByte (wire h)
wire-All h v bytes =
    All-append IsByte (take 12 (wire h)) (h.src ++ (h.dst ++ h.options)) (omega (arith, v)) bytes

module _ (b : PacketBuilder) (ctx : BuildContext) (src dst payload : List ℕ)
    (v : IsBuildable b ctx src dst) (short : length payload ≤ 65515) where
  -- The header with its addresses as `To4` returns them.
  abbrev sent : ℕ → Header
  unfolding header_of
  sent sum = record (header_of b ctx (20 + length payload) sum) { src = src; dst = dst }

  sent-IsValid : (sum : ℕ) → sum < 65536 → IsValid (sent sum)
  unfolding header_of
  sent-IsValid sum fits = record {
    version_four = refl;
    ihl_low = omega arith;
    ihl_high = omega arith;
    tos_fits = v.tos_fits;
    total_len_fits = omega arith;
    total_len_covers = omega arith;
    id_fits = v.id_fits;
    flags_fit = v.flags_fit;
    frag_offset_fits = omega arith;
    ttl_fits = v.ttl_fits;
    protocol_fits = v.proto_fits;
    checksum_fits = fits;
    src_four = v.src_four;
    dst_four = v.dst_four;
    options_length = refl;
  }

  marshal-header_of :
      (sum : ℕ)
      → sum < 65536
      → marshal (header_of b ctx (20 + length payload) sum) ≡ ok (wire (sent sum))
  unfolding header_of
  marshal-header_of sum fits =
      marshal-to4 (header_of b ctx (20 + length payload) sum) src dst v.src_v4 v.dst_v4 v.src_four
        v.dst_four
      ∙ marshal-wire (sent sum) (sent-IsValid sum fits)

  abbrev field : ℕ
  field = checksum (wire (sent 0))

  assemble-wire : assemble b ctx payload ≡ ok (wire (sent field) ++ payload)
  unfolding assemble
  assemble-wire = rw (
    le→ltb_false 0xffff (20 + length payload) (omega arith),
    marshal-header_of 0 (omega arith),
    marshal-header_of field (checksum-lt (wire (sent 0))),
  )

  -- The header of a built packet in front of its checksum field.
  abbrev front : List ℕ
  front = take 10 (wire (sent 0))

  address_bytes : HasBytes (sent field)
  unfolding header_of
  address_bytes =
      All-append IsByte src (dst ++ []) v.src_bytes (All-append IsByte dst [] v.dst_bytes tt)

  wire-verifies : verify_checksum (wire (sent field)) ≡ true
  unfolding header_of
  wire-verifies =
      verify_checksum-set 5 front (src ++ (dst ++ [])) refl (omega arith) address_bytes
        (omega (arith, length-append src (dst ++ []), length-append dst [], v.src_four, v.dst_four))

  twenty : length (wire (sent field)) ≡ 20
  unfolding header_of
  twenty = length-wire (sent field) (sent-IsValid field (checksum-lt (wire (sent 0))))

  sent-IsPacketOf : IsPacketOf b ctx src dst payload (wire (sent field) ++ payload) (sent field)
  unfolding header_of
  sent-IsPacketOf = record {
    parses =
        parse_header-wire (sent field) payload (sent-IsValid field (checksum-lt (wire (sent 0))));
    verifies =
        ap verify_checksum (take-append 20 (wire (sent field)) payload twenty) ∙ wire-verifies;
    carries = drop-append 20 (wire (sent field)) payload twenty;
    total_len = omega (arith, length-append (wire (sent field)) payload, twenty);
    src = refl;
    dst = refl;
    protocol = refl;
    ttl = refl;
    tos = refl;
    flags = refl;
    id = refl;
    whole = refl;
    ihl = refl;
    summed = refl;
    bytes =
        subst (All IsByte) (sym (take-append 20 (wire (sent field)) payload twenty))
          (wire-All (sent field) (sent-IsValid field (checksum-lt (wire (sent 0)))) address_bytes);
  }

-- A build with addresses that are IPv4, fields that fit and a payload of at most 65515 bytes
-- returns a packet that `ParseHeader` reads back with the addresses, protocol, TTL, TOS, flags and ID
-- of the builder, the options and the generator, that is no fragment, has an IHL of 5 and a total
-- length that is the packet's; the first 20 bytes verify and have the checksum of the header with a
-- zero in its field, and the bytes behind those are the payload.
pub build_with_options_lem :
    (b : PacketBuilder) (gen : IdGenerator) (payload : List ℕ) (opts : List BuildOption)
    (src dst : List ℕ)
    → IsBuildable b (apply_options (initial_context b (next gen).0) opts) src dst
    → length payload ≤ 65515
    → (packet : List ℕ) × (h : Header) × ((build_with_options b gen payload opts).0 ≡ ok packet)
      × IsPacketOf b (apply_options (initial_context b (next gen).0) opts) src dst payload packet h
unfolding build_with_options
build_with_options_lem b gen payload opts src dst v short =
    let ctx = apply_options (initial_context b (next gen).0) opts in
    (
      wire (sent b ctx src dst payload v short (field b ctx src dst payload v short)) ++ payload,
      sent b ctx src dst payload v short (field b ctx src dst payload v short),
      assemble-wire b ctx src dst payload v short,
      sent-IsPacketOf b ctx src dst payload v short,
    )

-- A build fails with ErrPacketTooLarge on every payload above 65515 bytes, and uses up an ID.
build_with_options_limit :
    (b : PacketBuilder) (gen : IdGenerator) (payload : List ℕ) (opts : List BuildOption)
    → 65515 < length payload
    → build_with_options b gen payload opts ≡ (err packet_too_large, (next gen).1)
unfolding build_with_options assemble
build_with_options_limit b gen payload opts long =
    rw (lt→ltb 0xffff (20 + length payload) (omega arith))
