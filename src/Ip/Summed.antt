-- ===== src/Ip/Summed.antt =====
-- The lines that `Fragment` and `reassemble` share: a header is written with a zero checksum, and
-- written again with the checksum of those bytes.
use gonet.Prelude.{
  ℕ, ◌*◌, ◌≤◌, ◌<◌, ◌≡◌, refl, sym, true, List, ◌++◌, arith, take, All, length-append, All-drop,
  All-take, Result, ok, ◌>>=◌, IsByte,
}
use mathlib.Core.Path.{subst}
use gonet.Ip.Errors.{Error}
use gonet.Ip.Header.{Header, IsValid, marshal, parse_header}
use gonet.Ip.Header.Wire.{wire, marshal-wire}
use gonet.Ip.Header.RoundTrip.{parse_header-IsValid, marshal-parse_header}
use gonet.Ip.Checksum.{checksum, verify_checksum}
use gonet.Ip.Checksum.Closed.{checksum-lt}
use gonet.Ip.Checksum.Verify.{verify_checksum-set}

unfoldable pub marshal_summed : Header → Result Error (List ℕ)
marshal_summed h = do
  unsummed ← marshal (record h { checksum = 0 })
  marshal (record h { checksum = checksum unsummed })

-- The addresses and the options in bytes.
abbrev pub HasBytes : Header → Type 0
HasBytes h = All IsByte (h.src ++ (h.dst ++ h.options))

abbrev pub summed : Header → Header
summed h = record h { checksum = checksum (wire (record h { checksum = 0 })) }

with_checksum-IsValid :
    (h : Header) (sum : ℕ) → IsValid h → sum < 65536 → IsValid (record h { checksum = sum })
with_checksum-IsValid h sum v fits = record {
  version_four = v.version_four;
  ihl_low = v.ihl_low;
  ihl_high = v.ihl_high;
  tos_fits = v.tos_fits;
  total_len_fits = v.total_len_fits;
  total_len_covers = v.total_len_covers;
  id_fits = v.id_fits;
  flags_fit = v.flags_fit;
  frag_offset_fits = v.frag_offset_fits;
  ttl_fits = v.ttl_fits;
  protocol_fits = v.protocol_fits;
  checksum_fits = fits;
  src_four = v.src_four;
  dst_four = v.dst_four;
  options_length = v.options_length;
}

pub summed-IsValid : (h : Header) → IsValid h → IsValid (summed h)
summed-IsValid h v =
    with_checksum-IsValid h (checksum (wire (record h { checksum = 0 }))) v
      (checksum-lt (wire (record h { checksum = 0 })))

pub marshal_summed-wire : (h : Header) → IsValid h → marshal_summed h ≡ ok (wire (summed h))
unfolding marshal_summed
marshal_summed-wire h v =
    rw (marshal-wire (record h { checksum = 0 }) (with_checksum-IsValid h 0 v (omega arith)))
      (marshal-wire (summed h) (summed-IsValid h v))

pub verify_checksum-summed :
    (h : Header) → IsValid h → HasBytes h → verify_checksum (wire (summed h)) ≡ true
verify_checksum-summed h v bytes =
    verify_checksum-set 5 (take 10 (wire h)) (h.src ++ (h.dst ++ h.options)) refl (omega (arith, v))
      bytes
      (omega (
        arith,
        length-append h.src (h.dst ++ h.options),
        length-append h.dst h.options,
        v.src_four,
        v.dst_four,
        v.options_length,
        v.ihl_high,
      ))

-- The wire format of a header that `ParseHeader` took from a packet is the front of the packet.
pub wire-parse_header :
    (raw : List ℕ) (h : Header)
    → All IsByte raw
    → parse_header raw ≡ ok h
    → 5 ≤ h.ihl
    → wire h ≡ take (h.ihl * 4) raw
wire-parse_header raw h bytes e low = cc (
  marshal-wire h (parse_header-IsValid raw h bytes e low),
  marshal-parse_header raw h bytes e low,
)

pub parse_header-HasBytes :
    (raw : List ℕ) (h : Header) → All IsByte raw → parse_header raw ≡ ok h → 5 ≤ h.ihl → HasBytes h
parse_header-HasBytes raw h bytes e low = All-drop IsByte 12 (wire h) (
    subst (All IsByte) (sym (wire-parse_header raw h bytes e low))
      (All-take IsByte (h.ihl * 4) raw bytes))
