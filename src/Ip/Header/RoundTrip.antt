-- ===== src/Ip/Header/RoundTrip.antt =====
-- `Marshal` and `ParseHeader` against one another.
use gonet.Prelude.{
  ℕ, ◌+◌, ◌*◌, ◌%◌, ◌≤◌, ◌<◌, ◌≡◌, sym, ap, ◌∙◌, List, ◌++◌, ok, panic, ◌>>=◌, All, IsByte, byte_at,
  length, take, drop, length-take, length-drop, arith,
}
use gonet.Ip.Header.{Header, IsValid, parse_header, read_fields, marshal}
use gonet.Ip.Header.Wire.{wire, marshal-wire}
use gonet.Ip.Header.Read.{parse_header-wire}
use gonet.Ip.Header.Parse.{
  IsAccepted, parse_header_checks, parse_header_iff, read_fields-IsValid, wire-read_fields,
}
use gonet.Ip.Header.Panics.{marshal_short}

-- A valid header that `Marshal` writes is read back by `ParseHeader` field by field, whatever bytes
-- follow it in the packet.
pub parse_header-marshal :
    (h : Header) (rest : List ℕ)
    → IsValid h
    → (marshal h >>= λ bytes. parse_header (bytes ++ rest)) ≡ ok h
parse_header-marshal h rest v = rw (marshal-wire h v) (parse_header-wire h rest v)

module _ (raw : List ℕ) (h : Header) (e : parse_header raw ≡ ok h) where
  accepted : IsAccepted raw
  accepted = (parse_header_checks raw h e).0

  fields : h ≡ read_fields raw 4 (byte_at raw 0 % 16)
  fields = (parse_header_checks raw h e).1

  ihl_of : h.ihl ≡ byte_at raw 0 % 16
  unfolding read_fields
  ihl_of = ap (λ (g : Header). g.ihl) fields

-- A header that `ParseHeader` took from a packet of bytes with an IHL of 5 at least is valid.
pub parse_header-IsValid :
    (raw : List ℕ) (h : Header) → All IsByte raw → parse_header raw ≡ ok h → 5 ≤ h.ihl → IsValid h
parse_header-IsValid raw h bytes e low =
    rw (fields raw h e)
      (read_fields-IsValid raw bytes (accepted raw h e) (omega (arith, ihl_of raw h e)))

-- A header that `ParseHeader` took from a packet of bytes, with an IHL of 5 at least, is written
-- back by `Marshal` as the packet's first IHL * 4 bytes.
pub marshal-parse_header :
    (raw : List ℕ) (h : Header)
    → All IsByte raw
    → parse_header raw ≡ ok h
    → 5 ≤ h.ihl
    → marshal h ≡ ok (take (h.ihl * 4) raw)
marshal-parse_header raw h bytes e low =
    marshal-wire h (parse_header-IsValid raw h bytes e low)
    ∙ ap ok (
        ap wire (fields raw h e)
        ∙ wire-read_fields raw bytes (accepted raw h e) (omega (arith, ihl_of raw h e))
        ∙ ap (λ n. take (n * 4) raw) (sym (ihl_of raw h e)))

slice_four : (n : ℕ) (raw : List ℕ) → n + 4 ≤ length raw → length (take 4 (drop n raw)) ≡ 4
slice_four n raw h = omega (arith, length-take 4 (drop n raw), length-drop n raw)

-- Every packet that passes the checks of `ParseHeader` with an IHL below 5 is parsed, and `Marshal`
-- panics on the header that it is parsed to.
pub parse_header_short_ihl :
    (raw : List ℕ)
    → IsAccepted raw
    → byte_at raw 0 % 16 < 5
    → (h : Header) × (parse_header raw ≡ ok h) × (marshal h ≡ panic)
unfolding read_fields
parse_header_short_ihl raw a low =
    let (h, e) = (parse_header_iff raw).0 a in
    (
      h,
      e,
      marshal_short h (omega (arith, ihl_of raw h e))
          (ap (λ (g : Header). length g.src) (fields raw h e)
            ∙ slice_four 12 raw (omega (arith, a.long)))
          (ap (λ (g : Header). length g.dst) (fields raw h e)
            ∙ slice_four 16 raw (omega (arith, a.long))),
    )
