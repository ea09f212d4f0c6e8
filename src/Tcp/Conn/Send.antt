-- ===== src/Tcp/Conn/Send.antt =====
-- The segment that `send` hands to the output function.
use gonet.Prelude.{
  ℕ, ◌+◌, ◌≤◌, ◌<◌, ◌≡◌, refl, sym, ap, ◌∙◌, true, List, [], arith, length, take, All, All-append,
  ok, IsByte,
}
use mathlib.Core.Option
use mathlib.Core.List.{append-nil}
use gonet.Tcp.Header.{Header, marshal, parse_header, layout, padded_options, set_data_offset}
use gonet.Tcp.Header.RoundTrip.{IsValid, tcp_parse_header-marshal}
use gonet.Tcp.Checksum.{new_checksum_calculator, verify}
use gonet.Tcp.Checksum.SetAndCompute.{with_field, verify-set_and_compute}
use gonet.Tcp.Conn.{ConnKey, TcpConn, ConnError, output_failed, checksum_calc, output_segment, send}

-- The addresses of a connection are four bytes each, and its ports fit.
pub record IsKey (k : ConnKey) : Type 0 where
  pub src_bytes : All IsByte k.src_ip
  pub dst_bytes : All IsByte k.dst_ip
  pub src_port_fits : k.src_port < 65536
  pub dst_port_fits : k.dst_port < 65536

-- A header that `Marshal` writes in bytes.
pub record IsSendable (h : Header) : Type 0 where
  pub valid : IsValid h
  pub option_bytes : All IsByte (padded_options h)
  pub options_short : length (padded_options h) ≤ 40

module _ (h : Header) (v : IsSendable h) where
  abbrev plain : List ℕ
  plain = (marshal h).0

  marshal-bytes : All IsByte plain
  unfolding marshal layout set_data_offset
  marshal-bytes =
      All-append IsByte (take 20 plain) (padded_options h) (omega (arith, v.valid.flags_fit))
        v.option_bytes

  length-marshal : length plain ≡ 20 + length (padded_options h)
  unfolding marshal layout
  length-marshal = omega arith

  field-marshal : (sum : ℕ) → with_field sum plain ≡ (marshal (record h { checksum = sum })).0
  unfolding marshal layout set_data_offset padded_options
  field-marshal sum = refl

  field-IsValid : (sum : ℕ) → sum < 65536 → IsValid (record h { checksum = sum })
  field-IsValid sum fits = record {
    src_port_fits = v.valid.src_port_fits;
    dst_port_fits = v.valid.dst_port_fits;
    seq_num_fits = v.valid.seq_num_fits;
    ack_num_fits = v.valid.ack_num_fits;
    flags_fit = v.valid.flags_fit;
    window_fits = v.valid.window_fits;
    checksum_fits = fits;
    urgent_fits = v.valid.urgent_fits;
    options_wire = v.valid.options_wire;
    options_fit = v.valid.options_fit;
  }

  field-parses :
      (sum : ℕ)
      → sum < 65536
      → parse_header (with_field sum plain) ≡ ok (marshal (record h { checksum = sum })).1
  field-parses sum fits =
      ap parse_header
        (field-marshal sum ∙ sym (append-nil (marshal (record h { checksum = sum })).0))
      ∙ tcp_parse_header-marshal (record h { checksum = sum }) [] (field-IsValid sum fits)

-- The bytes of a header with its checksum filled in, and the header that `ParseHeader` reads there.
pub record IsSegmentOf (k : ConnKey) (h : Header) (segment : List ℕ) (parsed : Header)
    : Type 0 where
  pub parses : parse_header segment ≡ ok parsed
  pub verifies : verify (new_checksum_calculator k.src_ip k.dst_ip) segment ≡ true
  pub src_port : parsed.src_port ≡ h.src_port
  pub dst_port : parsed.dst_port ≡ h.dst_port
  pub seq_num : parsed.seq_num ≡ h.seq_num
  pub ack_num : parsed.ack_num ≡ h.ack_num
  pub flags : parsed.flags ≡ h.flags
  pub window : parsed.window ≡ h.window
  pub options : parsed.options ≡ h.options

field-segment :
    (h : Header) (v : IsSendable h) (k : ConnKey) (field : ℕ)
    → field < 65536
    → verify (new_checksum_calculator k.src_ip k.dst_ip) (with_field field (plain h v)) ≡ true
    → IsSegmentOf k h (with_field field (plain h v)) (marshal (record h { checksum = field })).1
unfolding marshal set_data_offset
field-segment h v k field fits verified = record {
  parses = field-parses h v field fits;
  verifies = verified;
  src_port = refl;
  dst_port = refl;
  seq_num = refl;
  ack_num = refl;
  flags = refl;
  window = refl;
  options = refl;
}

module _ {W E : Type 0} where
  -- A segment without payload reaches the output function as the bytes of its header with the
  -- checksum filled in, which `ParseHeader` reads back and which verify.
  pub send_lem :
      (c : TcpConn W E) (h : Header) (w : W)
      → IsKey c.key
      → IsSendable h
      → (segment : List ℕ) × (parsed : Header) × (send c h [] w
          ≡ (c, (c.output segment w).0, Option.map output_failed (c.output segment w).1))
        × IsSegmentOf c.key h segment parsed
  unfolding send checksum_calc output_segment
  send_lem c h w k v =
      let (field, fits, set, verified) =
        verify-set_and_compute {E = ConnError E} c.key.src_ip c.key.dst_ip (plain h v) k.src_bytes
          k.dst_bytes (marshal-bytes h v) (omega (arith, length-marshal h v))
          (omega (arith, length-marshal h v, v.options_short)) in
      (
        with_field field (plain h v),
        (marshal (record h { checksum = field })).1,
        ap (λ r. output_segment c r w) set,
        field-segment h v c.key field fits verified,
      )
