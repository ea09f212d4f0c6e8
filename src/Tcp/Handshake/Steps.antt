-- ===== src/Tcp/Handshake/Steps.antt =====
-- The steps of the handshake on the side that they succeed.
use gonet.Prelude.{
  ℕ, ◌+◌, ◌*◌, ◌/◌, ◌%◌, ◌^◌, ◌<◌, ◌≡◌, refl, ap, ◌∙◌, inl, inr, none, some, List, [], ◌∷◌, arith,
  ltb, if◌then◌else◌, lt→ltb, Bool-cases, u32,
}
use mathlib.Core.Option
use gonet.Tcp.Header.{Header, padded_options, encode_options, pad_loop}
use gonet.Tcp.Conn.{
  TcpConn, Step, output_failed, and_then, send, mss_option, negotiate_mss, parse_mss, find_mss,
}
use gonet.Tcp.Conn.Send.{IsKey, IsSendable, IsSegmentOf, send_lem}
use gonet.Tcp.Handshake.{receive_syn}

-- The MSS behind `negotiateMSS`.
abbrev pub lower : ℕ → ℕ → ℕ
lower mss peer = if ltb peer mss then peer else mss

parse_mss-mss_option :
    (seg : Header) (peer : ℕ)
    → seg.options ≡ mss_option peer ∷ []
    → peer < 65536
    → parse_mss seg ≡ some peer
unfolding parse_mss mss_option find_mss
parse_mss-mss_option seg peer e high = rw e (ap some whole)
  where
    whole : peer / 256 % 256 * 256 + peer % 256 ≡ peer
    whole = omega arith

negotiate_mss-lower :
    {W E : Type 0} (c : TcpConn W E) (seg : Header) (peer : ℕ)
    → parse_mss seg ≡ some peer
    → 0 < peer
    → negotiate_mss c seg ≡ record c { mss = lower c.mss peer }
unfolding negotiate_mss
negotiate_mss-lower c seg peer e low = elim (Bool-cases (ltb peer c.mss)) [
  | inl less ↦ rw (negotiate_mss, e, lt→ltb 0 peer low, less)
  | inr more ↦ rw (negotiate_mss, e, lt→ltb 0 peer low, more)
]

module _ {W E : Type 0} (c : TcpConn W E) where
  -- Every segment is written without an error.
  abbrev pub IsReliable : Type 0
  IsReliable = (segment : List ℕ) (w : W) → (c.output segment w).1 ≡ none

  -- A header without options, and the header of a SYN with the MSS option.
  abbrev pub bare_header : ℕ → ℕ → ℕ → Header
  bare_header flags seq ack = record {
    src_port = c.key.src_port;
    dst_port = c.key.dst_port;
    seq_num = seq;
    ack_num = ack;
    data_offset = 0;
    flags = flags;
    window = c.rcv_wnd;
    checksum = 0;
    urgent = 0;
    options = [];
  }

  abbrev pub syn_header : ℕ → ℕ → ℕ → Header
  syn_header flags seq ack = record (bare_header flags seq ack) { options = mss_option c.mss ∷ [] }

  pub syn_header-IsSendable :
      (flags seq ack : ℕ)
      → IsKey c.key
      → c.rcv_wnd < 65536
      → flags < 256
      → seq < 2 ^ 32
      → ack < 2 ^ 32
      → IsSendable (syn_header flags seq ack)
  unfolding mss_option padded_options encode_options pad_loop
  syn_header-IsSendable flags seq ack k wnd f s a = record {
    valid = record {
      src_port_fits = k.src_port_fits;
      dst_port_fits = k.dst_port_fits;
      seq_num_fits = s;
      ack_num_fits = a;
      flags_fit = f;
      window_fits = wnd;
      checksum_fits = omega arith;
      urgent_fits = omega arith;
      options_wire = (inr (omega arith, refl), tt);
      options_fit = omega arith;
    };
    option_bytes = omega arith;
    options_short = omega arith;
  }

  pub bare_header-IsSendable :
      (flags seq ack : ℕ)
      → IsKey c.key
      → c.rcv_wnd < 65536
      → flags < 256
      → seq < 2 ^ 32
      → ack < 2 ^ 32
      → IsSendable (bare_header flags seq ack)
  unfolding padded_options encode_options pad_loop
  bare_header-IsSendable flags seq ack k wnd f s a = record {
    valid = record {
      src_port_fits = k.src_port_fits;
      dst_port_fits = k.dst_port_fits;
      seq_num_fits = s;
      ack_num_fits = a;
      flags_fit = f;
      window_fits = wnd;
      checksum_fits = omega arith;
      urgent_fits = omega arith;
      options_wire = tt;
      options_fit = omega arith;
    };
    option_bytes = tt;
    options_short = omega arith;
  }

  pub and_then-send :
      (h : Header) (w : W) (rest : TcpConn W E → W → Step W E)
      → IsKey c.key
      → IsSendable h
      → IsReliable
      → (segment : List ℕ) × (parsed : Header) × (and_then (send c h [] w) rest
          ≡ rest c (c.output segment w).0)
        × IsSegmentOf c.key h segment parsed
  unfolding and_then
  and_then-send h w rest k v reliable =
      let (segment, parsed, sent, made) = send_lem c h w k v in
      (
        segment,
        parsed,
        ap (λ st. and_then st rest) sent
            ∙ ap (λ e. and_then (c, (c.output segment w).0, Option.map output_failed e) rest)
                (reliable segment w),
        made,
      )

  pub receive_syn-lower :
      (seg : Header) (peer : ℕ)
      → seg.options ≡ mss_option peer ∷ []
      → 0 < peer
      → peer < 65536
      → receive_syn c seg
        ≡ record c { rcv_nxt = u32 (seg.seq_num + 1); snd_wnd = seg.window; mss = lower c.mss peer }
  unfolding receive_syn
  receive_syn-lower seg peer e low high =
      negotiate_mss-lower (record c { rcv_nxt = u32 (seg.seq_num + 1); snd_wnd = seg.window }) seg
        peer (parse_mss-mss_option seg peer e high) low
