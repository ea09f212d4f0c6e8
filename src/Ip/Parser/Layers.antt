-- ===== src/Ip/Parser/Layers.antt =====
-- What `Parse` takes for the payload, against `Dispatch` and the builder.
use gonet.Prelude.{
  ℕ, zero, suc, ◌*◌, ◌≤◌, ◌≡◌, refl, sym, ap, ◌∙◌, ◌≢◌, inl, inr, true, false, ◌&&◌, not, Option,
  none, some, List, [], ◌∷◌, ◌++◌, arith, ◌==◌, if◌then◌else◌, ==_iff, ne→==_false, Bool-cases,
  length, take, drop, All, take-append-drop, length-take, ok, IsByte,
}
use gonet.Prelude.Net.{v4_prefix}
use gonet.Ip.Header.{Header, parse_header, payload, proto_tcp, proto_udp, proto_icmp}
use gonet.Ip.Dispatcher.{
  Dispatcher, ProtocolHandler, dispatch, hand_over, add_received, add_dispatched,
}
use gonet.Ip.Dispatcher.Delivery.{dispatch-parse_header, payload-drop}
use gonet.Ip.Parser.{Decoders, ParsedPacket, bare, decode_layer, with_layer, parse}

-- A packet without its layers.
abbrev pub stripped : ParsedPacket → ParsedPacket
stripped p = record p { tcp_layer = none; udp_layer = none; icmp_layer = none }

-- The layers: only that of the protocol is there, where its decoder takes the payload, if there is
-- one.
pub record HasLayers (dec : Decoders) (p : ParsedPacket) : Type 0 where
  pub tcp :
      p.tcp_layer
      ≡ (if p.protocol == proto_tcp && not (length p.content == 0) then dec.tcp p.content else none)
  pub udp :
      p.udp_layer
      ≡ (if p.protocol == proto_udp && not (length p.content == 0) then dec.udp p.content else none)
  pub icmp : p.icmp_layer ≡ (
      if p.protocol == proto_icmp && not (length p.content == 0) then dec.icmp p.content else none)

module _ (dec : Decoders) where
  -- The conditions of one layer.
  abbrev layer : {A : Type 0} → ℕ → Header → List ℕ → (List ℕ → Option A) → Option A
  layer proto h raw decode =
      if h.protocol == proto && not (length (payload h raw) == 0)
      then decode (payload h raw)
      else none

  absent :
      {A : Type 0} (h : Header) (raw : List ℕ) (proto : ℕ) (decode : List ℕ → Option A)
      → h.protocol == proto ≡ false
      → none ≡ layer proto h raw decode
  absent h raw proto decode e = rw e refl

  nothing :
      {A : Type 0} (h : Header) (raw : List ℕ) (proto : ℕ) (decode : List ℕ → Option A)
      → [] ≡ payload h raw
      → none ≡ layer proto h raw decode
  nothing h raw proto decode e = elim (Bool-cases (h.protocol == proto)) [
    | inl same ↦ rw same (rw (← e) refl)
    | inr other ↦ absent h raw proto decode other
  ]

  differs : (h : Header) (k n : ℕ) → h.protocol == k ≡ true → k ≢ n → h.protocol == n ≡ false
  differs h k n e ne = ne→==_false h.protocol n (λ e'. ne (cc ((==_iff h.protocol k).0 e, e')))

  decode_layer-HasLayers :
      (h : Header) (raw : List ℕ)
      → length (payload h raw) == 0 ≡ false
      → HasLayers dec (decode_layer dec (bare h raw))
        × (stripped (decode_layer dec (bare h raw)) ≡ bare h raw)
  unfolding decode_layer bare
  decode_layer-HasLayers h raw some_byte = elim (Bool-cases (h.protocol == proto_tcp)) [
    | inl t ↦ rw t (
      record {
        tcp = rw t (rw some_byte refl);
        udp =
            absent h raw proto_udp dec.udp
              (differs h proto_tcp proto_udp t (λ e. omega (arith, e)));
        icmp =
            absent h raw proto_icmp dec.icmp
              (differs h proto_tcp proto_icmp t (λ e. omega (arith, e)));
      },
      refl,
    )
    | inr nt ↦ elim (Bool-cases (h.protocol == proto_udp)) [
      | inl u ↦ rw nt (
          rw u (
            record {
              tcp = absent h raw proto_tcp dec.tcp nt;
              udp = rw u (rw some_byte refl);
              icmp =
                  absent h raw proto_icmp dec.icmp
                    (differs h proto_udp proto_icmp u (λ e. omega (arith, e)));
            },
            refl,
          ))
      | inr nu ↦ elim (Bool-cases (h.protocol == proto_icmp)) [
        | inl m ↦ rw nt (
            rw nu (
              rw m (
                record {
                  tcp = absent h raw proto_tcp dec.tcp nt;
                  udp = absent h raw proto_udp dec.udp nu;
                  icmp = rw m (rw some_byte refl);
                },
                refl,
              )))
        | inr nm ↦ rw nt (
            rw nu (
              rw nm (
                record {
                  tcp = absent h raw proto_tcp dec.tcp nt;
                  udp = absent h raw proto_udp dec.udp nu;
                  icmp = absent h raw proto_icmp dec.icmp nm;
                },
                refl,
              )))
      ]
    ]
  ]

  with_layer-HasLayers :
      (h : Header) (raw content : List ℕ)
      → content ≡ payload h raw
      → HasLayers dec (with_layer dec (bare h raw) content)
        × (stripped (with_layer dec (bare h raw) content) ≡ bare h raw)
  unfolding bare with_layer
  with_layer-HasLayers h raw [] e = (
    record {
      tcp = nothing h raw proto_tcp dec.tcp e;
      udp = nothing h raw proto_udp dec.udp e;
      icmp = nothing h raw proto_icmp dec.icmp e;
    },
    refl,
  )
  with_layer-HasLayers h raw (b ∷ bs) e =
      decode_layer-HasLayers h raw
        (rw (← e) (ne→==_false (length (b ∷ bs)) 0 (λ e'. omega (arith, e'))))

  -- What `Parse` returns of an accepted header.
  parse-bare :
      (raw : List ℕ) (h : Header)
      → parse_header raw ≡ ok h
      → (p : ParsedPacket) × (parse dec raw ≡ ok p) × HasLayers dec p × (stripped p ≡ bare h raw)
  unfolding parse
  parse-bare raw h e =
      let (layers, rest) = with_layer-HasLayers h raw (bare h raw).content refl in
      (with_layer dec (bare h raw) (bare h raw).content, rw e refl, layers, rest)

drop_short : (n : ℕ) (xs ys : List ℕ) → n ≤ length xs → drop n (xs ++ ys) ≡ drop n xs ++ ys
drop_short zero xs ys h = refl
drop_short (suc n) [] ys h = absurd (omega (arith, h))
drop_short (suc n) (x ∷ xs) ys h = drop_short n xs ys (omega (arith, h))

-- A packet of bytes that `ParseHeader` accepts, with an IHL of 5 at least and not cut short,
-- through `Parse` and through `Dispatch` with a handler for its protocol. Both see the same
-- addresses, in 4 bytes and in 16, and the layer that `Parse` fills, if any, is that of the
-- protocol; but where the handler gets the payload up to the total length of the header, `Parse`
-- takes all bytes behind the header, those behind the total length too, and decodes them.
pub parse-dispatch :
    {W E : Type 0} (dec : Decoders) (d : Dispatcher W E) (raw : List ℕ) (w : W) (h : Header)
    (handler : ProtocolHandler W E)
    → All IsByte raw
    → parse_header raw ≡ ok h
    → 5 ≤ h.ihl
    → h.ihl * 4 ≤ h.total_len
    → h.total_len ≤ length raw
    → d.handlers h.protocol ≡ some handler
    → (p : ParsedPacket) × (seen : List ℕ) × (parse dec raw ≡ ok p)
      × HasLayers dec p
      × (p.content ≡ seen ++ drop h.total_len raw)
      × (dispatch d raw w
          ≡ hand_over
              (add_dispatched (add_received d))
              (handler.handle_ip_payload (v4_prefix ++ p.src_ip) (v4_prefix ++ p.dst_ip) seen w))
unfolding bare
parse-dispatch dec d raw w h handler bytes e low covers fits found =
    let (p, parsed, layers, rest) = parse-bare dec raw h e in
    (
      p,
      payload h (take h.total_len raw),
      parsed,
      layers,
      ap (λ (q : ParsedPacket). q.content) rest ∙ cut,
      dispatch-parse_header d raw w h handler bytes e low fits found ∙ (λ i.
          hand_over (add_dispatched (add_received d)) (
            handler.handle_ip_payload (v4_prefix ++ (sym rest i).src_ip)
              (v4_prefix ++ (sym rest i).dst_ip) (payload h (take h.total_len raw)) w)),
    )
  where
    cut : payload h raw ≡ payload h (take h.total_len raw) ++ drop h.total_len raw
    cut =
        payload-drop h raw
        ∙ ap (drop (h.ihl * 4)) (sym (take-append-drop h.total_len raw))
        ∙ drop_short (h.ihl * 4) (take h.total_len raw) (drop h.total_len raw)
            (omega (arith, length-take h.total_len raw, covers, fits))
        ∙ ap (λ bs. bs ++ drop h.total_len raw) (sym (payload-drop h (take h.total_len raw)))
