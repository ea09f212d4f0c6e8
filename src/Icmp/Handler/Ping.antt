-- ===== src/Icmp/Handler/Ping.antt =====
-- A ping from the bytes of the packet to the bytes of its answer: the handler of ICMP registered in
-- the dispatcher.
use gonet.Prelude.{
  ℕ, ◌+◌, ◌*◌, ◌%◌, ◌≤◌, ◌<◌, ◌≡◌, sym, ap, ◌∙◌, some, List, ◌++◌, arith, eq→==, length, take, drop,
  All, length-take, length-drop, All-drop, All-take, ok, IsByte, byte_at, uint16_at-lt,
}
use mathlib.Core.Option
use mathlib.Core.Path.{subst}
use gonet.Prelude.Net.{to4, v4_prefix}
use gonet.Ip.Header.{Header, parse_header, read_fields, payload}
use gonet.Ip.Header.Parse.{parse_header_checks, IsAccepted}
use gonet.Ip.Builder.{IdGenerator, next}
use gonet.Ip.Dispatcher.{Dispatcher, register, dispatch, hand_over, add_received, add_dispatched}
use gonet.Ip.Dispatcher.Delivery.{dispatch-parse_header, payload-drop}
use gonet.Icmp.{EchoMessage, type_echo_request}
use gonet.Icmp.Handler.{PacketIo, HandlerError, write_failed, new_icmp_handler}
use gonet.Icmp.Handler.Reply.{IsV4, IsRequest, IsReplyTo, handle_ip_payload-reply}

-- A packet that `ParseHeader` accepts and that carries an echo request in its announced length.
pub record IsPing (raw : List ℕ) (h : Header) : Type 0 where
  pub bytes : All IsByte raw
  pub parses : parse_header raw ≡ ok h
  pub ihl_low : 5 ≤ h.ihl
  pub not_cut : h.total_len ≤ length raw
  pub carries_icmp : h.protocol ≡ 1
  pub long : 8 ≤ length (payload h (take h.total_len raw))
  pub request : byte_at (payload h (take h.total_len raw)) 0 ≡ type_echo_request

to4-v4_prefix : (ip : List ℕ) → length ip ≡ 4 → to4 (v4_prefix ++ ip) ≡ some ip
unfolding to4
to4-v4_prefix ip h = rw h

mapped-IsV4 : (ip : List ℕ) → length ip ≡ 4 → All IsByte ip → IsV4 (v4_prefix ++ ip) ip
mapped-IsV4 ip h bytes = record { taken = to4-v4_prefix ip h; length_four = h; bytes = bytes }

-- Four bytes of a packet as an address.
four-IsV4 :
    (k : ℕ) (raw : List ℕ)
    → k + 4 ≤ length raw
    → All IsByte raw
    → IsV4 (v4_prefix ++ take 4 (drop k raw)) (take 4 (drop k raw))
four-IsV4 k raw h bytes =
    mapped-IsV4 (take 4 (drop k raw)) (omega (arith, length-take 4 (drop k raw), length-drop k raw))
      (All-take IsByte 4 (drop k raw) (All-drop IsByte k raw bytes))

module _ (raw : List ℕ) (h : Header) (p : IsPing raw h) where
  abbrev datagram : List ℕ
  datagram = take h.total_len raw

  accepted : IsAccepted raw
  accepted = (parse_header_checks raw h p.parses).0

  fields : h ≡ read_fields raw 4 (byte_at raw 0 % 16)
  fields = (parse_header_checks raw h p.parses).1

  total-lt : h.total_len < 65536
  unfolding read_fields
  total-lt = omega (arith, ap (λ (g : Header). g.total_len) fields, uint16_at-lt raw 2 p.bytes)

  ping-IsRequest : IsRequest (payload h datagram)
  ping-IsRequest = record {
    long = p.long;
    short = omega (
      arith,
      ap (λ (bs : List ℕ). length bs) (payload-drop h datagram),
      length-drop (h.ihl * 4) datagram,
      length-take h.total_len raw,
      total-lt,
      p.ihl_low,
    );
    bytes =
        rw (payload-drop h datagram)
          (All-drop IsByte (h.ihl * 4) datagram (All-take IsByte h.total_len raw p.bytes));
    request = p.request;
  }

  src-IsV4 : IsV4 (v4_prefix ++ h.src) h.src
  unfolding read_fields
  src-IsV4 =
      subst (λ ip. IsV4 (v4_prefix ++ ip) ip) (sym (ap (λ (g : Header). g.src) fields))
        (four-IsV4 12 raw (omega (arith, accepted.long)) p.bytes)

  dst-IsV4 : IsV4 (v4_prefix ++ h.dst) h.dst
  unfolding read_fields
  dst-IsV4 =
      subst (λ ip. IsV4 (v4_prefix ++ ip) ip) (sym (ap (λ (g : Header). g.dst) fields))
        (four-IsV4 16 raw (omega (arith, accepted.long)) p.bytes)

module _ {W E : Type 0} where
  -- A ping that arrives at a dispatcher with the ICMP handler registered is answered by one packet,
  -- written with the next ID: an echo reply to the sender, from the address the ping was sent to,
  -- with the ping's ID, sequence number and data, in a packet whose checksums verify. The ping counts
  -- as dispatched, and an error of `Write` is the result.
  pub dispatch-ping :
      (io : PacketIo W E) (d : Dispatcher (IdGenerator × W) (HandlerError E)) (raw : List ℕ)
      (h : Header) (gen : IdGenerator) (w : W)
      → IsPing raw h
      → (packet : List ℕ) × (h' : Header) × (reply : EchoMessage) × (dispatch
            (register d (new_icmp_handler io))
            raw
            (gen, w)
          ≡ hand_over (add_dispatched (add_received (register d (new_icmp_handler io)))) (
            ((next gen).1, (io.write packet w).0),
            Option.map write_failed (io.write packet w).1,
          ))
        × IsReplyTo (next gen).0 h.src h.dst (payload h (take h.total_len raw)) packet h' reply
  unfolding new_icmp_handler register
  dispatch-ping io d raw h gen w p =
      let (packet, h', reply, written, answers) =
        handle_ip_payload-reply io gen w (v4_prefix ++ h.src) (v4_prefix ++ h.dst) h.src h.dst
          (payload h (take h.total_len raw)) (src-IsV4 raw h p) (dst-IsV4 raw h p)
          (ping-IsRequest raw h p) in
      (
        packet,
        h',
        reply,
        dispatch-parse_header (register d (new_icmp_handler io)) raw (gen, w) h
              (new_icmp_handler io) p.bytes p.parses p.ihl_low p.not_cut
              (rw (eq→== h.protocol 1 p.carries_icmp))
            ∙ ap (hand_over (add_dispatched (add_received (register d (new_icmp_handler io)))))
                written,
        answers,
      )
