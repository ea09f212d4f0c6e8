-- ===== src/Icmp/Handler/Reply.antt =====
-- The reply to an echo request, from the payload of a packet to the packet that is written.
use gonet.Prelude.{
  ℕ, ◌≤◌, ◌≡◌, refl, ap, ◌∙◌, inl, inr, true, some, List, [], arith, eq→==, length, take, drop, All,
  length-drop, All-drop, ok, IsByte, byte_at, uint16_at-lt, uint16_at,
}
use mathlib.Core.Option
use gonet.Prelude.Net.{to4}
use gonet.Ip.Header.{Header, parse_header}
use gonet.Ip.Checksum.{checksum, verify_checksum}
use gonet.Ip.Checksum.Closed.{checksum-lt}
use gonet.Ip.Builder.{
  PacketBuilder, BuildContext, IdGenerator, next, new_packet_builder, build, build_with_options,
  apply_options, initial_context,
}
use gonet.Ip.Builder.Packet.{IsBuildable, build_with_options_lem}
use gonet.Icmp.{EchoMessage, type_echo_reply, type_echo_request, parse_echo, new_echo_reply}
use gonet.Icmp.Echo.{
  IsEcho, wire, echo_at, marshal-wire, parse_echo-echo_at, parse_echo-wire, wire-verifies,
}
use gonet.Icmp.Handler.{PacketIo, write_failed, write_packet, answer, handle_ip_payload}

-- An address of 4 or 16 bytes that stands for these four bytes.
pub record IsV4 (ip four : List ℕ) : Type 0 where
  pub taken : to4 ip ≡ some four
  pub length_four : length four ≡ 4
  pub bytes : All IsByte four

-- The bytes of an echo request.
pub record IsRequest (payload : List ℕ) : Type 0 where
  pub long : 8 ≤ length payload
  pub short : length payload ≤ 65515
  pub bytes : All IsByte payload
  pub request : byte_at payload 0 ≡ type_echo_request

-- A packet with this packet ID that answers an echo request.
pub record IsReplyTo (number : ℕ) (src4 dst4 payload packet : List ℕ) (h : Header)
    (reply : EchoMessage) : Type 0 where
  pub header_parses : parse_header packet ≡ ok h
  pub header_verifies : verify_checksum (take 20 packet) ≡ true
  pub total_len : h.total_len ≡ length packet
  pub packet_id : h.id ≡ number
  pub protocol : h.protocol ≡ 1
  pub src : h.src ≡ dst4
  pub dst : h.dst ≡ src4
  pub message_parses : parse_echo (drop 20 packet) ≡ ok reply
  pub message_verifies : verify_checksum (drop 20 packet) ≡ true
  pub message_type : reply.message_type ≡ type_echo_reply
  pub id : reply.id ≡ uint16_at payload 4
  pub seq : reply.seq ≡ uint16_at payload 6
  pub content : reply.content ≡ drop 8 payload

module _ {W E : Type 0} (io : PacketIo W E) (gen : IdGenerator) (w : W)
    (src dst src4 dst4 payload : List ℕ) (from : IsV4 src src4) (to : IsV4 dst dst4)
    (req : IsRequest payload) where
  abbrev reply_source : EchoMessage
  reply_source = echo_at payload

  abbrev reply_to : EchoMessage
  unfolding new_echo_reply
  reply_to = new_echo_reply reply_source

  reply-IsEcho : IsEcho reply_to
  unfolding new_echo_reply
  reply-IsEcho = record {
    request_or_reply = inr refl;
    code_fits = omega arith;
    id_fits = uint16_at-lt payload 4 req.bytes;
    seq_fits = uint16_at-lt payload 6 req.bytes;
    content_bytes = All-drop IsByte 8 payload req.bytes;
    content_short = omega (arith, length-drop 8 payload, req.short);
  }

  abbrev sum : ℕ
  sum = checksum (wire reply_to 0)

  abbrev message : List ℕ
  message = wire reply_to sum

  message-short : length message ≤ 65515
  unfolding new_echo_reply
  message-short = omega (arith, length-drop 8 payload, req.short)

  abbrev builder : PacketBuilder
  builder = new_packet_builder dst src 1

  abbrev context : BuildContext
  context = apply_options (initial_context builder (next gen).0) []

  buildable : IsBuildable builder context dst4 src4
  unfolding new_packet_builder apply_options initial_context next
  buildable = record {
    src_v4 = to.taken;
    src_four = to.length_four;
    src_bytes = to.bytes;
    dst_v4 = from.taken;
    dst_four = from.length_four;
    dst_bytes = from.bytes;
    proto_fits = omega arith;
    ttl_fits = omega arith;
    tos_fits = omega arith;
    flags_fit = omega arith;
    id_fits = omega arith;
  }

  answer-message :
      answer io src dst reply_source (gen, w) ≡ write_packet io w (build builder gen message)
  unfolding answer new_echo_reply
  answer-message = rw (answer, marshal-wire reply_to)

  handle-message :
      handle_ip_payload io src dst payload (gen, w) ≡ write_packet io w (build builder gen message)
  unfolding handle_ip_payload
  handle-message =
      rw
        (
          handle_ip_payload,
          parse_echo-echo_at payload req.long (inl req.request),
          eq→== _ _ req.request,
        )
        answer-message

  handle-write :
      (packet : List ℕ)
      → (build_with_options builder gen message []).0 ≡ ok packet
      → handle_ip_payload io src dst payload (gen, w)
        ≡ (((next gen).1, (io.write packet w).0), Option.map write_failed (io.write packet w).1)
  unfolding write_packet build build_with_options
  handle-write packet built = handle-message ∙ ap (write_packet io w) (λ i. (built i, (next gen).1))

  -- An echo request of 8 to 65515 bytes between IPv4 addresses is answered by one packet, built with
  -- the next ID: the handler writes it and passes on the error of `Write`. `ParseHeader` and
  -- `ParseEcho` read the packet back as an echo reply from the destination to the source, with the
  -- ID, the sequence number and the data of the request, and both checksums verify.
  pub handle_ip_payload-reply :
      (packet : List ℕ) × (h : Header) × (reply : EchoMessage) × (handle_ip_payload io src dst
          payload
          (gen, w)
        ≡ (((next gen).1, (io.write packet w).0), Option.map write_failed (io.write packet w).1))
      × IsReplyTo (next gen).0 src4 dst4 payload packet h reply
  unfolding write_packet new_echo_reply new_packet_builder apply_options initial_context
  handle_ip_payload-reply =
      let (packet, h, built, made) =
        build_with_options_lem builder gen message [] dst4 src4 buildable message-short in
      (
        packet,
        h,
        record reply_to { checksum = sum },
        handle-write packet built,
        record {
          header_parses = made.parses;
          header_verifies = made.verifies;
          total_len = made.total_len;
          packet_id = made.id;
          protocol = made.protocol;
          src = made.src;
          dst = made.dst;
          message_parses =
              ap parse_echo made.carries
              ∙ parse_echo-wire reply_to sum (checksum-lt (wire reply_to 0)) reply-IsEcho;
          message_verifies = ap verify_checksum made.carries ∙ wire-verifies reply_to reply-IsEcho;
          message_type = refl;
          id = refl;
          seq = refl;
          content = refl;
        },
      )
