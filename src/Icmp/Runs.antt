-- ===== src/Icmp/Runs.antt =====
-- Runs of the ICMP code, and its theorems at a concrete ping.
use gonet.Prelude.{ℕ, ◌≡◌, refl, inl, true, none, some, List, [], ◌∷◌, arith, ok}
use gonet.Prelude.Net.{to4}
use gonet.Ip.Header.{Header, parse_header, payload, read_fields}
use gonet.Ip.Checksum.{verify_checksum}
use gonet.Ip.Builder.{IdGenerator, next}
use gonet.Ip.Dispatcher.{
  new_dispatcher, register, dispatch, hand_over, add_received, add_dispatched,
}
use gonet.Icmp.{EchoMessage, parse_echo, marshal, too_short}
use gonet.Icmp.Echo.{parse_echo-marshal}
use gonet.Icmp.Handler.{PacketIo, new_icmp_handler, handle_ip_payload, bad_echo}
use gonet.Icmp.Handler.Reply.{IsReplyTo, handle_ip_payload-reply}
use gonet.Icmp.Handler.Ping.{dispatch-ping}

-- A device that keeps what is written.
abbrev Sent : Type 0
Sent = List (List ℕ)

abbrev device : PacketIo Sent ℕ
device = record { write = λ packet sent. (packet ∷ sent, none) }

abbrev first_id : IdGenerator
first_id = record { val = 0 }

abbrev request : List ℕ
request = 8 ∷ 0 ∷ 0xf7 ∷ 0xfb ∷ 0 ∷ 1 ∷ 0 ∷ 2 ∷ 1 ∷ 2 ∷ []

abbrev sender : List ℕ
sender = 10 ∷ 0 ∷ 0 ∷ 1 ∷ []

abbrev receiver : List ℕ
receiver = 10 ∷ 0 ∷ 0 ∷ 2 ∷ []

abbrev ping : List ℕ
ping =
    0x45 ∷ 0 ∷ 0 ∷ 30 ∷ 0 ∷ 1 ∷ 0 ∷ 0 ∷ 64 ∷ 1 ∷ 0 ∷ 0 ∷ 10 ∷ 0 ∷ 0 ∷ 1 ∷ 10 ∷ 0 ∷ 0 ∷ 2 ∷ request

abbrev ping_header : Header
unfolding read_fields
ping_header = read_fields ping 4 5

abbrev message : EchoMessage
message = record {
  message_type = 8;
  code = 0;
  checksum = 0;
  id = 1;
  seq = 2;
  content = 7 ∷ 8 ∷ 9 ∷ [];
}

short_run :
    handle_ip_payload device sender receiver (8 ∷ []) (first_id, [])
    ≡ ((first_id, []), some (bad_echo too_short))
unfolding handle_ip_payload parse_echo
short_run = refl

parse_echo-marshal_example :
    (raw : List ℕ) × (sum : ℕ) × (marshal message ≡ ok raw)
    × (parse_echo raw ≡ ok (record message { checksum = sum }))
    × (verify_checksum raw ≡ true)
parse_echo-marshal_example = parse_echo-marshal message (record {
  request_or_reply = inl refl;
  code_fits = omega arith;
  id_fits = omega arith;
  seq_fits = omega arith;
  content_bytes = omega arith;
  content_short = omega arith;
})

handle_ip_payload-reply_example :
    (packet : List ℕ) × (h : Header) × (reply : EchoMessage) × (handle_ip_payload device sender
        receiver request
        (first_id, [])
      ≡ (((next first_id).1, packet ∷ []), none))
    × IsReplyTo (next first_id).0 sender receiver request packet h reply
unfolding to4
handle_ip_payload-reply_example =
    handle_ip_payload-reply device first_id [] sender receiver sender receiver request
      (record { taken = refl; length_four = refl; bytes = omega arith })
      (record { taken = refl; length_four = refl; bytes = omega arith })
      (record { long = omega arith; short = omega arith; bytes = omega arith; request = refl })

dispatch-ping_example :
    (packet : List ℕ) × (h' : Header) × (reply : EchoMessage) × (dispatch
        (register new_dispatcher (new_icmp_handler device))
        ping
        (first_id, [])
      ≡ hand_over
          (add_dispatched (add_received (register new_dispatcher (new_icmp_handler device))))
          (((next first_id).1, packet ∷ []), none))
    × IsReplyTo (next first_id).0 sender receiver request packet h' reply
unfolding parse_header read_fields payload
dispatch-ping_example = dispatch-ping device new_dispatcher ping ping_header first_id [] (record {
  bytes = omega arith;
  parses = refl;
  ihl_low = omega arith;
  not_cut = omega arith;
  carries_icmp = refl;
  long = omega arith;
  request = refl;
})
