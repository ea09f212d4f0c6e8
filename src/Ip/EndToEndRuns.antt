-- ===== src/Ip/EndToEndRuns.antt =====
-- A payload of ten bytes through two fragments, of which the second arrives first.
use gonet.Prelude.{ℕ, ◌≡◌, refl, none, List, [], ◌∷◌, map, arith, length, ok}
use gonet.Prelude.Net.{to4, ipv4}
use gonet.Prelude.Rearranged.{Rearranges, none_left, keep, swap, further, Rearranges-refl}
use gonet.Ip.Builder.{
  IdGenerator, PacketBuilder, next, new_packet_builder, build_with_options, with_ttl, apply_options,
  initial_context,
}
use gonet.Ip.Fragment.{fragment}
use gonet.Ip.Reassembly.Group.{Visit}
use gonet.Ip.Reassembly.{ReassemblyBuffer, new_reassembly_buffer, add_all}
use gonet.Ip.Reassembly.Rebuild.{IsOrder}
use gonet.Ip.Reassembly.Delivery.{delivered}
use gonet.Ip.Dispatcher.{Dispatcher, ProtocolHandler, new_dispatcher, register}
use gonet.Ip.EndToEnd.{on_complete, handled, add_all-build}

abbrev Inbox : Type 0
Inbox = List (List ℕ)

abbrev collector : ProtocolHandler Inbox ℕ
collector = record {
  protocol = 17;
  handle_ip_payload = λ src dst bytes inbox. (bytes ∷ inbox, none);
}

abbrev listening : Dispatcher Inbox ℕ
unfolding register new_dispatcher
listening = register new_dispatcher collector

abbrev buffer : ReassemblyBuffer (Dispatcher Inbox ℕ × Inbox)
unfolding new_reassembly_buffer
buffer = new_reassembly_buffer on_complete

abbrev fresh : IdGenerator
fresh = record { val = 0 }

abbrev sender : PacketBuilder
unfolding new_packet_builder ipv4
sender = new_packet_builder (ipv4 10 0 0 1) (ipv4 10 0 0 2) 17

abbrev datagram : List ℕ
datagram = 1 ∷ 2 ∷ 3 ∷ 4 ∷ 5 ∷ 6 ∷ 7 ∷ 8 ∷ 9 ∷ 10 ∷ []

abbrev timed : List (List ℕ) → List (ℕ × List ℕ)
timed [] = []
timed (packet ∷ packets) = (7, packet) ∷ timed packets

timed-Rearranges : (packets : List (List ℕ)) → Rearranges packets (map (λ a. a.1) (timed packets))
timed-Rearranges [] = none_left
timed-Rearranges (packet ∷ packets) = keep packet (timed-Rearranges packets)

abbrev arrive : List (List ℕ) → List (ℕ × List ℕ)
arrive (first ∷ second ∷ packets) = (5, second) ∷ (6, first) ∷ timed packets
arrive (only ∷ []) = (5, only) ∷ []
arrive [] = []

arrives : (packets : List (List ℕ)) → Rearranges packets (map (λ a. a.1) (arrive packets))
arrives (first ∷ second ∷ packets) =
    further (swap first second) (keep second (keep first (timed-Rearranges packets)))
arrives (only ∷ []) = Rearranges-refl (only ∷ [])
arrives [] = none_left

abbrev visit : Visit
visit entries = entries

visit-IsOrder : IsOrder visit
visit-IsOrder entries = Rearranges-refl entries

add_all-build_example :
    (packet : List ℕ) × (packets : List (List ℕ)) × ((build_with_options sender fresh datagram
        (with_ttl 9 ∷ [])).0
      ≡ ok packet)
    × (fragment packet 28 ≡ ok packets)
    × (add_all visit (arrive packets) buffer (listening, [])
        ≡ ok (
          delivered buffer (length (arrive packets)),
          handled listening [] collector (10 ∷ 0 ∷ 0 ∷ 1 ∷ []) (10 ∷ 0 ∷ 0 ∷ 2 ∷ []) datagram,
        ))
unfolding new_packet_builder ipv4 apply_options initial_context next with_ttl to4 register
    new_dispatcher new_reassembly_buffer
add_all-build_example =
    add_all-build sender fresh datagram (with_ttl 9 ∷ []) (10 ∷ 0 ∷ 0 ∷ 1 ∷ [])
      (10 ∷ 0 ∷ 0 ∷ 2 ∷ []) 28 arrive visit buffer listening [] collector
      (record {
        src_v4 = refl;
        src_four = refl;
        src_bytes = omega arith;
        dst_v4 = refl;
        dst_four = refl;
        dst_bytes = omega arith;
        proto_fits = omega arith;
        ttl_fits = omega arith;
        tos_fits = omega arith;
        flags_fit = omega arith;
        id_fits = omega arith;
      })
      refl refl (omega arith) (omega arith) (omega arith) (omega arith) arrives visit-IsOrder refl
      refl refl
