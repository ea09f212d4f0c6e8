-- ===== src/Ip/EndToEnd.antt =====
-- internal/ip from end to end: a payload that a builder wraps, `Fragment` splits and the network
-- reorders, through the reassembly buffer and the dispatcher to the handler of its protocol. The
-- callback of the buffer is `Dispatch`, whose error it ignores.
use gonet.Prelude.{
  ℕ, ◌+◌, ◌*◌, ◌≤◌, ◌<◌, bit_and, ◌≡◌, refl, sym, ap, ◌∙◌, Option, none, some, List, [], ◌∷◌, ◌++◌,
  map, arith, length, take, drop, All, take-append-drop, length-drop, take_all, All-append, ok,
  IsByte, copy_same,
}
use mathlib.Core.Path.{subst}
use gonet.Prelude.Net.{to4, to4_of_four, v4_prefix}
use gonet.Prelude.Dict.{find}
use gonet.Prelude.Rearranged.{Rearranges}
use gonet.Ip.Header.{Header, payload, flag_mf, flag_df}
use gonet.Ip.Header.Parse.{parse_header_checks}
use gonet.Ip.Builder.{
  PacketBuilder, BuildContext, BuildOption, IdGenerator, next, apply_options, build_with_options,
  initial_context,
}
use gonet.Ip.Builder.Packet.{IsBuildable, IsPacketOf, build_with_options_lem}
use gonet.Ip.Fragment.{fragment}
use gonet.Ip.Fragment.Split.{fragment-Fragmentation}
use gonet.Ip.Reassembly.Group.{Visit}
use gonet.Ip.Reassembly.{
  FragmentKey, ReassemblyBuffer, same_fragment_key, four_bytes, fragment_key, add_all,
}
use gonet.Ip.Reassembly.Rebuild.{IsOrder}
use gonet.Ip.Reassembly.Delivery.{delivered, add_all-fragment}
use gonet.Ip.Dispatcher.{
  Dispatcher, ProtocolHandler, Outcome, dispatch, hand_over, add_received, add_dispatched,
}
use gonet.Ip.Dispatcher.Delivery.{dispatch-parse_header, payload-drop}

-- The key of the fragments of a built packet.
abbrev pub key_of : PacketBuilder → BuildContext → List ℕ → List ℕ → FragmentKey
key_of b ctx src dst = record { src = src; dst = dst; id = ctx.id; proto = b.proto }

four_bytes_lem : (ip : List ℕ) → length ip ≡ 4 → four_bytes (to4 ip) ≡ ip
unfolding four_bytes
four_bytes_lem ip four =
    rw (to4_of_four ip four) (copy_same (0 ∷ 0 ∷ 0 ∷ 0 ∷ []) ip (omega (arith, four)))

module _ (b : PacketBuilder) (ctx : BuildContext) (src dst content packet : List ℕ) (h : Header)
    (v : IsBuildable b ctx src dst) (p : IsPacketOf b ctx src dst content packet h) where
  fragment_key-key_of : fragment_key h ≡ key_of b ctx src dst
  unfolding fragment_key
  fragment_key-key_of = λ i. record {
    src = (ap (λ ip. four_bytes (to4 ip)) p.src ∙ four_bytes_lem src v.src_four) i;
    dst = (ap (λ ip. four_bytes (to4 ip)) p.dst ∙ four_bytes_lem dst v.dst_four) i;
    id = p.id i;
    proto = p.protocol i;
  }

  packet-All : All IsByte content → All IsByte packet
  packet-All bytes = subst (All IsByte) (take-append-drop 20 packet) (
      All-append IsByte (take 20 packet) (drop 20 packet) p.bytes
        (subst (All IsByte) (sym p.carries) bytes))

  length-packet : length packet ≡ 20 + length content
  length-packet = omega (
    arith,
    length-drop 20 packet,
    ap (λ (bs : List ℕ). length bs) p.carries,
    (parse_header_checks packet h p.parses).0.long,
  )

  payload_back : payload h (take h.total_len packet) ≡ content
  payload_back =
      payload-drop h (take h.total_len packet)
      ∙ (λ i. drop (p.ihl i * 4) (take_all h.total_len packet (omega (arith, p.total_len)) i))
      ∙ p.carries

abbrev settled : {W E : Type 0} → Outcome W E → Dispatcher W E × W
settled (d, w, e) = (d, w)

-- The callback of the buffer.
abbrev pub on_complete : {W E : Type 0} → List ℕ → Dispatcher W E × W → Dispatcher W E × W
on_complete packet (d, w) = settled (dispatch d packet w)

module _ {W E : Type 0} (d : Dispatcher W E) (w : W) (handler : ProtocolHandler W E) where
  settled-hand_over :
      (d' : Dispatcher W E) (r : W × Option E) → settled (hand_over d' r) ≡ (d', r.0)
  unfolding hand_over
  settled-hand_over d' (w', none) = refl
  settled-hand_over d' (w', some e) = refl

  -- The dispatcher and the world behind the handler.
  abbrev pub handled : List ℕ → List ℕ → List ℕ → Dispatcher W E × W
  handled src dst content = (
    add_dispatched (add_received d),
    (handler.handle_ip_payload (v4_prefix ++ src) (v4_prefix ++ dst) content w).0,
  )

  on_complete-handled :
      (b : PacketBuilder) (ctx : BuildContext) (src dst content packet : List ℕ) (h : Header)
      → IsBuildable b ctx src dst
      → IsPacketOf b ctx src dst content packet h
      → All IsByte content
      → d.handlers b.proto ≡ some handler
      → on_complete packet (d, w) ≡ handled src dst content
  on_complete-handled b ctx src dst content packet h v p bytes found =
      ap settled (
        dispatch-parse_header d packet w h handler
          (packet-All b ctx src dst content packet h v p bytes) p.parses (omega (arith, p.ihl))
          (omega (arith, p.total_len)) (ap d.handlers p.protocol ∙ found))
      ∙ settled-hand_over (add_dispatched (add_received d)) (
          handler.handle_ip_payload (v4_prefix ++ h.src) (v4_prefix ++ h.dst)
            (payload h (take h.total_len packet)) w)
      ∙ (λ i. handled (p.src i) (p.dst i) (payload_back b ctx src dst content packet h v p i))

-- The context that the options make of the next ID.
abbrev pub context : PacketBuilder → IdGenerator → List BuildOption → BuildContext
context b gen opts = apply_options (initial_context b (next gen).0) opts

-- A payload of bytes that a builder wraps, with IPv4 addresses, fields that fit and without the DF
-- and MF flags, in a packet that is longer than the MTU: the build succeeds, `Fragment` succeeds
-- for an MTU of 28 at least, and when its packets arrive in any order, at any times, at a buffer
-- with no group of their key whose callback is `Dispatch`, the handler of the protocol runs once,
-- with the addresses in 16 bytes and the payload; the dispatcher counts one packet received and
-- dispatched, and the buffer one packet reassembled.
pub add_all-build :
    {W E : Type 0} (b : PacketBuilder) (gen : IdGenerator) (content : List ℕ)
    (opts : List BuildOption) (src dst : List ℕ) (mtu : ℕ)
    (arrive : List (List ℕ) → List (ℕ × List ℕ)) (visit : Visit)
    (buffer : ReassemblyBuffer (Dispatcher W E × W)) (d : Dispatcher W E) (w : W)
    (handler : ProtocolHandler W E)
    → IsBuildable b (context b gen opts) src dst
    → bit_and (context b gen opts).flags flag_df ≡ 0
    → bit_and (context b gen opts).flags flag_mf ≡ 0
    → All IsByte content
    → length content ≤ 65515
    → 28 ≤ mtu
    → mtu < 20 + length content
    → ((packets : List (List ℕ)) → Rearranges packets (map (λ a. a.1) (arrive packets)))
    → IsOrder visit
    → buffer.on_complete ≡ on_complete
    → find same_fragment_key (key_of b (context b gen opts) src dst) buffer.groups ≡ none
    → d.handlers b.proto ≡ some handler
    → (packet : List ℕ) × (packets : List (List ℕ)) × ((build_with_options b gen content opts).0
        ≡ ok packet)
      × (fragment packet mtu ≡ ok packets)
      × (add_all visit (arrive packets) buffer (d, w)
          ≡ ok (delivered buffer (length (arrive packets)), handled d w handler src dst content))
add_all-build b gen content opts src dst mtu arrive visit buffer d w handler v df mf bytes short
      room long arrives order calls free found =
    let ctx = context b gen opts in
    let (packet, h, built, p) = build_with_options_lem b gen content opts src dst v short in
    let all_bytes = packet-All b ctx src dst content packet h v p bytes in
    let size = length-packet b ctx src dst content packet h v p in
    let (packets, split, pieces) =
      fragment-Fragmentation packet h mtu all_bytes p.parses (omega (arith, p.ihl)) (rw p.flags df)
        (omega (arith, size, long)) (omega (arith, p.ihl, room)) (omega (arith, long, short))
        (omega (arith, p.whole, p.ihl, size, short)) in
    (
      packet,
      packets,
      built,
      split,
      add_all-fragment buffer (d, w) visit packet h mtu packets (arrive packets) order all_bytes
            p.parses (omega (arith, p.ihl)) (rw p.flags df) (rw p.flags mf) p.whole p.total_len
            p.summed (omega (arith, p.ihl, room)) (omega (arith, size, long))
            (rw (fragment_key-key_of b ctx src dst content packet h v p) free) split
            (arrives packets)
          ∙ ap (λ r. ok (delivered buffer (length (arrive packets)), r))
              (ap (λ f. f packet (d, w)) calls
                ∙ on_complete-handled d w handler b ctx src dst content packet h v p bytes found),
    )
