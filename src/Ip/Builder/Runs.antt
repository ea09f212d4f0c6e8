-- ===== src/Ip/Builder/Runs.antt =====
-- Runs of the builder, and its theorems at a concrete packet.
use gonet.Prelude.{ℕ, ◌≡◌, refl, List, [], ◌∷◌, arith, ok}
use gonet.Prelude.Net.{to4, ipv4}
use gonet.Ip.Header.{Header}
use gonet.Ip.Builder.{
  IdGenerator, PacketBuilder, BuildContext, next, new_packet_builder, build_with_options, with_ttl,
  with_df, apply_options, initial_context,
}
use gonet.Ip.Builder.Packet.{IsPacketOf, build_with_options_lem}

abbrev fresh : IdGenerator
fresh = record { val = 0 }

abbrev pinger : PacketBuilder
unfolding new_packet_builder ipv4
pinger = new_packet_builder (ipv4 10 0 0 1) (ipv4 10 0 0 2) 1

abbrev options : List (BuildContext → BuildContext)
options = with_ttl 5 ∷ with_df ∷ []

build_with_options_lem_example :
    (packet : List ℕ) × (h : Header) × ((build_with_options pinger fresh (1 ∷ 2 ∷ 3 ∷ []) options).0
      ≡ ok packet)
    × IsPacketOf pinger
        (apply_options (initial_context pinger (next fresh).0) options)
        (10 ∷ 0 ∷ 0 ∷ 1 ∷ [])
        (10 ∷ 0 ∷ 0 ∷ 2 ∷ [])
        (1 ∷ 2 ∷ 3 ∷ [])
        packet
        h
unfolding new_packet_builder ipv4 apply_options initial_context next with_ttl with_df to4
build_with_options_lem_example =
    build_with_options_lem pinger fresh (1 ∷ 2 ∷ 3 ∷ []) options (10 ∷ 0 ∷ 0 ∷ 1 ∷ [])
      (10 ∷ 0 ∷ 0 ∷ 2 ∷ [])
      (record {
        src_v4 = refl;
        src_four = refl;
        src_bytes = omega arith;
        dst_v4 = refl;
        dst_four = refl;
        dst_bytes = omega arith;
        proto_fits = omega arith;
        ttl_fits = omega arith;
        tos_fits = omega arith;
        flags_fit = omega arith;
        id_fits = omega arith;
      })
      (omega arith)
