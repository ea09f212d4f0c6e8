-- ===== src/Ip/Fragment/Runs.antt =====
-- `Fragment` at a concrete packet.
use gonet.Prelude.{ℕ, ◌≡◌, refl, List, [], ◌∷◌, ok, arith}
use gonet.Ip.Fragment.{fragment}
use gonet.Ip.Fragment.Split.{Fragmentation, fragment-Fragmentation}
use gonet.Ip.Fragment.Example.{packet_header, packet, parsed}

fragment-Fragmentation_example :
    (packets : List (List ℕ)) × (fragment packet 28 ≡ ok packets)
    × Fragmentation packet_header 28 0
        (1 ∷ 2 ∷ 3 ∷ 4 ∷ 5 ∷ 6 ∷ 7 ∷ 8 ∷ 9 ∷ 10 ∷ 11 ∷ 12 ∷ 13 ∷ 14 ∷ 15 ∷ 16 ∷ 17 ∷ 18 ∷ 19 ∷ 20
          ∷ [])
        packets
fragment-Fragmentation_example =
    fragment-Fragmentation packet packet_header 28 (omega arith) parsed (omega arith) refl
      (omega arith) (omega arith) (omega arith) (omega arith)
