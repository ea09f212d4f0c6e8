-- ===== src/Ip/Reassembly/Mixed.antt =====
-- The fragments of one packet among those of another, and whole packets between them.
use gonet.Prelude.{ℕ, ◌≡◌, refl, none, List, [], ◌∷◌, arith, ok}
use gonet.Prelude.Net.{to4}
use gonet.Prelude.Rearranged.{Rearranges, keep, swap, further, Rearranges-refl}
use gonet.Ip.Header.{parse_header, read_fields, payload, header_len}
use gonet.Ip.Checksum.{checksum, fold_sum, add_words}
use gonet.Ip.Summed.{marshal_summed}
use gonet.Ip.Header.{marshal, put_ip, put_options}
use gonet.Ip.Fragment.Example.{
  packet_header, packet, fragment_one, fragment_two, fragment_three, parsed, sum_run, fragment_run,
}
use gonet.Ip.Reassembly.Group.{
  Visit, new_group, reassemble, seen_total, put_fragment, add_to_group, is_some, is_duplicate,
  complete_len, whole_header, rebuild, copy_fragments,
}
use gonet.Ip.Reassembly.{
  ReassemblyBuffer, same_fragment_key, four_bytes, fragment_key, is_fragment, new_reassembly_buffer,
  group_of, store_group, drop_group, finish_group, settle, add_with, add_fragment, add, add_all,
}
use gonet.Ip.Reassembly.Rebuild.{IsOrder}
use gonet.Ip.Reassembly.Invariant.{Reached, fresh}
use gonet.Ip.Reassembly.Age.{Event, arrives, ticks, arrived, on_events, IsYoung, on_events-IsYoung}
use gonet.Ip.Reassembly.Machines.{replay}
use gonet.Ip.Reassembly.OneAdd.{held_by, Implements}
use gonet.Ip.Reassembly.Refinement.{add_all-Implements}
use gonet.Ip.Reassembly.Interleaved.{DeliveredOnce, add_all-interleaved}

abbrev on_complete : List ℕ → List (List ℕ) → List (List ℕ)
on_complete whole world = whole ∷ world

abbrev empty : ReassemblyBuffer (List (List ℕ))
empty = record {
  groups = [];
  on_complete = on_complete;
  stats = record { groups_active = 0; fragments_added = 0; reassembled = 0; evicted = 0 };
}

-- The first fragment of another packet, with the identification 9.
abbrev stranger : List ℕ
stranger =
    69 ∷ 0 ∷ 0 ∷ 28 ∷ 0 ∷ 9 ∷ 32 ∷ 0 ∷ 64 ∷ 17 ∷ 70 ∷ 198 ∷ 10 ∷ 0 ∷ 0 ∷ 1 ∷ 10 ∷ 0 ∷ 0 ∷ 2 ∷ 1 ∷ 2
    ∷ 3 ∷ 4 ∷ 5 ∷ 6 ∷ 7 ∷ 8 ∷ []

abbrev arrivals : List (ℕ × List ℕ)
arrivals =
    (5, stranger) ∷ (5, fragment_three) ∷ (6, packet) ∷ (6, fragment_two) ∷ (8, fragment_one) ∷ []

abbrev left_over : ReassemblyBuffer (List (List ℕ))
left_over = record {
  groups =
      (
        record { src = 10 ∷ 0 ∷ 0 ∷ 1 ∷ []; dst = 10 ∷ 0 ∷ 0 ∷ 2 ∷ []; id = 9; proto = 17 },
        record { fragments = (0, stranger) ∷ []; total_len = none; received = 8; created_at = 5 },
      )
      ∷ [];
  on_complete = on_complete;
  stats = record { groups_active = 1; fragments_added = 4; reassembled = 1; evicted = 0 };
}

abbrev visit : Visit
visit entries = entries

visit-IsOrder : IsOrder visit
visit-IsOrder entries = Rearranges-refl entries

empty-Reached : Reached on_complete empty
unfolding new_reassembly_buffer
empty-Reached = fresh

add_all-Implements_example :
    Implements empty [] (replay visit arrivals (held_by empty)) (add_all visit arrivals empty [])
add_all-Implements_example = add_all-Implements on_complete empty visit arrivals [] empty-Reached

reversed :
    Rearranges
      (fragment_one ∷ fragment_two ∷ fragment_three ∷ [])
      (fragment_three ∷ fragment_two ∷ fragment_one ∷ [])
reversed = further (keep fragment_one (swap fragment_two fragment_three)) (
    further (swap fragment_one fragment_three)
      (keep fragment_three (swap fragment_one fragment_two)))

run : add_all visit arrivals empty [] ≡ ok (left_over, packet ∷ packet ∷ [])
unfolding add_all add parse_header is_fragment read_fields add_fragment settle complete_len
    add_to_group group_of seen_total payload store_group same_fragment_key fragment_key to4 add_with
    new_group put_fragment is_duplicate is_some four_bytes header_len drop_group finish_group
    reassemble rebuild copy_fragments whole_header marshal_summed marshal put_ip put_options
    checksum fold_sum add_words
run = refl

add_all-interleaved_example :
    DeliveredOnce empty left_over []
      (packet ∷ packet ∷ [])
      (fragment_key packet_header)
      packet
      (replay visit arrivals (held_by empty))
unfolding fragment_key to4 four_bytes is_fragment parse_header read_fields same_fragment_key
add_all-interleaved_example =
    add_all-interleaved on_complete empty left_over [] (packet ∷ packet ∷ []) visit packet
      packet_header 28 (fragment_one ∷ fragment_two ∷ fragment_three ∷ []) arrivals empty-Reached
      visit-IsOrder (omega arith) parsed (omega arith) refl refl refl refl sum_run (omega arith)
      (omega arith) refl fragment_run reversed run

-- A group of the fifth second, with a tick every ten seconds.
abbrev events : List Event
events =
    arrives 5000000000 stranger
    ∷ ticks 10000000000
    ∷ ticks 20000000000
    ∷ arrives 21000000000 fragment_one
    ∷ ticks 30000000000
    ∷ ticks 40000000000
    ∷ []

on_events-IsYoung_example :
    IsYoung 46000000000
      (arrived [] events)
      (on_events visit events (new_reassembly_buffer on_complete) [])
on_events-IsYoung_example =
    on_events-IsYoung visit on_complete events 0 46000000000 [] (omega arith)
