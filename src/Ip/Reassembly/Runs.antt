-- ===== src/Ip/Reassembly/Runs.antt =====
-- A packet through `Fragment` and `Add`, with the fragments in reverse order.
use gonet.Prelude.{ℕ, ◌+◌, ◌≡◌, refl, inl, inr, none, some, List, [], ◌∷◌, arith, length, ok, panic}
use gonet.Prelude.Net.{to4}
use gonet.Prelude.Rearranged.{Rearranges, keep, swap, further, Rearranges-refl}
use gonet.Ip.Header.{Header, IsValid, parse_header, read_fields, payload, header_len}
use gonet.Ip.Fragment.Example.{
  packet_header, packet, fragment_one, fragment_two, fragment_three, parsed, sum_run, fragment_run,
}
use gonet.Ip.Reassembly.Group.{
  FragmentGroup, Visit, new_group, whole_header, reassemble, seen_total, put_fragment, add_to_group,
  is_some, is_duplicate, complete_len,
}
use gonet.Ip.Reassembly.{
  FragmentKey, ReassemblyBuffer, same_fragment_key, four_bytes, fragment_key, is_fragment,
  new_reassembly_buffer, group_of, store_group, settle, add_with, add_fragment, add, add_all,
  cleanup,
}
use gonet.Ip.Reassembly.Rebuild.{IsOrder}
use gonet.Ip.Reassembly.Delivery.{delivered, add_all-fragment}
use gonet.Ip.Reassembly.Invariant.{Reached, fresh, added, Reached-IsSound}
use gonet.Ip.Reassembly.Sound.{IsSound}
use gonet.Ip.Reassembly.Evict.{IsStale, Without, cleanup_lem}
use gonet.Ip.Reassembly.Duplicates.{add_again}
use gonet.Ip.Reassembly.Panics.{reassemble_beyond}

abbrev empty : ReassemblyBuffer (List (List ℕ))
empty = record {
  groups = [];
  on_complete = λ whole world. whole ∷ world;
  stats = record { groups_active = 0; fragments_added = 0; reassembled = 0; evicted = 0 };
}

abbrev arrivals : List (ℕ × List ℕ)
arrivals = (5, fragment_three) ∷ (6, fragment_two) ∷ (8, fragment_one) ∷ []

abbrev visit : Visit
visit entries = entries

visit-IsOrder : IsOrder visit
visit-IsOrder entries = Rearranges-refl entries

reversed :
    Rearranges
      (fragment_one ∷ fragment_two ∷ fragment_three ∷ [])
      (fragment_three ∷ fragment_two ∷ fragment_one ∷ [])
reversed = further (keep fragment_one (swap fragment_two fragment_three)) (
    further (swap fragment_one fragment_three)
      (keep fragment_three (swap fragment_one fragment_two)))

add_all-fragment_example : add_all visit arrivals empty [] ≡ ok (delivered empty 3, packet ∷ [])
add_all-fragment_example =
    add_all-fragment empty [] visit packet packet_header 28
      (fragment_one ∷ fragment_two ∷ fragment_three ∷ []) arrivals visit-IsOrder (omega arith)
      parsed (omega arith) refl refl refl refl sum_run (omega arith) (omega arith) refl fragment_run
      reversed

abbrev key : FragmentKey
key = record { src = 10 ∷ 0 ∷ 0 ∷ 1 ∷ []; dst = 10 ∷ 0 ∷ 0 ∷ 2 ∷ []; id = 7; proto = 17 }

-- The buffer with the last fragment only.
abbrev waiting : ReassemblyBuffer (List (List ℕ))
waiting = record {
  groups =
      (
        key,
        record {
          fragments = (2, fragment_three) ∷ [];
          total_len = some 20;
          received = 4;
          created_at = 5;
        },
      )
      ∷ [];
  on_complete = empty.on_complete;
  stats = record { groups_active = 1; fragments_added = 1; reassembled = 0; evicted = 0 };
}

waits : add visit 5 fragment_three empty [] ≡ ok (waiting, [])
unfolding add parse_header is_fragment read_fields add_fragment settle complete_len add_to_group
    group_of seen_total payload store_group same_fragment_key fragment_key to4 add_with new_group
    put_fragment is_duplicate is_some four_bytes header_len
waits = refl

waiting-Reached : Reached empty.on_complete waiting
unfolding new_reassembly_buffer
waiting-Reached = added visit 5 fragment_three [] [] fresh waits

Reached-IsSound_example : IsSound waiting
Reached-IsSound_example = Reached-IsSound empty.on_complete waiting waiting-Reached

cleanup_lem_example :
    (let b = cleanup 40000000000 waiting in
      Without (IsStale 40000000000) waiting.groups b.groups
      × (b.stats.groups_active ≡ length b.groups)
      × (b.stats.evicted + length b.groups ≡ 0 + 1)
      × (b.stats.reassembled ≡ 0)
      × (b.stats.fragments_added ≡ 1))
cleanup_lem_example = cleanup_lem 40000000000 waiting refl

-- A fragment at offset 8000 stands in the group instead of the second one.
abbrev stray : FragmentGroup
stray = record {
  fragments = (0, fragment_one) ∷ (1000, fragment_two) ∷ (2, fragment_three) ∷ [];
  total_len = some 20;
  received = 20;
  created_at = 5;
}

abbrev first_header : Header
first_header = record packet_header { total_len = 28; flags = 1; checksum = 18120 }

first_parsed : parse_header fragment_one ≡ ok first_header
unfolding parse_header read_fields
first_parsed = refl

first-IsValid : IsValid (whole_header first_header 20)
unfolding whole_header header_len
first-IsValid = omega arith

reassemble_beyond_example : reassemble visit stray 20 ≡ panic
reassemble_beyond_example =
    reassemble_beyond visit stray 20 fragment_one first_header visit-IsOrder refl first_parsed
      first-IsValid (inr (inl (omega arith)))

-- The buffer with the first fragment only.
abbrev begun_group : FragmentGroup
begun_group = record {
  fragments = (0, fragment_one) ∷ [];
  total_len = none;
  received = 8;
  created_at = 5;
}

abbrev begun : ReassemblyBuffer (List (List ℕ))
begun = record {
  groups = (key, begun_group) ∷ [];
  on_complete = empty.on_complete;
  stats = record { groups_active = 1; fragments_added = 1; reassembled = 0; evicted = 0 };
}

begins : add visit 5 fragment_one empty [] ≡ ok (begun, [])
unfolding add parse_header is_fragment read_fields add_fragment settle complete_len add_to_group
    group_of seen_total payload store_group same_fragment_key fragment_key to4 add_with new_group
    put_fragment is_duplicate is_some four_bytes header_len
begins = refl

begun-Reached : Reached empty.on_complete begun
unfolding new_reassembly_buffer
begun-Reached = added visit 5 fragment_one [] [] fresh begins

add_again_example : add visit 9 fragment_one begun [] ≡ ok (begun, [])
unfolding same_fragment_key fragment_key to4 four_bytes
add_again_example =
    add_again empty.on_complete begun visit 9 fragment_one fragment_one first_header begun_group []
      begun-Reached first_parsed refl refl refl
