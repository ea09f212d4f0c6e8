-- ===== src/Ip/Reassembly/Group.antt =====
-- internal/ip/reassembly.go: one group of fragments, and `reassemble`. Go visits a map in any order,
-- so `reassemble` takes the order as an argument, a function that rearranges the entries; a total
-- length of -1 is `none`.
use gonet.Prelude.{
  ℕ, ◌+◌, ◌*◌, bit_and, Bool, true, false, ◌&&◌, Option, none, some, List, [], ◌∷◌, ltb, ◌==◌,
  if◌then◌else◌, length, replicate, u16, bit_and_not, Result, ok, err, panic, ◌>>=◌, copy,
  copy_from,
}
use gonet.Prelude.Dict.{find, insert}
use gonet.Ip.Errors.{Error, invalid_fragment}
use gonet.Ip.Header.{Header, parse_header, header_len, payload, flag_mf}
use gonet.Ip.Summed.{marshal_summed}

pub record FragmentGroup : Type 0 where
  pub fragments : List (ℕ × List ℕ)
  pub total_len : Option ℕ
  pub received : ℕ
  pub created_at : ℕ

-- The order in which a map is visited.
abbrev pub Visit : Type 0
Visit = List (ℕ × List ℕ) → List (ℕ × List ℕ)

-- One round of the loop of `reassemble`. A fragment that does not parse is a nil pointer.
unfoldable pub copy_fragment : ℕ → ℕ → List ℕ → List ℕ → Result Error (List ℕ)
copy_fragment header_len offset frag full_packet = elim (parse_header frag) [
  | ok frag_header ↦ copy_from (header_len + offset * 8) (payload frag_header frag) full_packet
  | err e ↦ panic
  | panic ↦ panic
]

unfoldable pub copy_fragments : ℕ → List (ℕ × List ℕ) → List ℕ → Result Error (List ℕ)
unfolding copy_fragment
copy_fragments header_len [] full_packet = ok full_packet
copy_fragments header_len ((offset, frag) ∷ frags) full_packet =
    copy_fragment header_len offset frag full_packet >>= λ buf. copy_fragments header_len frags buf

-- `newHeader`
unfoldable pub whole_header : Header → ℕ → Header
whole_header h total_len = record h {
  flags = bit_and_not h.flags flag_mf;
  frag_offset = 0;
  total_len = u16 (header_len h + total_len);
}

-- `reassemble` behind the parsing of the first fragment.
unfoldable pub rebuild : Visit → Header → ℕ → List (ℕ × List ℕ) → Result Error (List ℕ)
unfolding header_len
rebuild visit h total_len fragments = marshal_summed (whole_header h total_len) >>= λ header_bytes.
    copy_fragments (header_len h) (visit fragments)
      (copy (replicate (header_len h + total_len) 0) header_bytes)

unfoldable pub reassemble : Visit → FragmentGroup → ℕ → Result Error (List ℕ)
reassemble visit group total_len = elim (find ◌==◌ 0 group.fragments) [
  | none ↦ err invalid_fragment
  | some first_frag ↦ parse_header first_frag >>= λ h. rebuild visit h total_len group.fragments
]

unfoldable pub new_group : ℕ → FragmentGroup
new_group now = record { fragments = []; total_len = none; received = 0; created_at = now }

-- The length that the group has once its last fragment is there.
unfoldable pub seen_total : Header → ℕ → Option ℕ → Option ℕ
seen_total h payload_len old =
    if bit_and h.flags flag_mf == 0 then some (u16 (h.frag_offset * 8) + payload_len) else old

-- `if _, duplicate := group.fragments[header.FragOffset]; !duplicate { ... }`, and the total length.
unfoldable pub put_fragment :
    Header → List ℕ → ℕ → Option ℕ → FragmentGroup → Option (List ℕ) → FragmentGroup
put_fragment h frag payload_len total_len group none = record group {
  fragments = insert ◌==◌ h.frag_offset frag group.fragments;
  received = group.received + payload_len;
  total_len = total_len;
}
put_fragment h frag payload_len total_len group (some _) = record group { total_len = total_len }

-- What a fragment changes in its group.
unfoldable pub add_to_group : Header → List ℕ → FragmentGroup → FragmentGroup
unfolding put_fragment
add_to_group h frag group =
    let payload_len = length (payload h frag) in
    put_fragment h frag payload_len (seen_total h payload_len group.total_len) group
      (find ◌==◌ h.frag_offset group.fragments)

unfoldable pub is_some : Option (List ℕ) → Bool
is_some none = false
is_some (some _) = true

unfoldable pub is_duplicate : Header → FragmentGroup → Bool
unfolding is_some
is_duplicate h group = is_some (find ◌==◌ h.frag_offset group.fragments)

-- `group.totalLen > 0 && group.received == group.totalLen`
unfoldable pub complete_len : FragmentGroup → Option ℕ
complete_len group = elim group.total_len [
  | none ↦ none
  | some total ↦ if ltb 0 total && group.received == total then some total else none
]
