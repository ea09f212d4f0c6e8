-- ===== src/Ip/Reassembly/Delivery.antt =====
-- Fragmentation and reassembly together: a packet that `Fragment` splits is delivered whole.
use gonet.Prelude.{
  ℕ, ◌+◌, ◌-◌, ◌*◌, ◌≤◌, ◌<◌, bit_and, ◌≡◌, refl, sym, ap, ◌∙◌, inl, inr, none, some, List, [], ◌∷◌,
  ◌++◌, map, arith, length, drop, All, take-append-drop, length-drop, u16, bit_and_not, ok, IsByte,
}
use mathlib.Core.Path.{subst}
use gonet.Prelude.Rearranged.{
  Rearranges, Any, Rearranges-All, Rearranges-Any, Rearranges-sum_by, Rearranges-IsDistinct,
  All-map, Any-map, All-of_map, Any-of_map, sum_by-map, IsDistinct-of_map,
}
use gonet.Prelude.Dict.{find, erase_last}
use gonet.Ip.Reassembly.Keys.{same_fragment_key_refl}
use gonet.Ip.Header.{Header, IsValid, parse_header, header_len, flag_mf, flag_df}
use gonet.Ip.Header.Wire.{wire}
use gonet.Ip.Header.RoundTrip.{parse_header-IsValid}
use gonet.Ip.Checksum.{checksum}
use gonet.Ip.Summed.{summed, wire-parse_header}
use gonet.Ip.Fragment.{fragment}
use gonet.Ip.Fragment.Split.{Fragmentation, fragment-Fragmentation}
use gonet.Ip.Reassembly.Group.{Visit, whole_header}
use gonet.Ip.Reassembly.{
  ReassemblyBuffer, same_fragment_key, fragment_key, settle, finish_group, drop_group, add_all,
}
use gonet.Ip.Reassembly.Parts.{Covers, body}
use gonet.Ip.Reassembly.Arrival.{IsArrival, group_with, holding, group_of-new}
use gonet.Ip.Reassembly.Rebuild.{IsOrder, IsArrived, reassemble-whole}
use gonet.Ip.Reassembly.Sequence.{at, entry, IsNew, Arrives}
use gonet.Ip.Reassembly.Filling.{settled, add_all-settled}
use gonet.Ip.Reassembly.Cut.{IsCut, IsCut-Fragmentation}

All-IsNew : (todo : List (ℕ × List ℕ)) → All (IsNew []) todo
All-IsNew [] = tt
All-IsNew (a ∷ todo) = (refl, All-IsNew todo)

-- The buffer behind a delivery: the groups are those before, and the counts say what happened.
abbrev pub delivered : {W : Type 0} → ReassemblyBuffer W → ℕ → ReassemblyBuffer W
delivered b n = record b {
  stats = record (b.stats) {
    fragments_added = b.stats.fragments_added + n;
    reassembled = b.stats.reassembled + 1;
  };
}

from_zero : (n : ℕ) → 0 + n ≡ n
from_zero n = omega arith

add_take : (x : ℕ) → x + 1 - 1 ≡ x
add_take x = omega arith

module _ {W : Type 0} (b : ReassemblyBuffer W) (w : W) (visit : Visit) (order : IsOrder visit)
    (h : Header) (whole : List ℕ) (good : IsValid (whole_header h (length whole)))
    (low : 0 < length whole) (free : find same_fragment_key (fragment_key h) b.groups ≡ none) where
  settled-delivered :
      (since : ℕ) (entries : List (ℕ × List ℕ)) (n : ℕ)
      → All (IsArrived h whole good) entries
      → ((i : ℕ) → i < length whole → Any (Covers (h.ihl * 4) i) entries)
      → settled b
          (fragment_key h)
          (same_fragment_key_refl (fragment_key h))
          free
          visit
          h
          whole
          refl
          since
          w
          entries
          n
        ≡ ok (
          delivered b n,
          b.on_complete (wire (summed (whole_header h (length whole))) ++ whole) w,
        )
  unfolding settle finish_group drop_group
  settled-delivered since entries n arrived covered =
      ap
        (finish_group (fragment_key h)
          (holding b (fragment_key h)
            (group_with entries (some (length whole)) (length whole) since) n)
          w)
        (reassemble-whole h whole good visit order entries arrived covered (some (length whole))
          (length whole) since low)
      ∙ (λ i. ok (
        record b {
          groups =
              erase_last same_fragment_key (fragment_key h)
                (same_fragment_key_refl (fragment_key h))
                (group_with entries (some (length whole)) (length whole) since) b.groups free i;
          stats = record (b.stats) {
            groups_active = add_take b.stats.groups_active i;
            fragments_added = b.stats.fragments_added + n;
            reassembled = b.stats.reassembled + 1;
          };
        },
        b.on_complete (wire (summed (whole_header h (length whole))) ++ whole) w,
      ))

  -- Arrivals of the fragments of a cut of the payload, in any order.
  pub add_all-cut :
      (packets : List (List ℕ)) (arrivals : List (ℕ × List ℕ))
      → IsCut h whole 0 whole packets
      → Rearranges packets (map (λ a. a.1) arrivals)
      → add_all visit arrivals b w
        ≡ ok (
          delivered b (length arrivals),
          b.on_complete (wire (summed (whole_header h (length whole))) ++ whole) w,
        )
  add_all-cut packets [] cut some_order = absurd (
      Rearranges-Any (λ p. Covers (h.ihl * 4) 0 (at p, p)) some_order
        (cut.covers 0 (omega arith) (omega (arith, low))))
  add_all-cut packets ((now, frag) ∷ todo) cut some_order =
      add_all-settled b (fragment_key h) (same_fragment_key_refl (fragment_key h)) free visit h
        whole refl now w todo now frag [] none 0 0 b
        (group_of-new b (fragment_key h) (same_fragment_key_refl (fragment_key h)) free now) arrive
        (All-IsNew ((now, frag) ∷ todo))
        (IsDistinct-of_map (λ a. a.1) at ((now, frag) ∷ todo)
          (Rearranges-IsDistinct at some_order cut.distinct))
        (omega (
          arith,
          cut.sum,
          Rearranges-sum_by (λ p. length (body (h.ihl * 4) p)) some_order,
          sum_by-map (λ (a : ℕ × List ℕ). a.1) (λ p. length (body (h.ihl * 4) p))
              ((now, frag) ∷ todo),
        ))
        (inl refl) (inr (covers (length whole - 1) (omega (arith, low))))
      ∙ ap
          (settled b (fragment_key h) (same_fragment_key_refl (fragment_key h)) free visit h whole
            refl now w (map entry ((now, frag) ∷ todo)))
          (from_zero (length ((now, frag) ∷ todo)))
      ∙ settled-delivered now (map entry ((now, frag) ∷ todo)) (length ((now, frag) ∷ todo))
          (All-map entry (IsArrived h whole good) ((now, frag) ∷ todo) arrive)
          (λ i lt. Any-map entry (Covers (h.ihl * 4) i) ((now, frag) ∷ todo) (covers i lt))
    where
      arrive : All (Arrives h whole) ((now, frag) ∷ todo)
      arrive =
          All-of_map (λ a. a.1) (λ p. IsArrival h whole (at p) p) ((now, frag) ∷ todo)
            (Rearranges-All (λ p. IsArrival h whole (at p) p) some_order cut.arrive)

      covers :
          (i : ℕ)
          → i < length whole
          → Any (λ a. Covers (h.ihl * 4) i (entry a)) ((now, frag) ∷ todo)
      covers i lt =
          Any-of_map (λ a. a.1) (λ p. Covers (h.ihl * 4) i (at p, p)) ((now, frag) ∷ todo)
            (Rearranges-Any (λ p. Covers (h.ihl * 4) i (at p, p)) some_order
              (cut.covers i (omega arith) (omega (arith, lt))))

whole_header-same :
    (h : Header) (n : ℕ)
    → IsValid h
    → h.frag_offset ≡ 0
    → bit_and h.flags flag_mf ≡ 0
    → h.ihl * 4 + n ≡ h.total_len
    → whole_header h n ≡ h
unfolding whole_header header_len
whole_header-same h n v unfragmented no_more size =
    λ i. record h { total_len = total i; flags = flags i; frag_offset = sym unfragmented i }
  where
    total : u16 (h.ihl * 4 + n) ≡ h.total_len
    total = omega (arith, size, v.total_len_fits)

    flags : bit_and_not h.flags flag_mf ≡ h.flags
    flags = omega (arith, no_more)

-- A packet of bytes that `Fragment` splits is delivered by `Add` as it was, whatever the order in
-- which its fragments arrive, the times at which they do and the order in which the map of a group
-- is visited. The packet is not a fragment itself, its total length is its length, its checksum
-- field is the checksum of its header with a zero in that field, and the buffer has no group of its
-- key. The callback gets the packet, once and nothing else; the groups of the buffer are those
-- before; the fragments and one reassembled packet are counted.
pub add_all-fragment :
    {W : Type 0} (b : ReassemblyBuffer W) (w : W) (visit : Visit) (packet : List ℕ) (h : Header)
    (mtu : ℕ) (packets : List (List ℕ)) (arrivals : List (ℕ × List ℕ))
    → IsOrder visit
    → All IsByte packet
    → parse_header packet ≡ ok h
    → 5 ≤ h.ihl
    → bit_and h.flags flag_df ≡ 0
    → bit_and h.flags flag_mf ≡ 0
    → h.frag_offset ≡ 0
    → h.total_len ≡ length packet
    → h.checksum ≡ checksum (wire (record h { checksum = 0 }))
    → h.ihl * 4 + 8 ≤ mtu
    → mtu < length packet
    → find same_fragment_key (fragment_key h) b.groups ≡ none
    → fragment packet mtu ≡ ok packets
    → Rearranges packets (map (λ a. a.1) arrivals)
    → add_all visit arrivals b w ≡ ok (delivered b (length arrivals), b.on_complete packet w)
add_all-fragment b w visit packet h mtu packets arrivals order bytes e low df mf start total sum
      room long free sent some_order =
    add_all-cut b w visit order h whole (subst IsValid (sym same) valid)
      (omega (arith, size, room, long)) free packets arrivals cut some_order
    ∙ ap (λ p. ok (delivered b (length arrivals), b.on_complete p w))
        (ap (λ g. wire (summed g) ++ whole) same
          ∙ (λ i. wire (record h { checksum = sym sum i }) ++ whole)
          ∙ ap (λ front. front ++ whole) (wire-parse_header packet h bytes e low)
          ∙ take-append-drop (h.ihl * 4) packet)
  where
    whole : List ℕ
    whole = drop (h.ihl * 4) packet

    valid : IsValid h
    valid = parse_header-IsValid packet h bytes e low

    size : h.ihl * 4 + length whole ≡ length packet
    size = omega (arith, length-drop (h.ihl * 4) packet, room, long)

    same : whole_header h (length whole) ≡ h
    same = whole_header-same h (length whole) valid start mf (size ∙ sym total)

    cut_of :
        ((ps : List (List ℕ)) × (fragment packet mtu ≡ ok ps) × Fragmentation h mtu 0 whole ps)
        → IsCut h whole 0 whole packets
    cut_of (ps, sent', split) =
        IsCut-Fragmentation h valid start mf whole
          (omega (arith, size, total, valid.total_len_fits)) mtu
          (subst (λ qs. Fragmentation h mtu 0 whole qs) (cc (sent, sent')) split) [] refl refl refl
          (omega (arith, size, long))

    cut : IsCut h whole 0 whole packets
    cut = cut_of (
        fragment-Fragmentation packet h mtu bytes e low df long room
          (omega (arith, total, valid.total_len_fits, long))
          (omega (arith, start, total, valid.total_len_fits)))
