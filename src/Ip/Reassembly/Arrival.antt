-- ===== src/Ip/Reassembly/Arrival.antt =====
-- One fragment of a packet that arrives at a buffer.
use gonet.Prelude.{
  ℕ, ◌+◌, ◌*◌, ◌<◌, bit_and, ◌≡◌, sym, ap, ◌∙◌, inl, inr, true, false, Option, none, some, List, [],
  ◌∷◌, ◌++◌, arith, ◌==◌, if◌then◌else◌, ==_iff, Bool-cases, length, drop,
}
use gonet.Prelude.Dict.{find, insert, insert_new, find_last, insert_last}
use gonet.Ip.Header.{Header, payload, flag_mf}
use gonet.Ip.Dispatcher.Delivery.{payload-drop}
use gonet.Ip.Reassembly.Group.{
  FragmentGroup, Visit, whole_header, new_group, seen_total, put_fragment, add_to_group, is_some,
  is_duplicate, complete_len,
}
use gonet.Ip.Reassembly.{
  FragmentKey, ReassemblyBuffer, same_fragment_key, fragment_key, is_fragment, group_of,
  store_group, settle, add_with, add_fragment, add,
}
use gonet.Ip.Reassembly.Parts.{IsPart, body}

-- A fragment of the packet with this header and payload.
pub record IsArrival (h : Header) (whole : List ℕ) (offset : ℕ) (frag : List ℕ) : Type 0 where
  pub part : IsPart (h.ihl * 4) whole offset frag
  pub at_offset : part.header.frag_offset ≡ offset
  pub offset_fits : offset < 8192
  pub keyed : fragment_key part.header ≡ fragment_key h
  pub fragmentary : is_fragment part.header ≡ true
  pub nonempty : 0 < length (body (h.ihl * 4) frag)
  pub ends :
      (bit_and part.header.flags flag_mf == 0)
      ≡ (offset * 8 + length (body (h.ihl * 4) frag) == length whole)
  pub same :
      record (whole_header part.header (length whole)) { checksum = 0 }
      ≡ record (whole_header h (length whole)) { checksum = 0 }

-- The total length behind an arrival.
abbrev pub total_after : Header → List ℕ → ℕ → List ℕ → Option ℕ → Option ℕ
total_after h whole offset frag old =
    if offset * 8 + length (body (h.ihl * 4) frag) == length whole then some (length whole) else old

abbrev pub group_with : List (ℕ × List ℕ) → Option ℕ → ℕ → ℕ → FragmentGroup
group_with entries total received now = record {
  fragments = entries;
  total_len = total;
  received = received;
  created_at = now;
}

module _ (h : Header) (whole : List ℕ) (offset : ℕ) (frag : List ℕ)
    (a : IsArrival h whole offset frag) where
  payload-body : payload a.part.header frag ≡ body (h.ihl * 4) frag
  payload-body = payload-drop a.part.header frag ∙ ap (λ n. drop n frag) a.part.header_skips

  seen_total-after :
      (old : Option ℕ)
      → seen_total a.part.header (length (payload a.part.header frag)) old
        ≡ total_after h whole offset frag old
  unfolding seen_total
  seen_total-after old =
      elim (Bool-cases (offset * 8 + length (body (h.ihl * 4) frag) == length whole)) [
        | inl end ↦
            rw (a.ends, end)
              (ap some (
                omega (
                  arith,
                  a.at_offset,
                  a.offset_fits,
                  ap (λ (bs : List ℕ). length bs) payload-body,
                  (==_iff (offset * 8 + length (body (h.ihl * 4) frag)) (length whole)).0 end,
                )))
        | inr more ↦ rw (a.ends, more)
      ]

  found :
      (entries : List (ℕ × List ℕ))
      → find ◌==◌ offset entries ≡ none
      → find ◌==◌ a.part.header.frag_offset entries ≡ none
  found entries new = ap (λ o. find ◌==◌ o entries) a.at_offset ∙ new

  add_to_group-arrival :
      (entries : List (ℕ × List ℕ)) (total : Option ℕ) (received now : ℕ)
      → find ◌==◌ offset entries ≡ none
      → add_to_group a.part.header frag (group_with entries total received now)
        ≡ group_with
            (entries ++ (offset, frag) ∷ [])
            (total_after h whole offset frag total)
            (received + length (body (h.ihl * 4) frag))
            now
  unfolding add_to_group
  add_to_group-arrival entries total received now new =
      (λ i.
        put_fragment a.part.header frag (length (payload-body i)) (seen_total-after total i)
          (group_with entries total received now) (found entries new i))
      ∙ ap
          (λ es.
            group_with es (total_after h whole offset frag total)
              (received + length (body (h.ihl * 4) frag)) now)
          (ap (λ o. insert ◌==◌ o frag entries) a.at_offset
            ∙ insert_new ◌==◌ offset frag entries new)

  is_duplicate-arrival :
      (entries : List (ℕ × List ℕ)) (total : Option ℕ) (received now : ℕ)
      → find ◌==◌ offset entries ≡ none
      → is_duplicate a.part.header (group_with entries total received now) ≡ false
  unfolding is_duplicate
  is_duplicate-arrival entries total received now new = ap is_some (found entries new)

-- A buffer that holds one more group than `b`, the group of `key`, with `n` more fragments.
module _ {W : Type 0} where
  abbrev pub holding : ReassemblyBuffer W → FragmentKey → FragmentGroup → ℕ → ReassemblyBuffer W
  holding b key group n = record b {
    groups = b.groups ++ (key, group) ∷ [];
    stats = record (b.stats) {
      groups_active = b.stats.groups_active + 1;
      fragments_added = b.stats.fragments_added + n;
    };
  }

plus_zero : (x : ℕ) → x ≡ x + 0
plus_zero x = omega arith

plus_one : (x n : ℕ) → x + n + 1 ≡ x + (n + 1)
plus_one x n = omega arith

module _ {W : Type 0} (b : ReassemblyBuffer W) (key : FragmentKey)
    (self : same_fragment_key key key ≡ true)
    (free : find same_fragment_key key b.groups ≡ none) where
  pub group_of-new :
      (now : ℕ)
      → group_of key now b ≡ (group_with [] none 0 now, holding b key (group_with [] none 0 now) 0)
  unfolding group_of new_group
  group_of-new now =
      rw (group_of, free, insert_new same_fragment_key key (new_group now) b.groups free)
        (λ i. (group_with [] none 0 now, counted i))
    where
      counted :
          record b {
            groups = b.groups ++ (key, group_with [] none 0 now) ∷ [];
            stats = record (b.stats) { groups_active = b.stats.groups_active + 1 };
          }
          ≡ holding b key (group_with [] none 0 now) 0
      counted = λ i. record b {
        groups = b.groups ++ (key, group_with [] none 0 now) ∷ [];
        stats = record (b.stats) {
          groups_active = b.stats.groups_active + 1;
          fragments_added = plus_zero b.stats.fragments_added i;
        };
      }

  pub group_of-holding :
      (now n : ℕ) (group : FragmentGroup)
      → group_of key now (holding b key group n) ≡ (group, holding b key group n)
  unfolding group_of
  group_of-holding now n group =
      rw (group_of, find_last same_fragment_key key self group b.groups free)

  store_group-holding :
      (old group : FragmentGroup) (n : ℕ)
      → store_group key group false (holding b key old n) ≡ holding b key group (n + 1)
  unfolding store_group
  store_group-holding old group n =
      rw (insert_last same_fragment_key key self old group b.groups free) (λ i. record b {
        groups = b.groups ++ (key, group) ∷ [];
        stats = record (b.stats) {
          groups_active = b.stats.groups_active + 1;
          fragments_added = plus_one b.stats.fragments_added n i;
        };
      })

  pub add-arrival :
      (visit : Visit) (now : ℕ) (h : Header) (whole : List ℕ) (offset : ℕ) (frag : List ℕ)
      (entries : List (ℕ × List ℕ)) (total : Option ℕ) (received since n : ℕ)
      (start : ReassemblyBuffer W) (w : W)
      → IsArrival h whole offset frag
      → key ≡ fragment_key h
      → find ◌==◌ offset entries ≡ none
      → group_of key now start ≡ (
        group_with entries total received since,
        holding b key (group_with entries total received since) n,
      )
      → (let group =
            group_with
              (entries ++ (offset, frag) ∷ [])
              (total_after h whole offset frag total)
              (received + length (body (h.ihl * 4) frag))
              since in
          add visit now frag start w
          ≡ settle visit key group (holding b key group (n + 1)) w (complete_len group))
  unfolding add add_fragment add_with
  add-arrival visit now h whole offset frag entries total received since n start w a k new at_hand =
      opened
      ∙ (λ i. add_with visit a.part.header frag (keys i) w (group_of (keys i) now start))
      ∙ ap (add_with visit a.part.header frag key w) at_hand
      ∙ (λ i.
          settle visit key (added i)
            (store_group key (added i)
              (is_duplicate-arrival h whole offset frag a entries total received since new i)
              (holding b key (group_with entries total received since) n))
            w (complete_len (added i)))
      ∙ ap (λ held. settle visit key (added 1) held w (complete_len (added 1)))
          (store_group-holding (group_with entries total received since) (added 1) n)
    where
      keys : fragment_key a.part.header ≡ key
      keys = a.keyed ∙ sym k

      opened :
          add visit now frag start w
          ≡ add_with visit a.part.header frag
              (fragment_key a.part.header)
              w
              (group_of (fragment_key a.part.header) now start)
      opened = rw (a.part.parses, a.fragmentary)

      added :
          add_to_group a.part.header frag (group_with entries total received since)
          ≡ group_with
              (entries ++ (offset, frag) ∷ [])
              (total_after h whole offset frag total)
              (received + length (body (h.ihl * 4) frag))
              since
      added = add_to_group-arrival h whole offset frag a entries total received since new
