-- ===== src/Ip/Reassembly/Duplicates.antt =====
-- A fragment that arrives again.
use gonet.Prelude.{ℕ, bit_and, ◌≡◌, refl, ap, ◌∙◌, true, false, none, some, List, ◌==◌, ok}
use gonet.Prelude.Dict.{find, insert, insert_found, find-All}
use gonet.Ip.Header.{Header, parse_header, flag_mf}
use gonet.Ip.Reassembly.Group.{
  FragmentGroup, Visit, put_fragment, seen_total, add_to_group, is_some, is_duplicate, complete_len,
}
use gonet.Ip.Reassembly.{
  ReassemblyBuffer, same_fragment_key, fragment_key, is_fragment, store_group, settle, add_with,
  add_fragment, add,
}
use gonet.Ip.Reassembly.Keys.{same_fragment_key-eq}
use gonet.Ip.Reassembly.Sound.{IsWaiting, group_of-present}
use gonet.Ip.Reassembly.Invariant.{Reached, Reached-IsSound}

module _ (h : Header) (frag old : List ℕ) (g : FragmentGroup)
    (more : (bit_and h.flags flag_mf == 0) ≡ false)
    (there : find ◌==◌ h.frag_offset g.fragments ≡ some old) where
  add_to_group_again : add_to_group h frag g ≡ g
  unfolding add_to_group put_fragment seen_total
  add_to_group_again = rw (there, more) refl

  is_duplicate_again : is_duplicate h g ≡ true
  unfolding is_duplicate is_some
  is_duplicate_again = rw there refl

-- In a buffer that `Add` and `cleanup` reach from a new one, a fragment with the MF flag whose
-- offset is in its group already changes nothing, whatever its payload: `Add` returns no error, the
-- groups and the counts stay, and the callback is not called.
pub add_again :
    {W : Type 0} (on_complete : List ℕ → W → W) (b : ReassemblyBuffer W) (visit : Visit) (now : ℕ)
    (frag old : List ℕ) (h : Header) (g : FragmentGroup) (w : W)
    → Reached on_complete b
    → parse_header frag ≡ ok h
    → (bit_and h.flags flag_mf == 0) ≡ false
    → find same_fragment_key (fragment_key h) b.groups ≡ some g
    → find ◌==◌ h.frag_offset g.fragments ≡ some old
    → add visit now frag b w ≡ ok (b, w)
unfolding add add_fragment add_with is_fragment store_group settle
add_again on_complete b visit now frag old h g w reached parses more held there =
    rw (parses, more)
      (ap (add_with visit h frag (fragment_key h) w)
          (group_of-present (fragment_key h) now b g held)
        ∙ (λ i.
            settle visit (fragment_key h) (same i)
              (store_group (fragment_key h) (same i) (is_duplicate_again h frag old g more there i)
                b)
              w (complete_len (same i)))
        ∙ (λ i. settle visit (fragment_key h) g (record b { groups = kept i }) w (waits i)))
  where
    same : add_to_group h frag g ≡ g
    same = add_to_group_again h frag old g more there

    kept : insert same_fragment_key (fragment_key h) g b.groups ≡ b.groups
    kept =
        insert_found same_fragment_key (fragment_key h) g b.groups
          (same_fragment_key-eq (fragment_key h)) held

    waits : complete_len g ≡ none
    waits =
        find-All same_fragment_key IsWaiting (fragment_key h) g b.groups
          (same_fragment_key-eq (fragment_key h)) held
          (Reached-IsSound on_complete b reached).waiting
