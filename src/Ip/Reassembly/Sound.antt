-- ===== src/Ip/Reassembly/Sound.antt =====
-- What a buffer keeps, and its group of a key.
use gonet.Prelude.{
  ℕ, ◌+◌, ◌*◌, bit_and, ◌≡◌, refl, sym, ap, ◌∙◌, inl, inr, true, Option, none, some, List, [], ◌∷◌,
  ◌++◌, arith, ◌==◌, Option-cases, length, drop, All, length-append, bit_and-ones, ok, byte_at,
}
use mathlib.Core.Path.{subst}
use gonet.Prelude.Rearranged.{sum_by}
use gonet.Prelude.DictLaws.{NoTwice, NoTwice-insert}
use gonet.Prelude.Dict.{find, insert, insert_new, find-insert, All-insert, find-All}
use gonet.Ip.Header.{Header, parse_header, read_fields, payload}
use gonet.Ip.Dispatcher.Delivery.{payload-drop}
use gonet.Ip.Header.Parse.{parse_header_checks}
use gonet.Ip.Reassembly.Group.{
  FragmentGroup, new_group, put_fragment, seen_total, add_to_group, complete_len,
}
use gonet.Ip.Reassembly.{
  FragmentKey, ReassemblyBuffer, same_fragment_key, fragment_key, is_fragment, group_of,
}
use gonet.Ip.Reassembly.Keys.{same_fragment_key_refl, same_fragment_key-eq}

-- The length of the payload of a fragment, from its bytes.
abbrev pub carried_by : ℕ × List ℕ → ℕ
carried_by e = length (drop (bit_and (byte_at e.1 0) 0x0f * 4) e.1)

-- An entry of the map of a group: a fragment of the group's key, under its own offset.
pub record IsEntryOf (key : FragmentKey) (e : ℕ × List ℕ) : Type 0 where
  pub header : Header
  pub parses : parse_header e.1 ≡ ok header
  pub offset : header.frag_offset ≡ e.0
  pub keyed : fragment_key header ≡ key
  pub fragmentary : is_fragment header ≡ true

pub record IsGroup (e : FragmentKey × FragmentGroup) : Type 0 where
  pub entries : All (IsEntryOf e.0) e.1.fragments
  pub received : e.1.received ≡ sum_by carried_by e.1.fragments

-- A group that is not complete.
abbrev pub IsWaiting : FragmentKey × FragmentGroup → Type 0
IsWaiting e = complete_len e.1 ≡ none

pub record IsSound {W : Type 0} (b : ReassemblyBuffer W) : Type 0 where
  pub counted : b.stats.groups_active ≡ length b.groups
  pub groups_sound : All IsGroup b.groups
  pub waiting : All IsWaiting b.groups
  pub distinct : NoTwice same_fragment_key b.groups

empty_waits : (now : ℕ) → complete_len (new_group now) ≡ none
unfolding complete_len new_group
empty_waits now = refl

sum_by-last :
    (entries : List (ℕ × List ℕ)) (e : ℕ × List ℕ)
    → sum_by carried_by (entries ++ e ∷ []) ≡ sum_by carried_by entries + carried_by e
sum_by-last [] e = omega arith
sum_by-last (x ∷ entries) e = omega (arith, sum_by-last entries e)

length-payload :
    (frag : List ℕ) (h : Header)
    → parse_header frag ≡ ok h
    → length (payload h frag) ≡ length (drop (bit_and (byte_at frag 0) 0x0f * 4) frag)
unfolding read_fields
length-payload frag h e =
    ap (λ (bs : List ℕ). length bs) (payload-drop h frag)
    ∙ ap (λ n. length (drop (n * 4) frag))
        (ap (λ (g : Header). g.ihl) (parse_header_checks frag h e).1
          ∙ sym (bit_and-ones 4 (byte_at frag 0)))

module _ (key : FragmentKey) (frag : List ℕ) (h : Header) (parses : parse_header frag ≡ ok h)
    (keyed : fragment_key h ≡ key) (fragmentary : is_fragment h ≡ true) (g : FragmentGroup)
    (sound : IsGroup (key, g)) where
  put_fragment-IsGroup :
      (total : Option ℕ) (old : Option (List ℕ))
      → find ◌==◌ h.frag_offset g.fragments ≡ old
      → IsGroup (key, put_fragment h frag (length (payload h frag)) total g old)
  unfolding put_fragment
  put_fragment-IsGroup total none new = record {
    entries =
        All-insert ◌==◌ (IsEntryOf key) h.frag_offset frag g.fragments
          (record {
            header = h;
            parses = parses;
            offset = refl;
            keyed = keyed;
            fragmentary = fragmentary;
          })
          sound.entries;
    received =
        omega (
          arith,
          sound.received,
          length-payload frag h parses,
          sum_by-last g.fragments (h.frag_offset, frag),
        )
        ∙ ap (sum_by carried_by) (sym (insert_new ◌==◌ h.frag_offset frag g.fragments new));
  }
  put_fragment-IsGroup total (some _) old = record {
    entries = sound.entries;
    received = sound.received;
  }

  pub add_to_group-IsGroup : IsGroup (key, add_to_group h frag g)
  unfolding add_to_group
  add_to_group-IsGroup =
      put_fragment-IsGroup (seen_total h (length (payload h frag)) g.total_len)
        (find ◌==◌ h.frag_offset g.fragments) refl

module _ {W : Type 0} where
  abbrev pub HasGroup : FragmentKey → FragmentGroup × ReassemblyBuffer W → Type 0
  HasGroup key found =
      IsSound found.1
      × (find same_fragment_key key found.1.groups ≡ some found.0)
      × IsGroup (key, found.0)

  pub group_of-present :
      (key : FragmentKey) (now : ℕ) (b : ReassemblyBuffer W) (g : FragmentGroup)
      → find same_fragment_key key b.groups ≡ some g
      → group_of key now b ≡ (g, b)
  unfolding group_of
  group_of-present key now b g e = rw (group_of, e) refl

  pub group_of-absent :
      (key : FragmentKey) (now : ℕ) (b : ReassemblyBuffer W)
      → find same_fragment_key key b.groups ≡ none
      → group_of key now b ≡ (
        new_group now,
        record b {
          groups = insert same_fragment_key key (new_group now) b.groups;
          stats = record (b.stats) { groups_active = b.stats.groups_active + 1 };
        },
      )
  unfolding group_of
  group_of-absent key now b e = rw (group_of, e) refl

  pub group_of-HasGroup :
      (key : FragmentKey) (now : ℕ) (b : ReassemblyBuffer W)
      → IsSound b
      → HasGroup key (group_of key now b)
  unfolding new_group
  group_of-HasGroup key now b s = elim (Option-cases (find same_fragment_key key b.groups)) [
    | inl absent ↦ subst (HasGroup key) (sym (group_of-absent key now b absent)) (
      record {
        counted = omega (
          arith,
          s.counted,
          ap (λ (d : List (FragmentKey × FragmentGroup)). length d)
              (insert_new same_fragment_key key (new_group now) b.groups absent),
          length-append b.groups ((key, new_group now) ∷ []),
        );
        groups_sound =
            All-insert same_fragment_key IsGroup key (new_group now) b.groups empty s.groups_sound;
        waiting =
            All-insert same_fragment_key IsWaiting key (new_group now) b.groups (empty_waits now)
              s.waiting;
        distinct =
            NoTwice-insert same_fragment_key same_fragment_key_refl same_fragment_key-eq key
              (new_group now) b.groups s.distinct;
      },
      find-insert same_fragment_key key (same_fragment_key_refl key) (new_group now) b.groups,
      empty,
    )
    | inr (g, present) ↦ subst (HasGroup key) (sym (group_of-present key now b g present)) (
      s,
      present,
      find-All same_fragment_key IsGroup key g b.groups (same_fragment_key-eq key) present
          s.groups_sound,
    )
  ]
    where
      empty :
          IsGroup (key, record { fragments = []; total_len = none; received = 0; created_at = now })
      empty = record { entries = tt; received = refl }
