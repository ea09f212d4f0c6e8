-- ===== src/Ip/Reassembly/Invariant.antt =====
-- What every buffer keeps, from `NewReassemblyBuffer` on, through `Add` and `cleanup`.
use gonet.Prelude.{
  ℕ, ◌≡◌, refl, sym, ap, ◌∙◌, inl, inr, Bool, true, false, not, Option, none, some, List, arith,
  if◌then◌else◌, Bool-cases, length, All, Result, ok, err, panic, ◌>>=◌,
}
use mathlib.Core.Path.{subst}
use gonet.Prelude.DictLaws.{NoTwice, NoTwice-insert, NoTwice-erase}
use gonet.Prelude.Dict.{
  find, insert, erase, erase-insert, length-insert_old, length-erase, All-insert, All-erase,
}
use gonet.Ip.Errors.{Error}
use gonet.Ip.Header.{Header, parse_header}
use gonet.Ip.Reassembly.Group.{
  FragmentGroup, Visit, reassemble, add_to_group, is_duplicate, complete_len,
}
use gonet.Ip.Reassembly.{
  FragmentKey, ReassemblyBuffer, same_fragment_key, fragment_key, is_fragment,
  new_reassembly_buffer, group_of, store_group, drop_group, finish_group, settle, add_with,
  add_fragment, add, cleanup,
}
use gonet.Ip.Reassembly.Evict.{evict-All, NoTwice-evict, evict-counts}
use gonet.Ip.Reassembly.Keys.{same_fragment_key_refl, same_fragment_key-eq}
use gonet.Ip.Reassembly.Sound.{IsGroup, IsWaiting, IsSound, add_to_group-IsGroup, group_of-HasGroup}

-- The buffers that `Add` and `cleanup` reach from a new one.
pub data Reached {W : Type 0} (on_complete : List ℕ → W → W) : ReassemblyBuffer W → Type 0 where
  fresh : Reached on_complete (new_reassembly_buffer on_complete)
  added :
      {b b' : ReassemblyBuffer W} (visit : Visit) (now : ℕ) (fragment : List ℕ) (w w' : W)
      → Reached on_complete b
      → add visit now fragment b w ≡ ok (b', w')
      → Reached on_complete b'
  cleaned :
      {b : ReassemblyBuffer W} (now : ℕ)
      → Reached on_complete b
      → Reached on_complete (cleanup now b)

module _ {W : Type 0} where
  -- What holds of the buffer in a result, if it has one.
  abbrev Leaves : Result Error (ReassemblyBuffer W × W) → Type 0
  Leaves (ok (b, w)) = IsSound b
  Leaves (err e) = Unit {0}
  Leaves panic = Unit {0}

  -- The group `g` of the key becomes `g'`.
  module _ (visit : Visit) (key : FragmentKey) (g g' : FragmentGroup) (duplicate : Bool)
      (b : ReassemblyBuffer W) (s : IsSound b)
      (found : find same_fragment_key key b.groups ≡ some g) (good : IsGroup (key, g')) where
    stored-IsSound : complete_len g' ≡ none → IsSound (store_group key g' duplicate b)
    unfolding store_group
    stored-IsSound waits = record {
      counted = s.counted ∙ sym (length-insert_old same_fragment_key key g' g b.groups found);
      groups_sound = All-insert same_fragment_key IsGroup key g' b.groups good s.groups_sound;
      waiting = All-insert same_fragment_key IsWaiting key g' b.groups waits s.waiting;
      distinct =
          NoTwice-insert same_fragment_key same_fragment_key_refl same_fragment_key-eq key g'
            b.groups s.distinct;
    }

    erased :
        erase same_fragment_key key (insert same_fragment_key key g' b.groups)
        ≡ erase same_fragment_key key b.groups
    erased = erase-insert same_fragment_key key g' b.groups (same_fragment_key_refl key)

    dropped-IsSound : (done : Bool) → IsSound (drop_group key done (store_group key g' duplicate b))
    unfolding store_group drop_group
    dropped-IsSound done = record {
      counted = omega (
        arith,
        s.counted,
        length-erase same_fragment_key key g b.groups found,
        ap (λ (d : List (FragmentKey × FragmentGroup)). length d) erased,
      );
      groups_sound =
          subst (All IsGroup) (sym erased)
            (All-erase same_fragment_key IsGroup key b.groups s.groups_sound);
      waiting =
          subst (All IsWaiting) (sym erased)
            (All-erase same_fragment_key IsWaiting key b.groups s.waiting);
      distinct = subst (NoTwice same_fragment_key) (sym erased) (
          NoTwice-erase same_fragment_key same_fragment_key_refl same_fragment_key-eq key b.groups
            s.distinct);
    }

    finish_group-Leaves :
        (w : W) (r : Result Error (List ℕ))
        → Leaves (finish_group key (store_group key g' duplicate b) w r)
    unfolding finish_group
    finish_group-Leaves w (ok packet) = dropped-IsSound true
    finish_group-Leaves w (err e) = dropped-IsSound false
    finish_group-Leaves w panic = tt

    settle-Leaves :
        (w : W) (total : Option ℕ)
        → complete_len g' ≡ total
        → Leaves (settle visit key g' (store_group key g' duplicate b) w total)
    unfolding settle
    settle-Leaves w none e = stored-IsSound e
    settle-Leaves w (some total) e = finish_group-Leaves w (reassemble visit g' total)

  add_fragment-Leaves :
      (visit : Visit) (now : ℕ) (h : Header) (frag : List ℕ) (b : ReassemblyBuffer W) (w : W)
      → IsSound b
      → parse_header frag ≡ ok h
      → is_fragment h ≡ true
      → Leaves (add_fragment visit now h frag b w)
  unfolding add_fragment add_with store_group
  add_fragment-Leaves visit now h frag b w s parses fragmentary =
      let (s1, found, good) = group_of-HasGroup (fragment_key h) now b s in
      let g0 = (group_of (fragment_key h) now b).0 in
      let b1 = (group_of (fragment_key h) now b).1 in
      let g = add_to_group h frag g0 in
      settle-Leaves visit (fragment_key h) g0 g (is_duplicate h g0) b1 s1 found
        (add_to_group-IsGroup (fragment_key h) frag h parses refl fragmentary g0 good) w
        (complete_len g) refl

  add-Leaves :
      (visit : Visit) (now : ℕ) (frag : List ℕ) (b : ReassemblyBuffer W) (w : W)
      → IsSound b
      → Leaves (add visit now frag b w)
  unfolding add
  add-Leaves visit now frag b w s = opened (parse_header frag) refl
    where
      opened :
          (r : Result Error Header)
          → parse_header frag ≡ r
          → Leaves (
              r >>= λ h.
              if not (is_fragment h)
              then ok (b, b.on_complete frag w)
              else add_fragment visit now h frag b w)
      opened (ok h) e = elim (Bool-cases (is_fragment h)) [
        | inl f ↦ rw f (add_fragment-Leaves visit now h frag b w s e f)
        | inr f ↦ rw f s
      ]
      opened (err e') e = tt
      opened panic e = tt

  cleanup-IsSound : (now : ℕ) (b : ReassemblyBuffer W) → IsSound b → IsSound (cleanup now b)
  unfolding cleanup
  cleanup-IsSound now b s = record {
    counted = omega (arith, (evict-counts now b.groups b.stats 0 (omega (arith, s.counted))).0);
    groups_sound = evict-All IsGroup now b.groups b.stats s.groups_sound;
    waiting = evict-All IsWaiting now b.groups b.stats s.waiting;
    distinct = NoTwice-evict now b.groups b.stats s.distinct;
  }

-- In every buffer that `Add` and `cleanup` reach from a new one, the count of active groups is the
-- number of groups, and every group has fragments of its own key only, which parse, each under its
-- own fragment offset, has received exactly the bytes of their payloads, and is not complete; no
-- key has two groups.
pub Reached-IsSound :
    {W : Type 0} (on_complete : List ℕ → W → W) (b : ReassemblyBuffer W)
    → Reached on_complete b
    → IsSound b
unfolding new_reassembly_buffer
Reached-IsSound on_complete _ fresh = record {
  counted = refl;
  groups_sound = tt;
  waiting = tt;
  distinct = tt;
}
Reached-IsSound on_complete _ (added {b = b} visit now fragment w w' r e) =
    subst Leaves e (add-Leaves visit now fragment b w (Reached-IsSound on_complete b r))
Reached-IsSound on_complete _ (cleaned {b = b} now r) =
    cleanup-IsSound now b (Reached-IsSound on_complete b r)
