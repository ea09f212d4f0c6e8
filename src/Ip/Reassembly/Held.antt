-- ===== src/Ip/Reassembly/Held.antt =====
-- What the groups of the reassembly buffer hold, with the times at which it arrived: through `Add` and
-- `cleanup`.
use gonet.Prelude.{
  ℕ, ◌+◌, ◌≤◌, ◌≡◌, refl, sym, inl, inr, Bool, not, ◌==◌, Option, none, some, List, [], ◌∷◌, arith,
  if◌then◌else◌, Bool-cases, Option-cases, All, Result, ok, err, panic, ◌>>=◌,
}
use gonet.Prelude.Rearranged.{Any}
use gonet.Prelude.Dict.{find, All-insert, All-erase, find-All}
use mathlib.Core.Path.{subst}
use gonet.Ip.Reassembly.Keys.{same_fragment_key-eq}
use gonet.Ip.Reassembly.Sound.{group_of-present, group_of-absent}
use gonet.Ip.Errors.{Error}
use gonet.Ip.Header.{Header, parse_header}
use gonet.Ip.Reassembly.Group.{
  FragmentGroup, Visit, reassemble, new_group, put_fragment, add_to_group, is_duplicate,
  complete_len,
}
use gonet.Ip.Reassembly.{
  FragmentKey, ReassemblyBuffer, same_fragment_key, fragment_key, is_fragment, group_of,
  store_group, drop_group, finish_group, settle, add_with, add_fragment, add,
}
use gonet.Ip.Reassembly.Evict.{IsStale, Without, nothing, leave, retain}

-- A fragment that arrived at this time or later.
abbrev ArrivedSince : ℕ → List (ℕ × List ℕ) → List ℕ → Type 0
ArrivedSince since past frag = Any (λ a. (a.1 ≡ frag) × (since ≤ a.0)) past

-- A group behind a tick at `last`: it is young, and its fragments came since it was made.
abbrev pub Held : ℕ → ℕ → List (ℕ × List ℕ) → FragmentGroup → Type 0
Held last now past g =
    (last ≤ g.created_at + 30000000000)
    × (g.created_at ≤ now)
    × All (λ e. ArrivedSince g.created_at past e.1) g.fragments

module _ {W : Type 0} (Q : FragmentGroup → Type 0) where
  abbrev pub Made : Result Error (ReassemblyBuffer W × W) → Type 0
  Made (ok (b, w)) = All (λ e. Q e.1) b.groups
  Made (err e) = Unit {0}
  Made panic = Unit {0}

  module _ (visit : Visit) (key : FragmentKey) (g : FragmentGroup) (duplicate : Bool)
      (b : ReassemblyBuffer W) (good : Q g) (all : All (λ e. Q e.1) b.groups) where
    stored-Made : All (λ e. Q e.1) (store_group key g duplicate b).groups
    unfolding store_group
    stored-Made = All-insert same_fragment_key (λ e. Q e.1) key g b.groups good all

    finish_group-Made :
        (w : W) (r : Result Error (List ℕ))
        → Made (finish_group key (store_group key g duplicate b) w r)
    unfolding finish_group drop_group
    finish_group-Made w (ok packet) = All-erase same_fragment_key (λ e. Q e.1) key _ stored-Made
    finish_group-Made w (err e) = All-erase same_fragment_key (λ e. Q e.1) key _ stored-Made
    finish_group-Made w panic = tt

    settle-Made :
        (w : W) (total : Option ℕ)
        → Made (settle visit key g (store_group key g duplicate b) w total)
    unfolding settle
    settle-Made w none = stored-Made
    settle-Made w (some total) = finish_group-Made w (reassemble visit g total)

  -- What `group_of` returns.
  abbrev GroupMade : FragmentGroup × ReassemblyBuffer W → Type 0
  GroupMade (g, b) = Q g × All (λ e. Q e.1) b.groups

  group_of-Made :
      (key : FragmentKey) (now : ℕ) (b : ReassemblyBuffer W)
      → Q (new_group now)
      → All (λ e. Q e.1) b.groups
      → GroupMade (group_of key now b)
  group_of-Made key now b fresh all = elim (Option-cases (find same_fragment_key key b.groups)) [
    | inl absent ↦
        subst GroupMade (sym (group_of-absent key now b absent))
          (fresh, All-insert same_fragment_key (λ e. Q e.1) key (new_group now) b.groups fresh all)
    | inr (g, present) ↦ subst GroupMade (sym (group_of-present key now b g present)) (
      find-All same_fragment_key (λ e. Q e.1) key g b.groups (same_fragment_key-eq key) present all,
      all,
    )
  ]

  pub add-Made :
      (visit : Visit) (now : ℕ) (frag : List ℕ) (b : ReassemblyBuffer W) (w : W)
      → Q (new_group now)
      → ((h : Header) (g : FragmentGroup) → Q g → Q (add_to_group h frag g))
      → All (λ e. Q e.1) b.groups
      → Made (add visit now frag b w)
  unfolding add add_fragment add_with
  add-Made visit now frag b w fresh grows all = opened (parse_header frag)
    where
      fragmentary : (h : Header) → Made (add_fragment visit now h frag b w)
      fragmentary h =
          let (g0, b1) = group_of (fragment_key h) now b in
          let (good, all1) = group_of-Made (fragment_key h) now b fresh all in
          settle-Made visit (fragment_key h) (add_to_group h frag g0) (is_duplicate h g0) b1
            (grows h g0 good) all1 w (complete_len (add_to_group h frag g0))

      opened :
          (r : Result Error Header)
          → Made (
              r >>= λ h.
              if not (is_fragment h)
              then ok (b, b.on_complete frag w)
              else add_fragment visit now h frag b w)
      opened (ok h) = elim (Bool-cases (is_fragment h)) [
        | inl f ↦ rw f (fragmentary h)
        | inr f ↦ rw f all
      ]
      opened (err e) = tt
      opened panic = tt

module _ (last now : ℕ) (past : List (ℕ × List ℕ)) where
  put_fragment-Held :
      (h : Header) (frag : List ℕ) (n : ℕ) (total : Option ℕ) (g : FragmentGroup)
      (old : Option (List ℕ))
      → Held last now ((now, frag) ∷ past) g
      → Held last now ((now, frag) ∷ past) (put_fragment h frag n total g old)
  unfolding put_fragment
  put_fragment-Held h frag n total g none (young, made, all) = (
    young,
    made,
    All-insert ◌==◌ (λ e. ArrivedSince g.created_at ((now, frag) ∷ past) e.1) h.frag_offset frag
        g.fragments (inl (refl, made)) all,
  )
  put_fragment-Held h frag n total g (some old) held = held

  pub add_to_group-Held :
      (h : Header) (frag : List ℕ) (g : FragmentGroup)
      → Held last now ((now, frag) ∷ past) g
      → Held last now ((now, frag) ∷ past) (add_to_group h frag g)
  unfolding add_to_group
  add_to_group-Held h frag g held = put_fragment-Held h frag _ _ g _ held

  -- Later, with one arrival more.
  fragments_later :
      (since : ℕ) (a : ℕ × List ℕ) (entries : List (ℕ × List ℕ))
      → All (λ e. ArrivedSince since past e.1) entries
      → All (λ e. ArrivedSince since (a ∷ past) e.1) entries
  fragments_later since a [] h = tt
  fragments_later since a (e ∷ entries) h = (inr h.0, fragments_later since a entries h.1)

  pub groups_later :
      (t : ℕ) (frag : List ℕ) (groups : List (FragmentKey × FragmentGroup))
      → now ≤ t
      → All (λ e. Held last now past e.1) groups
      → All (λ e. Held last t ((t, frag) ∷ past) e.1) groups
  groups_later t frag [] le h = tt
  groups_later t frag (e ∷ groups) le ((young, made, all), more) = (
    (young, omega (arith, made, le), fragments_later e.1.created_at (t, frag) e.1.fragments all),
    groups_later t frag groups le more,
  )

  -- The groups that `cleanup` leaves at a tick.
  pub ticked :
      (t : ℕ)
      → now ≤ t
      → {groups left : List (FragmentKey × FragmentGroup)} → Without (IsStale t) groups left
      → All (λ e. Held last now past e.1) groups
      → All (λ e. Held t t past e.1) left
  ticked t le nothing h = tt
  ticked t le (leave p rest) h = ticked t le rest h.1
  ticked t le (retain {x = x} p rest) h =
      ((bound x p, omega (arith, h.0.1, le), h.0.2), ticked t le rest h.1)
    where
      bound : (e : FragmentKey × FragmentGroup) → ¬ IsStale t e → t ≤ e.1.created_at + 30000000000
      bound e fine = ground (arith, fine)

-- What a group holds at the time `end`: it was made at most 40 seconds ago, and each of its
-- fragments arrived at most 40 seconds ago.
abbrev pub IsRecent : ℕ → List (ℕ × List ℕ) → FragmentGroup → Type 0
IsRecent end past g =
    (end ≤ g.created_at + 40000000000)
    × All (λ e. Any (λ a. (a.1 ≡ e.1) × (end ≤ a.0 + 40000000000)) past) g.fragments

recent_fragments :
    (since end : ℕ) (past : List (ℕ × List ℕ)) (entries : List (ℕ × List ℕ))
    → end ≤ since + 40000000000
    → All (λ e. ArrivedSince since past e.1) entries
    → All (λ e. Any (λ a. (a.1 ≡ e.1) × (end ≤ a.0 + 40000000000)) past) entries
recent_fragments since end past [] le h = tt
recent_fragments since end past (e ∷ entries) le h =
    (seen past h.0, recent_fragments since end past entries le h.1)
  where
    seen :
        (ks : List (ℕ × List ℕ))
        → ArrivedSince since ks e.1
        → Any (λ a. (a.1 ≡ e.1) × (end ≤ a.0 + 40000000000)) ks
    seen [] none_came = absurd none_came
    seen (a ∷ ks) (inl (same, later)) = inl (same, omega (arith, le, later))
    seen (a ∷ ks) (inr before) = inr (seen ks before)

pub IsRecent-groups :
    (last now end : ℕ) (past : List (ℕ × List ℕ)) (groups : List (FragmentKey × FragmentGroup))
    → end ≤ last + 10000000000
    → All (λ e. Held last now past e.1) groups
    → All (λ e. IsRecent end past e.1) groups
IsRecent-groups last now end past [] le h = tt
IsRecent-groups last now end past (e ∷ groups) le ((young, made, all), more) = (
  (
    omega (arith, le, young),
    recent_fragments e.1.created_at end past e.1.fragments (omega (arith, le, young)) all,
  ),
  IsRecent-groups last now end past groups le more,
)
