-- ===== src/Ip/Reassembly/OneAdd.antt =====
-- One call of `Add` against the reassemblers: only that of the fragment's key moves.
use gonet.Prelude.{
  ℕ, ◌≡◌, refl, sym, ◌∙◌, inl, inr, Bool, true, false, not, Option, none, some, List, [], ◌∷◌,
  if◌then◌else◌, Bool-cases, Option-cases, Result, ok, err, panic, ◌>>=◌,
}
use mathlib.Core.Path.{subst, fun_ext}
use gonet.Prelude.Dict.{find, insert, erase}
use gonet.Prelude.DictLaws.{find-insert_if, find-erase_if, NoTwice-insert}
use gonet.Ip.Errors.{Error}
use gonet.Ip.Header.{Header, parse_header}
use gonet.Ip.Reassembly.Group.{
  FragmentGroup, Visit, reassemble, new_group, add_to_group, is_duplicate, complete_len,
}
use gonet.Ip.Reassembly.{
  FragmentKey, ReassemblyBuffer, same_fragment_key, fragment_key, is_fragment, group_of,
  store_group, drop_group, finish_group, settle, add_with, add_fragment, add,
}
use gonet.Ip.Reassembly.Keys.{same_fragment_key_refl, same_fragment_key-eq}
use gonet.Ip.Reassembly.Sound.{IsSound, group_of-present, group_of-absent, group_of-HasGroup}
use gonet.Ip.Reassembly.Machines.{
  Machines, Delivery, group_or_new, emptied, settled_machine, machine, updated, react_key,
  react_header, react,
}

if_else :
    {A : Type 0} (c : Bool) (x a b : A)
    → (c ≡ false → a ≡ b)
    → (if c then x else a) ≡ (if c then x else b)
if_else true x a b h = refl
if_else false x a b h = h refl

module _ {W : Type 0} where
  abbrev pub held_by : ReassemblyBuffer W → Machines
  held_by b k = find same_fragment_key k b.groups

  -- The callback, for each delivery in turn.
  abbrev pub deliver : (List ℕ → W → W) → List Delivery → W → W
  deliver on_complete [] w = w
  deliver on_complete ((key, packet) ∷ outs) w = deliver on_complete outs (on_complete packet w)

  -- The buffer's result is that of the reassemblers, with its deliveries done.
  abbrev pub Implements :
      ReassemblyBuffer W
      → W
      → Result Error (Machines × List Delivery)
      → Result Error (ReassemblyBuffer W × W)
      → Type 0
  Implements b w (ok (s, outs)) r =
      (b' : ReassemblyBuffer W) × (r ≡ ok (b', deliver b.on_complete outs w))
      × (held_by b' ≡ s)
      × (b'.on_complete ≡ b.on_complete)
  Implements b w (err e) r = r ≡ err e
  Implements b w panic r = r ≡ panic

  -- The group of the key becomes `g`, or goes.
  module _ (key : FragmentKey) (g : FragmentGroup) (duplicate : Bool) (b : ReassemblyBuffer W)
      (s : IsSound b) (others : Machines)
      (agree : (k : FragmentKey) → same_fragment_key k key ≡ false → held_by b k ≡ others k) where
    found_stored :
        (k : FragmentKey)
        → find same_fragment_key k (insert same_fragment_key key g b.groups)
          ≡ updated key (some g) others k
    found_stored k =
        find-insert_if same_fragment_key same_fragment_key_refl same_fragment_key-eq k key g
          b.groups
        ∙ if_else (same_fragment_key k key) (some g) (held_by b k) (others k) (agree k)

    stored-held_by : held_by (store_group key g duplicate b) ≡ updated key (some g) others
    unfolding store_group
    stored-held_by = fun_ext found_stored

    found_dropped :
        (k : FragmentKey)
        → find same_fragment_key k
            (erase same_fragment_key key (insert same_fragment_key key g b.groups))
          ≡ updated key none others k
    found_dropped k =
        find-erase_if same_fragment_key same_fragment_key_refl same_fragment_key-eq k key
          (insert same_fragment_key key g b.groups)
          (NoTwice-insert same_fragment_key same_fragment_key_refl same_fragment_key-eq key g
            b.groups s.distinct)
        ∙ if_else (same_fragment_key k key) none
            (find same_fragment_key k (insert same_fragment_key key g b.groups)) (others k)
            (λ other. found_stored k ∙ rw other refl)

    dropped-held_by :
        (done : Bool)
        → held_by (drop_group key done (store_group key g duplicate b)) ≡ updated key none others
    unfolding store_group drop_group
    dropped-held_by done = fun_ext found_dropped

  module _ (visit : Visit) (key : FragmentKey) (g : FragmentGroup) (duplicate : Bool)
      (b b1 : ReassemblyBuffer W) (w : W) (s : IsSound b1)
      (same_callback : b1.on_complete ≡ b.on_complete)
      (agree : (k : FragmentKey)
        → same_fragment_key k key ≡ false
        → held_by b1 k ≡ held_by b k) where
    finish_group-Implements :
        (r : Result Error (List ℕ))
        → Implements b w
            (react_key key (held_by b) (emptied r))
            (finish_group key (store_group key g duplicate b1) w r)
    unfolding finish_group drop_group store_group
    finish_group-Implements (ok packet) = (
      drop_group key true (store_group key g duplicate b1),
      (λ i. ok (drop_group key true (store_group key g duplicate b1), same_callback i packet w)),
      dropped-held_by key g duplicate b1 s (held_by b) agree true,
      same_callback,
    )
    finish_group-Implements (err e) = (
      drop_group key false (store_group key g duplicate b1),
      refl,
      dropped-held_by key g duplicate b1 s (held_by b) agree false,
      same_callback,
    )
    finish_group-Implements panic = refl

    settle-Implements :
        (total : Option ℕ)
        → Implements b w
            (react_key key (held_by b) (settled_machine visit g total))
            (settle visit key g (store_group key g duplicate b1) w total)
    unfolding settle store_group
    settle-Implements none = (
      store_group key g duplicate b1,
      refl,
      stored-held_by key g duplicate b1 s (held_by b) agree,
      same_callback,
    )
    settle-Implements (some total) = finish_group-Implements (reassemble visit g total)

  -- What `group_of` finds or makes.
  abbrev Prepares :
      FragmentKey → ℕ → ReassemblyBuffer W → FragmentGroup × ReassemblyBuffer W → Type 0
  Prepares key now b (g, b1) =
      (g ≡ group_or_new now (held_by b key))
      × (b1.on_complete ≡ b.on_complete)
      × ((k : FragmentKey) → same_fragment_key k key ≡ false → held_by b1 k ≡ held_by b k)

  group_of-Prepares :
      (key : FragmentKey) (now : ℕ) (b : ReassemblyBuffer W)
      → Prepares key now b (group_of key now b)
  group_of-Prepares key now b = elim (Option-cases (find same_fragment_key key b.groups)) [
    | inl absent ↦ subst (Prepares key now b) (sym (group_of-absent key now b absent)) (
      rw absent refl,
      refl,
      λ k other.
          find-insert_if same_fragment_key same_fragment_key_refl same_fragment_key-eq k key
            (new_group now) b.groups
          ∙ rw other refl,
    )
    | inr (g, present) ↦
        subst (Prepares key now b) (sym (group_of-present key now b g present))
          (rw present refl, refl, λ k other. refl)
  ]

  add_fragment-Implements :
      (visit : Visit) (now : ℕ) (h : Header) (frag : List ℕ) (b : ReassemblyBuffer W) (w : W)
      → IsSound b
      → Implements b w
          (react_key
            (fragment_key h)
            (held_by b)
            (machine visit now h frag (held_by b (fragment_key h))))
          (add_fragment visit now h frag b w)
  unfolding add_fragment add_with
  add_fragment-Implements visit now h frag b w s =
      let (g0, b1) = group_of (fragment_key h) now b in
      let (is_held, same_callback, agree) = group_of-Prepares (fragment_key h) now b in
      let (s1, found, good) = group_of-HasGroup (fragment_key h) now b s in
      let g = add_to_group h frag g0 in
      subst
        (λ x.
          Implements b w
            (react_key (fragment_key h) (held_by b)
              (let y = add_to_group h frag x in settled_machine visit y (complete_len y)))
            (add_with visit h frag (fragment_key h) w (g0, b1)))
        is_held
        (settle-Implements visit (fragment_key h) g (is_duplicate h g0) b b1 w s1 same_callback
          agree (complete_len g))

  pub add-Implements :
      (visit : Visit) (now : ℕ) (frag : List ℕ) (b : ReassemblyBuffer W) (w : W)
      → IsSound b
      → Implements b w (react visit now frag (held_by b)) (add visit now frag b w)
  unfolding add
  add-Implements visit now frag b w s = by_header (parse_header frag)
    where
      by_header :
          (r : Result Error Header)
          → Implements b w (r >>= λ h. react_header visit now frag (held_by b) h) (
              r >>= λ h.
              if not (is_fragment h)
              then ok (b, b.on_complete frag w)
              else add_fragment visit now h frag b w)
      by_header (ok h) = elim (Bool-cases (is_fragment h)) [
        | inl f ↦ rw f (add_fragment-Implements visit now h frag b w s)
        | inr f ↦ rw f (b, refl, refl, refl)
      ]
      by_header (err e) = refl
      by_header panic = refl
