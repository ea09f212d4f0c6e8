-- ===== src/Ip/Reassembly/Filling.antt =====
-- The last of the fragments of a packet completes its group, whatever their order.
use gonet.Prelude.{
  ℕ, ◌+◌, ◌<◌, ◌≡◌, refl, ap, ◌∙◌, ◌⊎◌, inl, inr, true, Option, none, some, List, [], ◌∷◌, ◌++◌,
  map, arith, length, All, Result, ok, err, panic, ◌>>=◌,
}
use gonet.Prelude.Rearranged.{Any, sum_by, IsDistinct}
use gonet.Prelude.Dict.{find}
use gonet.Ip.Errors.{Error}
use gonet.Ip.Header.{Header}
use gonet.Ip.Reassembly.Group.{FragmentGroup, Visit, complete_len}
use gonet.Ip.Reassembly.{
  FragmentKey, ReassemblyBuffer, same_fragment_key, fragment_key, group_of, settle, add, add_all,
}
use gonet.Ip.Reassembly.Arrival.{group_with, holding, group_of-holding, add-arrival}
use gonet.Ip.Reassembly.Sequence.{
  at, entry, IsNew, still-IsNew, Arrives, carried, HasEnd, after_it, known_or_not, known_by,
  complete_len-early, complete_len-done,
}

>>=-ok : {A : Type 0} (r : Result Error A) → (r >>= λ x. ok x) ≡ r
>>=-ok (ok x) = refl
>>=-ok (err e) = refl
>>=-ok panic = refl

append_one :
    (es : List (ℕ × List ℕ)) (e : ℕ × List ℕ) (more : List (ℕ × List ℕ))
    → (es ++ e ∷ []) ++ more ≡ es ++ e ∷ more
append_one [] e more = refl
append_one (x ∷ es) e more = ap (λ xs. x ∷ xs) (append_one es e more)

module _ {W : Type 0} (b : ReassemblyBuffer W) (key : FragmentKey)
    (self : same_fragment_key key key ≡ true) (free : find same_fragment_key key b.groups ≡ none)
    (visit : Visit) (h : Header) (whole : List ℕ) (keyed : key ≡ fragment_key h) (since : ℕ)
    (w : W) where
  -- The group once all of them are there.
  abbrev pub full : List (ℕ × List ℕ) → FragmentGroup
  full entries = group_with entries (some (length whole)) (length whole) since

  abbrev pub settled : List (ℕ × List ℕ) → ℕ → Result Error (ReassemblyBuffer W × W)
  settled entries n =
      settle visit key (full entries) (holding b key (full entries) n) w (some (length whole))

  module _ (now : ℕ) (frag : List ℕ) (entries : List (ℕ × List ℕ)) (total : Option ℕ)
      (received n : ℕ) (start : ReassemblyBuffer W)
      (at_hand : group_of key now start ≡ (
        group_with entries total received since,
        holding b key (group_with entries total received since) n,
      ))
      (a : Arrives h whole (now, frag)) (new : IsNew entries (now, frag)) where
    abbrev grown : FragmentGroup
    grown =
        group_with (entries ++ (at frag, frag) ∷ []) (after_it h whole (now, frag) total)
          (received + carried h whole (now, frag)) since

    add-grown :
        add visit now frag start w
        ≡ settle visit key grown (holding b key grown (n + 1)) w (complete_len grown)
    add-grown =
        add-arrival b key self free visit now h whole (at frag) frag entries total received since n
          start w a keyed new at_hand

    add_last :
        after_it h whole (now, frag) total ≡ some (length whole)
        → received + (carried h whole (now, frag) + 0) ≡ length whole
        → add visit now frag start w ≡ settled (entries ++ (at frag, frag) ∷ []) (n + 1)
    add_last known sum =
        add-grown
        ∙ (λ i.
            settle visit key (done i) (holding b key (done i) (n + 1)) w (complete_len (done i)))
        ∙ ap (settle visit key (done 1) (holding b key (done 1) (n + 1)) w) (
            complete_len-done h whole (entries ++ (at frag, frag) ∷ []) since
              (omega (arith, sum, a.nonempty)))
      where
        count : received + carried h whole (now, frag) ≡ length whole
        count = omega (arith, sum)

        done : grown ≡ full (entries ++ (at frag, frag) ∷ [])
        done = λ i. group_with (entries ++ (at frag, frag) ∷ []) (known i) (count i) since

    add_early :
        (total ≡ none) ⊎ (total ≡ some (length whole))
        → received + carried h whole (now, frag) < length whole
        → add visit now frag start w ≡ ok (holding b key grown (n + 1), w)
    unfolding settle
    add_early seen less =
        add-grown
        ∙ ap (settle visit key grown (holding b key grown (n + 1)) w) (
            complete_len-early h whole (entries ++ (at frag, frag) ∷ [])
              (after_it h whole (now, frag) total) (received + carried h whole (now, frag)) since
              (known_or_not h whole (now, frag) total seen) less)

  pub add_all-settled :
      (todo : List (ℕ × List ℕ)) (now : ℕ) (frag : List ℕ) (entries : List (ℕ × List ℕ))
      (total : Option ℕ) (received n : ℕ) (start : ReassemblyBuffer W)
      → group_of key now start ≡ (
        group_with entries total received since,
        holding b key (group_with entries total received since) n,
      )
      → All (Arrives h whole) ((now, frag) ∷ todo)
      → All (IsNew entries) ((now, frag) ∷ todo)
      → IsDistinct (λ a. at a.1) ((now, frag) ∷ todo)
      → received + sum_by (carried h whole) ((now, frag) ∷ todo) ≡ length whole
      → (total ≡ none) ⊎ (total ≡ some (length whole))
      → (total ≡ some (length whole)) ⊎ Any (HasEnd h whole) ((now, frag) ∷ todo)
      → add_all visit ((now, frag) ∷ todo) start w
        ≡ settled (entries ++ map entry ((now, frag) ∷ todo)) (n + length ((now, frag) ∷ todo))
  unfolding add_all
  add_all-settled [] now frag entries total received n start at_hand arrives new distinct sum seen
        known =
      >>=-ok (add visit now frag start w)
      ∙ add_last now frag entries total received n start at_hand arrives.0 new.0
          (last (known_by h whole (now, frag) total [] arrives.0 known)) sum
    where
      last :
          (after_it h whole (now, frag) total ≡ some (length whole)) ⊎ ⊥
          → after_it h whole (now, frag) total ≡ some (length whole)
      last (inl k) = k
      last (inr k) = absurd k
  add_all-settled ((now', frag') ∷ todo) now frag entries total received n start at_hand arrives new
        distinct sum seen known =
      ap (λ r. r >>= λ (b', w'). add_all visit ((now', frag') ∷ todo) b' w')
        (add_early now frag entries total received n start at_hand arrives.0 new.0 seen
          (omega (arith, sum, arrives.1.0.nonempty)))
      ∙ add_all-settled todo now' frag' (entries ++ (at frag, frag) ∷ [])
          (after_it h whole (now, frag) total) (received + carried h whole (now, frag)) (n + 1)
          (holding b key group (n + 1)) (group_of-holding b key self free now' (n + 1) group)
          arrives.1 (still-IsNew (now, frag) entries ((now', frag') ∷ todo) new.1 distinct.0)
          distinct.1 (omega (arith, sum)) (known_or_not h whole (now, frag) total seen)
          (known_by h whole (now, frag) total ((now', frag') ∷ todo) arrives.0 known)
      ∙ (λ i.
          settled (append_one entries (at frag, frag) (map entry ((now', frag') ∷ todo)) i)
            (counts i))
    where
      group : FragmentGroup
      group =
          group_with (entries ++ (at frag, frag) ∷ []) (after_it h whole (now, frag) total)
            (received + carried h whole (now, frag)) since

      counts :
          n + 1 + length ((now', frag') ∷ todo) ≡ n + length ((now, frag) ∷ (now', frag') ∷ todo)
      counts = omega arith
