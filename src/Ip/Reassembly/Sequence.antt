-- ===== src/Ip/Reassembly/Sequence.antt =====
-- All fragments of a packet arrive, one behind the other: the last one completes the group.
use gonet.Prelude.{
  ℕ, ◌+◌, ◌-◌, ◌*◌, ◌<◌, bit_and, ◌≡◌, refl, sym, ◌≢◌, ◌⊎◌, inl, inr, false, Option, none, some,
  List, [], ◌∷◌, ◌++◌, arith, ◌==◌, lt→ltb, eq→==, ne→==_false, Bool-cases, length, All, uint16_at,
}
use gonet.Prelude.Dict.{find}
use gonet.Prelude.Rearranged.{Any}
use gonet.Ip.Header.{Header}
use gonet.Ip.Reassembly.Group.{complete_len}
use gonet.Ip.Reassembly.Parts.{Covers, body, part_fits}
use gonet.Ip.Reassembly.Arrival.{IsArrival, total_after, group_with}

-- The fragment offset in the bytes of a fragment.
abbrev pub at : List ℕ → ℕ
at frag = bit_and (uint16_at frag 6) 0x1fff

abbrev pub entry : ℕ × List ℕ → ℕ × List ℕ
entry arrival = (at arrival.1, arrival.1)

find-append_ne :
    (o offset : ℕ) (frag : List ℕ) (entries : List (ℕ × List ℕ))
    → find ◌==◌ o entries ≡ none
    → o ≢ offset
    → find ◌==◌ o (entries ++ (offset, frag) ∷ []) ≡ none
find-append_ne o offset frag [] h ne = rw (ne→==_false o offset ne)
find-append_ne o offset frag ((j, f) ∷ entries) h ne =
    ground (arith, find-append_ne o offset frag entries)

abbrev pub IsNew : List (ℕ × List ℕ) → ℕ × List ℕ → Type 0
IsNew entries arrival = find ◌==◌ (at arrival.1) entries ≡ none

pub still-IsNew :
    (arrival : ℕ × List ℕ) (entries todo : List (ℕ × List ℕ))
    → All (IsNew entries) todo
    → All (λ a. at arrival.1 ≢ at a.1) todo
    → All (IsNew (entries ++ entry arrival ∷ [])) todo
still-IsNew arrival entries [] h ne = tt
still-IsNew arrival entries (a ∷ todo) h ne = (
  find-append_ne (at a.1) (at arrival.1) arrival.1 entries h.0 (λ e. ne.0 (sym e)),
  still-IsNew arrival entries todo h.1 ne.1,
)

module _ (h : Header) (whole : List ℕ) where
  abbrev pub Arrives : ℕ × List ℕ → Type 0
  Arrives arrival = IsArrival h whole (at arrival.1) arrival.1

  abbrev pub carried : ℕ × List ℕ → ℕ
  carried arrival = length (body (h.ihl * 4) arrival.1)

  -- The arrival that has the last byte.
  abbrev pub HasEnd : ℕ × List ℕ → Type 0
  HasEnd arrival = Covers (h.ihl * 4) (length whole - 1) (entry arrival)

  abbrev pub after_it : ℕ × List ℕ → Option ℕ → Option ℕ
  after_it arrival old = total_after h whole (at arrival.1) arrival.1 old

  pub known_or_not :
      (arrival : ℕ × List ℕ) (old : Option ℕ)
      → (old ≡ none) ⊎ (old ≡ some (length whole))
      → (after_it arrival old ≡ none) ⊎ (after_it arrival old ≡ some (length whole))
  known_or_not arrival old k =
      elim (Bool-cases (at arrival.1 * 8 + carried arrival == length whole)) [
        | inl end ↦ inr (rw end)
        | inr more ↦ rw more k
      ]

  pub known_by :
      (arrival : ℕ × List ℕ) (old : Option ℕ) (todo : List (ℕ × List ℕ))
      → Arrives arrival
      → (old ≡ some (length whole)) ⊎ (HasEnd arrival ⊎ Any HasEnd todo)
      → (after_it arrival old ≡ some (length whole)) ⊎ Any HasEnd todo
  known_by arrival old todo a k =
      elim (Bool-cases (at arrival.1 * 8 + carried arrival == length whole)) [
        | inl end ↦ inl (rw end)
        | inr more ↦ by_rest more k
      ]
    where
      by_rest :
          (at arrival.1 * 8 + carried arrival == length whole) ≡ false
          → (old ≡ some (length whole)) ⊎ (HasEnd arrival ⊎ Any HasEnd todo)
          → (after_it arrival old ≡ some (length whole)) ⊎ Any HasEnd todo
      by_rest more (inl known) = inl (rw more known)
      by_rest more (inr (inl c)) =
          absurd (ground (arith, part_fits (h.ihl * 4) whole (at arrival.1) arrival.1 a.part))
      by_rest more (inr (inr c)) = inr c

  pub complete_len-early :
      (entries : List (ℕ × List ℕ)) (total : Option ℕ) (received since : ℕ)
      → (total ≡ none) ⊎ (total ≡ some (length whole))
      → received < length whole
      → complete_len (group_with entries total received since) ≡ none
  unfolding complete_len
  complete_len-early entries total received since (inl absent) less = rw absent refl
  complete_len-early entries total received since (inr known) less =
      rw
        (
          known,
          lt→ltb 0 (length whole) (omega arith),
          ne→==_false received (length whole) (λ e. omega (arith, e)),
        )
        refl

  pub complete_len-done :
      (entries : List (ℕ × List ℕ)) (since : ℕ)
      → 0 < length whole
      → complete_len (group_with entries (some (length whole)) (length whole) since)
        ≡ some (length whole)
  unfolding complete_len
  complete_len-done entries since low =
      rw (lt→ltb 0 (length whole) low, eq→== (length whole) (length whole) refl)
