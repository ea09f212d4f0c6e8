-- ===== src/Ip/Reassembly/Rebuild.antt =====
-- `reassemble` of a group that holds all fragments of a packet.
use gonet.Prelude.{
  ℕ, ◌*◌, ◌<◌, ◌≡◌, sym, ap, ◌∙◌, ◌⊎◌, inl, inr, false, Option, some, List, [], ◌∷◌, ◌++◌, arith,
  ◌==◌, ==_iff, Bool-cases, length, All, ok,
}
use mathlib.Core.Path.{subst}
use gonet.Prelude.Dict.{find}
use gonet.Prelude.Rearranged.{Any, Rearranges, Rearranges-All, Rearranges-Any}
use gonet.Ip.Header.{Header, IsValid, header_len}
use gonet.Ip.Header.Wire.{wire, length-wire}
use gonet.Ip.Summed.{summed, summed-IsValid, marshal_summed, marshal_summed-wire}
use gonet.Ip.Reassembly.Group.{Visit, whole_header, rebuild, reassemble}
use gonet.Ip.Reassembly.Parts.{IsPart, Covers, copy_fragments-whole}
use gonet.Ip.Reassembly.Arrival.{IsArrival, group_with}

-- A rearranging order of visit.
abbrev pub IsOrder : Visit → Type 0
IsOrder visit = (entries : List (ℕ × List ℕ)) → Rearranges entries (visit entries)

module _ (h : Header) (whole : List ℕ) (good : IsValid (whole_header h (length whole))) where
  abbrev pub IsArrived : ℕ × List ℕ → Type 0
  IsArrived e = IsArrival h whole e.0 e.1

  find_first :
      (entries : List (ℕ × List ℕ))
      → All IsArrived entries
      → Any (Covers (h.ihl * 4) 0) entries
      → (first : List ℕ) × (find ◌==◌ 0 entries ≡ some first) × IsArrived (0, first)
  find_first [] arrived h = elim h [ ]
  find_first ((offset, frag) ∷ entries) arrived covered = elim (Bool-cases (0 == offset)) [
    | inl here ↦
        (frag, rw here, subst (λ o. IsArrived (o, frag)) (sym ((==_iff 0 offset).0 here)) arrived.0)
    | inr there ↦
        let (first, found, a) = find_first entries arrived.1 (later covered there) in
        (first, rw there found, a)
  ]
    where
      later :
          Covers (h.ihl * 4) 0 (offset, frag) ⊎ Any (Covers (h.ihl * 4) 0) entries
          → (0 == offset) ≡ false
          → Any (Covers (h.ihl * 4) 0) entries
      later (inl c) ne = absurd (ground arith)
      later (inr c) ne = c

  parts_of :
      (entries : List (ℕ × List ℕ))
      → All IsArrived entries
      → All (λ e. IsPart (h.ihl * 4) whole e.0 e.1) entries
  parts_of [] a = tt
  parts_of (e ∷ entries) a = (a.0.part, parts_of entries a.1)

  first_header :
      (offset : ℕ) (frag : List ℕ) (a : IsArrival h whole offset frag)
      → marshal_summed (whole_header a.part.header (length whole))
        ≡ ok (wire (summed (whole_header h (length whole))))
  unfolding marshal_summed
  first_header offset frag a =
      ap marshal_summed a.same ∙ marshal_summed-wire (whole_header h (length whole)) good

  module _ (visit : Visit) (order : IsOrder visit) (entries : List (ℕ × List ℕ))
      (arrived : All IsArrived entries)
      (covered : (i : ℕ) → i < length whole → Any (Covers (h.ihl * 4) i) entries) where
    rebuild-whole :
        (offset : ℕ) (frag : List ℕ) (a : IsArrival h whole offset frag)
        → rebuild visit a.part.header (length whole) entries
          ≡ ok (wire (summed (whole_header h (length whole))) ++ whole)
    unfolding rebuild header_len whole_header
    rebuild-whole offset frag a =
        rw (first_header offset frag a, a.part.header_skips)
          (copy_fragments-whole (h.ihl * 4) whole (visit entries)
            (wire (summed (whole_header h (length whole))))
            (Rearranges-All (λ e. IsPart (h.ihl * 4) whole e.0 e.1) (order entries)
              (parts_of entries arrived))
            (λ i lt. Rearranges-Any (Covers (h.ihl * 4) i) (order entries) (covered i lt))
            (length-wire (summed (whole_header h (length whole)))
              (summed-IsValid (whole_header h (length whole)) good)))

    pub reassemble-whole :
        (total : Option ℕ) (received now : ℕ)
        → 0 < length whole
        → reassemble visit (group_with entries total received now) (length whole)
          ≡ ok (wire (summed (whole_header h (length whole))) ++ whole)
    unfolding reassemble
    reassemble-whole total received now low =
        let (first, found, a) = find_first entries arrived (covered 0 low) in
        rw (reassemble, found, a.part.parses) (rebuild-whole 0 first a)
