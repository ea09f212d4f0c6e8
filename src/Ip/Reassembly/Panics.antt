-- ===== src/Ip/Reassembly/Panics.antt =====
-- `reassemble` of a group with a fragment that lies behind the end of the packet.
use gonet.Prelude.{
  ℕ, ◌+◌, ◌*◌, ◌≤◌, ◌<◌, ◌≡◌, refl, sym, ◌∙◌, ◌⊎◌, inl, inr, some, List, [], ◌∷◌, arith, ltb, ◌==◌,
  ltb→lt, ltb_false→le, Bool-cases, length, replicate, length-replicate, Result, ok, err, panic,
  copy,
}
use mathlib.Core.Path.{subst}
use gonet.Prelude.Pasted.{pasted, copy_from-pasted, copy_from-beyond, length-pasted, length-copy}
use gonet.Prelude.Rearranged.{Any, Rearranges-Any}
use gonet.Prelude.Dict.{find}
use gonet.Ip.Errors.{Error}
use gonet.Ip.Header.{Header, IsValid, parse_header, header_len, payload}
use gonet.Ip.Summed.{marshal_summed-wire, summed}
use gonet.Ip.Header.Wire.{wire}
use gonet.Ip.Reassembly.Group.{
  FragmentGroup, Visit, whole_header, copy_fragment, copy_fragments, rebuild, reassemble,
}
use gonet.Ip.Reassembly.Rebuild.{IsOrder}

-- An entry whose offset lies behind the end of a buffer.
abbrev pub IsBeyond : ℕ → ℕ → ℕ × List ℕ → Type 0
IsBeyond skip size e = size < skip + e.0 * 8

copy_fragment_cases :
    (skip offset : ℕ) (frag buf : List ℕ)
    → (copy_fragment skip offset frag buf ≡ panic)
      ⊎ ((out : List ℕ) × (copy_fragment skip offset frag buf ≡ ok out)
          × (length out ≡ length buf)
          × (skip + offset * 8 ≤ length buf))
unfolding copy_fragment
copy_fragment_cases skip offset frag buf = parsed (parse_header frag) refl
  where
    parsed :
        (r : Result Error Header)
        → parse_header frag ≡ r
        → (copy_fragment skip offset frag buf ≡ panic)
          ⊎ ((out : List ℕ) × (copy_fragment skip offset frag buf ≡ ok out)
              × (length out ≡ length buf)
              × (skip + offset * 8 ≤ length buf))
    parsed (ok h) e = elim (Bool-cases (ltb (length buf) (skip + offset * 8))) [
      | inl beyond ↦ inl (
          rw (copy_fragment, e)
            (copy_from-beyond (skip + offset * 8) (payload h frag) buf
              (ltb→lt (length buf) (skip + offset * 8) beyond)))
      | inr inside ↦ inr (
        pasted (skip + offset * 8) (payload h frag) buf,
        rw (copy_fragment, e)
            (copy_from-pasted (skip + offset * 8) (payload h frag) buf
              (ltb_false→le (length buf) (skip + offset * 8) inside)),
        length-pasted (skip + offset * 8) (payload h frag) buf,
        ltb_false→le (length buf) (skip + offset * 8) inside,
      )
    ]
    parsed (err e') e = inl (rw (copy_fragment, e) refl)
    parsed panic e = inl (rw (copy_fragment, e) refl)

copy_fragments_beyond :
    (skip : ℕ) (entries : List (ℕ × List ℕ)) (buf : List ℕ)
    → Any (IsBeyond skip (length buf)) entries
    → copy_fragments skip entries buf ≡ panic
unfolding copy_fragments
copy_fragments_beyond skip [] buf h = elim h [ ]
copy_fragments_beyond skip ((offset, frag) ∷ entries) buf h =
    elim (copy_fragment_cases skip offset frag buf) [
      | inl stops ↦ rw stops refl
      | inr (out, copies, len, inside) ↦ rw copies (
          copy_fragments_beyond skip entries out
            (subst (λ n. Any (IsBeyond skip n) entries) (sym len) (rest h inside)))
    ]
  where
    rest :
        IsBeyond skip (length buf) (offset, frag) ⊎ Any (IsBeyond skip (length buf)) entries
        → skip + offset * 8 ≤ length buf
        → Any (IsBeyond skip (length buf)) entries
    rest (inl beyond) inside = absurd (omega arith)
    rest (inr later) inside = later

Any-IsBeyond :
    (skip total size : ℕ) (entries : List (ℕ × List ℕ))
    → size ≡ skip + total
    → Any (λ e. total < e.0 * 8) entries
    → Any (IsBeyond skip size) entries
Any-IsBeyond skip total size [] e h = elim h [ ]
Any-IsBeyond skip total size (x ∷ entries) e (inl h) = inl (omega arith)
Any-IsBeyond skip total size (x ∷ entries) e (inr h) =
    inr (Any-IsBeyond skip total size entries e h)

-- `reassemble` panics on a group with a first fragment and a fragment whose offset lies behind the
-- total length, in every order in which the map is visited, where the header of the whole packet is
-- valid.
pub reassemble_beyond :
    (visit : Visit) (group : FragmentGroup) (total : ℕ) (first : List ℕ) (h : Header)
    → IsOrder visit
    → find ◌==◌ 0 group.fragments ≡ some first
    → parse_header first ≡ ok h
    → IsValid (whole_header h total)
    → Any (λ e. total < e.0 * 8) group.fragments
    → reassemble visit group total ≡ panic
unfolding reassemble rebuild header_len
reassemble_beyond visit group total first h order found parses good beyond =
    rw (reassemble, found, parses, marshal_summed-wire (whole_header h total) good)
      (copy_fragments_beyond (h.ihl * 4) (visit group.fragments)
        (copy (replicate (h.ihl * 4 + total) 0) (wire (summed (whole_header h total))))
        (Rearranges-Any
          (IsBeyond (h.ihl * 4) (
            length (copy (replicate (h.ihl * 4 + total) 0) (wire (summed (whole_header h total))))))
          (order group.fragments)
          (Any-IsBeyond (h.ihl * 4) total
            (length (copy (replicate (h.ihl * 4 + total) 0) (wire (summed (whole_header h total)))))
            group.fragments
            (length-copy (replicate (h.ihl * 4 + total) 0) (wire (summed (whole_header h total)))
              ∙ length-replicate {A = ℕ} (h.ihl * 4 + total) 0)
            beyond)))
