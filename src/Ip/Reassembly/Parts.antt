-- ===== src/Ip/Reassembly/Parts.antt =====
-- Parts of one payload: copied in any order, they fill it.
use gonet.Prelude.{
  ℕ, ◌+◌, ◌-◌, ◌*◌, ◌≤◌, ◌<◌, ◌≡◌, refl, sym, ap, ◌∙◌, ◌⊎◌, inl, inr, List, [], ◌∷◌, ◌++◌, arith,
  ltb, ltb→lt, ltb_false→le, Bool-cases, length, get_or, take, drop, replicate, All, length-append,
  take-append-drop, length-drop, length-replicate, get_or-append, ok, copy,
}
use mathlib.Core.Path.{subst, ap₂}
use gonet.Prelude.Rearranged.{Any}
use gonet.Prelude.Pasted.{
  pasted, copy_from-pasted, length-pasted, get_or-pasted_in, get_or-pasted_behind,
  get_or-pasted_before, take-pasted, take-copy, length-copy, get_or-append_right, get_or-drop,
  eq_of_get_or,
}
use gonet.Ip.Header.{Header, parse_header}
use gonet.Ip.Dispatcher.Delivery.{payload-drop}
use gonet.Ip.Reassembly.Group.{copy_fragment, copy_fragments}

-- The bytes behind a header of `skip` bytes.
abbrev pub body : ℕ → List ℕ → List ℕ
body skip frag = drop skip frag

-- An entry of the map that carries bytes of `whole` at its offset.
pub record IsPart (skip : ℕ) (whole : List ℕ) (offset : ℕ) (frag : List ℕ) : Type 0 where
  pub header : Header
  pub before : List ℕ
  pub behind : List ℕ
  pub parses : parse_header frag ≡ ok header
  pub header_skips : header.ihl * 4 ≡ skip
  pub inside : whole ≡ before ++ (body skip frag ++ behind)
  pub starts : length before ≡ offset * 8

abbrev pub Covers : ℕ → ℕ → ℕ × List ℕ → Type 0
Covers skip i entry = (entry.0 * 8 ≤ i) × (i < entry.0 * 8 + length (body skip entry.1))

module _ (skip : ℕ) (whole : List ℕ) where
  -- The buffer has the right byte of the payload at an index.
  abbrev pub IsRight : List ℕ → ℕ → Type 0
  IsRight buf i = get_or buf (skip + i) 0 ≡ get_or whole i 0

  abbrev pub IsRoomy : List ℕ → Type 0
  IsRoomy buf = length buf ≡ skip + length whole

  pub part_fits :
      (offset : ℕ) (frag : List ℕ)
      → IsPart skip whole offset frag
      → offset * 8 + length (body skip frag) ≤ length whole
  part_fits offset frag p = omega (
    arith,
    ap (λ (bs : List ℕ). length bs) p.inside,
    length-append p.before (body skip frag ++ p.behind),
    length-append (body skip frag) p.behind,
    p.starts,
  )

  -- The bytes of a part are the payload's.
  part_byte :
      (offset k : ℕ) (frag : List ℕ)
      → IsPart skip whole offset frag
      → k < length (body skip frag)
      → get_or (body skip frag) k 0 ≡ get_or whole (offset * 8 + k) 0
  part_byte offset k frag p h = sym (
      (λ i. get_or (p.inside i) (sym p.starts i + k) 0)
      ∙ get_or-append_right p.before (body skip frag ++ p.behind) k
      ∙ get_or-append k (body skip frag) p.behind 0 h)

  copy_fragment-pasted :
      (offset : ℕ) (frag buf : List ℕ)
      → IsPart skip whole offset frag
      → IsRoomy buf
      → copy_fragment skip offset frag buf ≡ ok (pasted (skip + offset * 8) (body skip frag) buf)
  unfolding copy_fragment
  copy_fragment-pasted offset frag buf p roomy =
      rw (copy_fragment, p.parses, payload-drop p.header frag, p.header_skips)
        (copy_from-pasted (skip + offset * 8) (body skip frag) buf
          (omega (arith, part_fits offset frag p)))

  module _ (offset : ℕ) (frag buf : List ℕ) (p : IsPart skip whole offset frag)
      (roomy : IsRoomy buf) where
    abbrev next_buf : List ℕ
    next_buf = pasted (skip + offset * 8) (body skip frag) buf

    IsRight-before : (i : ℕ) → i < offset * 8 → IsRight buf i → IsRight next_buf i
    IsRight-before i h r =
        get_or-pasted_before (skip + offset * 8) (skip + i) (body skip frag) buf (omega arith) ∙ r

    regroup : (k : ℕ) → skip + (offset * 8 + k) ≡ skip + offset * 8 + k
    regroup k = omega arith

    IsRight-in : (k : ℕ) → k < length (body skip frag) → IsRight next_buf (offset * 8 + k)
    IsRight-in k h =
        ap (λ j. get_or next_buf j 0) (regroup k)
        ∙ get_or-pasted_in (skip + offset * 8) k (body skip frag) buf h
            (omega (arith, part_fits offset frag p))
        ∙ part_byte offset k frag p h

    IsRight-behind :
        (k : ℕ)
        → length (body skip frag) ≤ k
        → IsRight buf (offset * 8 + k)
        → IsRight next_buf (offset * 8 + k)
    IsRight-behind k h r =
        ap (λ j. get_or next_buf j 0) (regroup k)
        ∙ get_or-pasted_behind (skip + offset * 8) k (body skip frag) buf h
        ∙ ap (λ j. get_or buf j 0) (sym (regroup k))
        ∙ r

    next-IsRight : (i : ℕ) → IsRight buf i ⊎ Covers skip i (offset, frag) → IsRight next_buf i
    next-IsRight i h = elim (Bool-cases (ltb i (offset * 8))) [
      | inl before ↦ elim h [
        | inl r ↦ IsRight-before i (ltb→lt i (offset * 8) before) r
        | inr c ↦ absurd (omega (arith, ltb→lt i (offset * 8) before, c.0))
      ]
      | inr from ↦
          subst (λ j. IsRight next_buf j) (split (ltb_false→le i (offset * 8) from))
            (beyond (i - offset * 8) (moved (ltb_false→le i (offset * 8) from)))
    ]
      where
        split : offset * 8 ≤ i → offset * 8 + (i - offset * 8) ≡ i
        split le = omega arith

        moved :
            offset * 8 ≤ i
            → IsRight buf (offset * 8 + (i - offset * 8))
              ⊎ (i - offset * 8 < length (body skip frag))
        moved le = elim h [
          | inl r ↦ inl (subst (λ j. IsRight buf j) (sym (split le)) r)
          | inr c ↦ inr (omega (arith, c.1, le))
        ]

        beyond :
            (k : ℕ)
            → IsRight buf (offset * 8 + k) ⊎ (k < length (body skip frag))
            → IsRight next_buf (offset * 8 + k)
        beyond k (inr inside) = IsRight-in k inside
        beyond k (inl r) = elim (Bool-cases (ltb k (length (body skip frag)))) [
          | inl inside ↦ IsRight-in k (ltb→lt k (length (body skip frag)) inside)
          | inr past ↦ IsRight-behind k (ltb_false→le k (length (body skip frag)) past) r
        ]

  nothing_left : (buf : List ℕ) (i : ℕ) → IsRight buf i ⊎ ⊥ → IsRight buf i
  nothing_left buf i (inl r) = r
  nothing_left buf i (inr h) = elim h [ ]

  carry :
      (offset : ℕ) (frag buf : List ℕ) (p : IsPart skip whole offset frag) (roomy : IsRoomy buf)
      (entries : List (ℕ × List ℕ)) (i : ℕ)
      → IsRight buf i ⊎ Any (Covers skip i) ((offset, frag) ∷ entries)
      → IsRight (next_buf offset frag buf p roomy) i ⊎ Any (Covers skip i) entries
  carry offset frag buf p roomy entries i (inl r) =
      inl (next-IsRight offset frag buf p roomy i (inl r))
  carry offset frag buf p roomy entries i (inr (inl c)) =
      inl (next-IsRight offset frag buf p roomy i (inr c))
  carry offset frag buf p roomy entries i (inr (inr h)) = inr h

  -- The loop of `reassemble`, whatever the order.
  pub copy_fragments-IsRight :
      (entries : List (ℕ × List ℕ)) (buf : List ℕ)
      → All (λ e. IsPart skip whole e.0 e.1) entries
      → IsRoomy buf
      → (out : List ℕ) × (copy_fragments skip entries buf ≡ ok out)
        × (length out ≡ length buf)
        × (take skip out ≡ take skip buf)
        × ((i : ℕ) → IsRight buf i ⊎ Any (Covers skip i) entries → IsRight out i)
  unfolding copy_fragments
  copy_fragments-IsRight [] buf parts roomy = (buf, refl, refl, refl, nothing_left buf)
  copy_fragments-IsRight ((offset, frag) ∷ entries) buf parts roomy =
      let next = pasted (skip + offset * 8) (body skip frag) buf in
      let (out, copies, len, front, right) =
        copy_fragments-IsRight entries next parts.1
          (length-pasted (skip + offset * 8) (body skip frag) buf ∙ roomy) in
      (
        out,
        rw (copy_fragment-pasted offset frag buf parts.0 roomy) copies,
        len ∙ length-pasted (skip + offset * 8) (body skip frag) buf,
        front ∙ take-pasted skip (skip + offset * 8) (body skip frag) buf (omega arith),
        λ i h. right i (carry offset frag buf parts.0 roomy entries i h),
      )

  -- Parts that cover the payload rebuild it behind the header.
  pub copy_fragments-whole :
      (entries : List (ℕ × List ℕ)) (front : List ℕ)
      → All (λ e. IsPart skip whole e.0 e.1) entries
      → ((i : ℕ) → i < length whole → Any (Covers skip i) entries)
      → length front ≡ skip
      → copy_fragments skip entries (copy (replicate (skip + length whole) 0) front)
        ≡ ok (front ++ whole)
  copy_fragments-whole entries front parts covered exact =
      let (out, copies, len, kept, right) = copy_fragments-IsRight entries blank parts roomy in
      copies
      ∙ ap ok (
          sym (take-append-drop skip out)
          ∙ ap₂ (λ (xs ys : List ℕ). xs ++ ys)
              (kept
                ∙ take-copy skip (replicate (skip + length whole) 0) front exact
                    (omega (arith, size)))
              (eq_of_get_or (drop skip out) whole (omega (arith, length-drop skip out, len, roomy))
                (λ i lt. get_or-drop skip i out ∙ right i (inr (covered i lt)))))
    where
      blank : List ℕ
      blank = copy (replicate (skip + length whole) 0) front

      size : length (replicate {A = ℕ} (skip + length whole) 0) ≡ skip + length whole
      size = length-replicate {A = ℕ} (skip + length whole) 0

      roomy : length blank ≡ skip + length whole
      roomy = length-copy (replicate (skip + length whole) 0) front ∙ size
