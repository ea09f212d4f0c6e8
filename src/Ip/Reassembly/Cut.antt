-- ===== src/Ip/Reassembly/Cut.antt =====
-- The fragments of a fragmentation are arrivals that cover the payload without an overlap.
use gonet.Prelude.{
  ℕ, ◌+◌, ◌*◌, ◌%◌, ◌≤◌, ◌<◌, bit_and, ◌≡◌, refl, sym, ap, ◌∙◌, ◌≢◌, ◌⊎◌, inl, inr, Bool, true,
  false, List, [], ◌∷◌, ◌++◌, arith, ltb, ◌==◌, ltb→lt, ltb_false→le, eq→==, ne→==_false,
  Bool-cases, length, All, length-append, length-drop, bit_and_not,
}
use mathlib.Core.List.{append_assoc}
use gonet.Prelude.Rearranged.{Any, sum_by, IsDistinct}
use gonet.Ip.Header.{Header, IsValid, flag_mf}
use gonet.Ip.Fragment.Pieces.{IsFragmentOf}
use gonet.Ip.Fragment.Split.{Fragmentation, final, next}
use gonet.Ip.Reassembly.{is_fragment}
use gonet.Ip.Reassembly.Parts.{Covers, body}
use gonet.Ip.Reassembly.Arrival.{IsArrival}
use gonet.Ip.Reassembly.Sequence.{at}
use gonet.Ip.Reassembly.Piece.{parsed_at, with_mf, starts_at, fits_whole, piece-IsArrival}

-- What the fragments of `left`, the payload from `offset` on, are.
pub record IsCut (h : Header) (whole : List ℕ) (offset : ℕ) (left : List ℕ)
    (packets : List (List ℕ)) : Type 0 where
  pub arrive : All (λ p. IsArrival h whole (at p) p) packets
  pub beyond : All (λ p. offset ≤ at p * 8) packets
  pub distinct : IsDistinct at packets
  pub sum : sum_by (λ p. length (body (h.ihl * 4) p)) packets ≡ length left
  pub covers :
      (i : ℕ)
      → offset ≤ i
      → i < offset + length left
      → Any (λ p. Covers (h.ihl * 4) i (at p, p)) packets

nil_behind : (xs : List ℕ) → xs ≡ xs ++ []
nil_behind [] = refl
nil_behind (x ∷ xs) = ap (λ ys. x ∷ ys) (nil_behind xs)

All-further :
    (low high : ℕ) (packets : List (List ℕ))
    → low ≤ high
    → All (λ p. high ≤ at p * 8) packets
    → All (λ p. low ≤ at p * 8) packets
All-further low high [] le h = tt
All-further low high (p ∷ packets) le h = (omega (arith, h.0), All-further low high packets le h.1)

All-apart :
    (here high : ℕ) (packets : List (List ℕ))
    → here * 8 < high
    → All (λ p. high ≤ at p * 8) packets
    → All (λ p. here ≢ at p) packets
All-apart here high [] lt h = tt
All-apart here high (p ∷ packets) lt h =
    (λ e. omega (arith, e, h.0), All-apart here high packets lt h.1)

module _ (h : Header) (v : IsValid h) (unfragmented : h.frag_offset ≡ 0)
    (no_more : bit_and h.flags flag_mf ≡ 0) (whole : List ℕ) (short : length whole < 65536) where
  fragment_size :
      {offset : ℕ} {piece packet : List ℕ} {is_last : Bool} {g : Header}
      → IsFragmentOf h offset piece is_last packet g
      → 0 < length piece
      → length packet ≡ h.ihl * 4 + length piece
  fragment_size {packet = packet} f nonempty =
      omega
        (arith, length-drop (h.ihl * 4) packet, ap (λ (bs : List ℕ). length bs) f.carries, nonempty)

  fragmentary :
      (g : Header)
      → (bit_and g.flags flag_mf == 0) ≡ false ⊎ (0 < g.frag_offset)
      → is_fragment g ≡ true
  unfolding is_fragment
  fragmentary g k = ground (arith, k)

  module _ (offset : ℕ) (before : List ℕ) (starts : length before ≡ offset)
      (blocks : offset % 8 ≡ 0) where
    -- The last fragment.
    module _ (mtu : ℕ) (left packet : List ℕ) (g : Header)
        (f : IsFragmentOf h offset left true packet g) (nonempty : 0 < length left)
        (fits : length packet ≤ mtu) (inside : whole ≡ before ++ left)
        (long : mtu < h.ihl * 4 + length whole) where
      inside_nil : whole ≡ before ++ (left ++ [])
      inside_nil = inside ∙ ap (λ bs. before ++ bs) (nil_behind left)

      to_end : offset + length left ≡ length whole
      to_end =
          omega (arith, ap (λ (bs : List ℕ). length bs) inside, length-append before left, starts)

      at_start : at packet * 8 ≡ offset
      at_start =
          starts_at h v unfragmented no_more whole short offset left [] before packet g true f
            inside_nil starts blocks nonempty

      last_flag : (bit_and g.flags flag_mf == 0) ≡ true
      last_flag = eq→== (bit_and g.flags flag_mf) 0 (ap (λ n. bit_and n flag_mf) f.flags ∙ no_more)

      final-IsArrival : IsArrival h whole (at packet) packet
      final-IsArrival =
          piece-IsArrival h v unfragmented no_more whole short offset left [] before packet g true f
            inside_nil starts blocks nonempty (ap (λ n. bit_and_not n flag_mf) f.flags)
            (fragmentary g (
              inr (
                omega (
                  arith,
                  fragment_size f nonempty,
                  to_end,
                  parsed_at packet g f.parses,
                  at_start,
                ))))
            (last_flag ∙ sym (eq→== (offset + length left) (length whole) to_end))

      IsCut-final : IsCut h whole offset left (packet ∷ [])
      IsCut-final = record {
        arrive = (final-IsArrival, tt);
        beyond = (omega (arith, at_start), tt);
        distinct = (tt, tt);
        sum = omega (arith, ap (λ (bs : List ℕ). length bs) f.carries);
        covers = λ i lo hi. inl (
          omega (arith, at_start),
          omega (arith, at_start, ap (λ (bs : List ℕ). length bs) f.carries),
        );
      }

    -- A fragment that has more behind it.
    module _ (left piece rest packet : List ℕ) (packets : List (List ℕ)) (g : Header)
        (f : IsFragmentOf h offset piece false packet g) (cut : left ≡ piece ++ rest)
        (nonempty : 0 < length piece) (more : 0 < length rest) (inside : whole ≡ before ++ left)
        (behind : IsCut h whole (offset + length piece) rest packets) where
      inside_rest : whole ≡ before ++ (piece ++ rest)
      inside_rest = inside ∙ ap (λ bs. before ++ bs) cut

      at_next : at packet * 8 ≡ offset
      at_next =
          starts_at h v unfragmented no_more whole short offset piece rest before packet g false f
            inside_rest starts blocks nonempty

      more_flag : (bit_and g.flags flag_mf == 0) ≡ false
      more_flag = ap (λ n. bit_and n flag_mf == 0) f.flags ∙ (with_mf h.flags v.flags_fit).0

      next-IsArrival : IsArrival h whole (at packet) packet
      next-IsArrival =
          piece-IsArrival h v unfragmented no_more whole short offset piece rest before packet g
            false f inside_rest starts blocks nonempty
            (ap (λ n. bit_and_not n flag_mf) f.flags ∙ (with_mf h.flags v.flags_fit).1)
            (fragmentary g (inl more_flag))
            (more_flag
              ∙ sym (
                  ne→==_false (offset + length piece) (length whole) (λ e. omega (
                    arith,
                    e,
                    fits_whole h v unfragmented no_more whole short offset piece rest before packet
                        g false f inside_rest starts blocks nonempty,
                  ))))

      size : length left ≡ length piece + length rest
      size = omega (arith, ap (λ (bs : List ℕ). length bs) cut, length-append piece rest)

      Covers-next :
          (i : ℕ)
          → offset ≤ i
          → i < offset + length left
          → Covers (h.ihl * 4) i (at packet, packet)
            ⊎ Any (λ p. Covers (h.ihl * 4) i (at p, p)) packets
      Covers-next i lo hi = elim (Bool-cases (ltb i (offset + length piece))) [
        | inl here ↦ inl (
          omega (arith, at_next),
          omega (
            arith,
            at_next,
            ltb→lt i (offset + length piece) here,
            ap (λ (bs : List ℕ). length bs) f.carries,
          ),
        )
        | inr later ↦
            inr
              (behind.covers i (ltb_false→le i (offset + length piece) later) (omega (arith, size)))
      ]

      IsCut-next : IsCut h whole offset left (packet ∷ packets)
      IsCut-next = record {
        arrive = (next-IsArrival, behind.arrive);
        beyond = (
          omega (arith, at_next),
          All-further offset (offset + length piece) packets (omega arith) behind.beyond,
        );
        distinct = (
          All-apart (at packet) (offset + length piece) packets (omega (arith, at_next))
              behind.beyond,
          behind.distinct,
        );
        sum = omega (arith, size, behind.sum, ap (λ (bs : List ℕ). length bs) f.carries);
        covers = Covers-next;
      }

  module _ (mtu : ℕ) where
    left_low :
        {offset : ℕ} {left : List ℕ} {packets : List (List ℕ)}
        → Fragmentation h mtu offset left packets
        → 0 < length left
    left_low (final f nonempty fits) = nonempty
    left_low (next {piece = piece} {rest = rest} cut f nonempty blocks fits more) =
        omega (arith, ap (λ (bs : List ℕ). length bs) cut, length-append piece rest)

    pub IsCut-Fragmentation :
        {offset : ℕ} {left : List ℕ} {packets : List (List ℕ)}
        → Fragmentation h mtu offset left packets
        → (before : List ℕ) → whole ≡ before ++ left
        → length before ≡ offset
        → offset % 8 ≡ 0
        → mtu < h.ihl * 4 + length whole
        → IsCut h whole offset left packets
    IsCut-Fragmentation {offset = offset}
          (final {left = left} {packet = packet} {g = g} f nonempty fits) before inside starts
          blocks long =
        IsCut-final offset before starts blocks mtu left packet g f nonempty fits inside long
    IsCut-Fragmentation {offset = offset}
          (next {left = left} {piece = piece} {rest = rest} {packet = packet} {packets = packets}
            {g = g} cut f nonempty eights fits more)
          before inside starts blocks long =
        IsCut-next offset before starts blocks left piece rest packet packets g f cut nonempty
          (left_low more) inside
          (IsCut-Fragmentation more (before ++ piece)
            (inside ∙ ap (λ bs. before ++ bs) cut ∙ sym (append_assoc before piece rest))
            (omega (arith, length-append before piece)) (omega (arith, blocks, eights)) long)
