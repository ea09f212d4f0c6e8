-- ===== src/Ip/Reassembly/Interleaved.antt =====
-- Fragments of several packets that arrive one between the other.
use gonet.Prelude.{
  ℕ, ◌+◌, ◌*◌, ◌≤◌, ◌<◌, bit_and, ◌≡◌, refl, sym, ap, ◌∙◌, inl, inr, none, some, List, [], ◌∷◌, map,
  arith, Bool-cases, length, All, Result, ok, err, panic, IsByte,
}
use mathlib.Core.Path.{subst}
use gonet.Prelude.Rearranged.{Rearranges}
use gonet.Prelude.Dict.{find}
use gonet.Ip.Errors.{Error}
use gonet.Ip.Header.{Header, parse_header, flag_mf, flag_df}
use gonet.Ip.Header.Wire.{wire}
use gonet.Ip.Checksum.{checksum}
use gonet.Ip.Fragment.{fragment}
use gonet.Ip.Reassembly.Group.{Visit}
use gonet.Ip.Reassembly.{
  FragmentKey, ReassemblyBuffer, same_fragment_key, fragment_key, new_reassembly_buffer, add_all,
}
use gonet.Ip.Reassembly.Keys.{same_fragment_key-eq}
use gonet.Ip.Reassembly.Rebuild.{IsOrder}
use gonet.Ip.Reassembly.Delivery.{delivered, add_all-fragment}
use gonet.Ip.Reassembly.Invariant.{Reached, fresh}
use gonet.Ip.Reassembly.Machines.{Machines, Delivery, replay}
use gonet.Ip.Reassembly.OneAdd.{held_by, deliver, Implements}
use gonet.Ip.Reassembly.Refinement.{add_all-Implements}
use gonet.Ip.Reassembly.Mine.{mine, of_key, Alone, replay-mine}

of_key-tags :
    (key : FragmentKey) (outs : List Delivery) → All (λ d. d.0 ≡ some key) (of_key key outs)
of_key-tags key [] = tt
of_key-tags key ((none, packet) ∷ outs) = of_key-tags key outs
of_key-tags key ((some k, packet) ∷ outs) = elim (Bool-cases (same_fragment_key key k)) [
  | inl same ↦ rw same (ap some (same_fragment_key-eq key k same), of_key-tags key outs)
  | inr other ↦ rw other (of_key-tags key outs)
]

abbrev collect : List ℕ → List (List ℕ) → List (List ℕ)
collect packet packets = packet ∷ packets

length-deliver :
    (outs : List Delivery) (packets : List (List ℕ))
    → length (deliver collect outs packets) ≡ length outs + length packets
length-deliver [] packets = omega arith
length-deliver ((tag, p) ∷ outs) packets = length-deliver outs (p ∷ packets) ∙ omega arith

deliver_once :
    (key : FragmentKey) (packet : List ℕ) (outs : List Delivery)
    → All (λ d. d.0 ≡ some key) outs
    → deliver collect outs [] ≡ packet ∷ []
    → outs ≡ (some key, packet) ∷ []
deliver_once key packet [] tags e = absurd (cc e)
deliver_once key packet ((tag, p) ∷ []) tags e = λ i. (tags.0 i, head_of e i) ∷ []
  where
    head_of : p ∷ [] ≡ packet ∷ [] → p ≡ packet
    head_of e' = cc e'
deliver_once key packet ((tag, p) ∷ d ∷ outs) tags e =
    absurd (omega (arith, length-deliver ((tag, p) ∷ d ∷ outs) [], ap length e))

module _ {W : Type 0} (b b' : ReassemblyBuffer W) (w w' : W) (key : FragmentKey)
    (packet : List ℕ) where
  -- The callback got exactly the deliveries of the reassemblers in the run, of which one is that of
  -- the packet under its key and no other is of that key; and no group of the key is left.
  abbrev pub DeliveredOnce : Result Error (Machines × List Delivery) → Type 0
  DeliveredOnce r =
      (s' : Machines) × (outs : List Delivery) × (r ≡ ok (s', outs))
      × (w' ≡ deliver b.on_complete outs w)
      × (of_key key outs ≡ (some key, packet) ∷ [])
      × (held_by b' key ≡ none)

  Alone-once :
      (lone done : ReassemblyBuffer (List (List ℕ))) (r1 : Result Error (Machines × List Delivery))
      (r : Result Error (Machines × List Delivery)) (visit : Visit)
      → lone.on_complete ≡ collect
      → held_by done key ≡ none
      → Alone visit key r r1
      → Implements lone [] r1 (ok (done, packet ∷ []))
      → Implements b w r (ok (b', w'))
      → DeliveredOnce r
  Alone-once lone done r1 (ok (s', outs)) visit collects empty (s1', e, agree) told
        (b'', e', held, same) =
      finish (subst (λ x. Implements lone [] x (ok (done, packet ∷ []))) e told)
    where
      the_buffer :
          (x y : ReassemblyBuffer W) (v : W)
          → ◌≡◌ {A = Result Error (ReassemblyBuffer W × W)} (ok (x, w')) (ok (y, v))
          → x ≡ y
      the_buffer x y v e2 = cc e2

      the_result :
          (x y : ReassemblyBuffer (List (List ℕ))) (ps : List (List ℕ))
          → ◌≡◌ {A = Result Error (ReassemblyBuffer (List (List ℕ)) × List (List ℕ))}
              (ok (x, packet ∷ []))
              (ok (y, ps))
          → x ≡ y
      the_result x y ps e2 = cc e2

      finish :
          Implements lone [] (ok (s1', of_key key outs)) (ok (done, packet ∷ []))
          → DeliveredOnce (ok (s', outs))
      finish (done', e1, held1, same1) = (
        s',
        outs,
        refl,
        cc e',
        deliver_once key packet (of_key key outs) (of_key-tags key outs)
            (subst (λ f. deliver f (of_key key outs) [] ≡ packet ∷ []) collects (cc e1)),
        ap (λ x. held_by x key) (the_buffer b' b'' (deliver b.on_complete outs w) e')
            ∙ ap (λ m. m key) held
            ∙ sym agree
            ∙ ap (λ m. m key) (sym held1)
            ∙ ap (λ x. held_by x key)
                (sym (the_result done done' (deliver lone.on_complete (of_key key outs) []) e1))
            ∙ empty,
      )
  Alone-once lone done r1 (err e) visit collects empty alone told whole = absurd (cc whole)
  Alone-once lone done r1 panic visit collects empty alone told whole = absurd (cc whole)

-- A packet of bytes that `Fragment` splits, which is no fragment itself, whose total length is its
-- length and whose checksum field is the checksum of its header with a zero in that field. Its
-- fragments arrive in any order, with any other bytes between them that carry no fragment of the
-- packet's key: whole packets, and fragments of other packets. From every buffer that the
-- operations reach, with no group of the key, when every `Add` of the run returns without an error,
-- the callback gets exactly what one reassembler for each key delivers over the run, in order, and
-- nothing else; under the packet's key that is the packet, once. No group of the key is left.
pub add_all-interleaved :
    {W : Type 0} (on_complete : List ℕ → W → W) (b b' : ReassemblyBuffer W) (w w' : W)
    (visit : Visit) (packet : List ℕ) (h : Header) (mtu : ℕ) (packets : List (List ℕ))
    (arrivals : List (ℕ × List ℕ))
    → Reached on_complete b
    → IsOrder visit
    → All IsByte packet
    → parse_header packet ≡ ok h
    → 5 ≤ h.ihl
    → bit_and h.flags flag_df ≡ 0
    → bit_and h.flags flag_mf ≡ 0
    → h.frag_offset ≡ 0
    → h.total_len ≡ length packet
    → h.checksum ≡ checksum (wire (record h { checksum = 0 }))
    → h.ihl * 4 + 8 ≤ mtu
    → mtu < length packet
    → find same_fragment_key (fragment_key h) b.groups ≡ none
    → fragment packet mtu ≡ ok packets
    → Rearranges packets (map (λ a. a.1) (mine (fragment_key h) arrivals))
    → add_all visit arrivals b w ≡ ok (b', w')
    → DeliveredOnce b b' w w' (fragment_key h) packet (replay visit arrivals (held_by b))
unfolding new_reassembly_buffer
add_all-interleaved on_complete b b' w w' visit packet h mtu packets arrivals reached order bytes e
      low df mf start total sum room long free sent some_order run =
    Alone-once b b' w w' (fragment_key h) packet lone done (replay visit own (held_by lone))
      (replay visit arrivals (held_by b)) visit refl refl
      (replay-mine visit (fragment_key h) arrivals (held_by b) (held_by lone) (sym free))
      (subst (λ r. Implements lone [] (replay visit own (held_by lone)) r) alone
        (add_all-Implements collect lone visit own [] fresh))
      (subst (λ r. Implements b w (replay visit arrivals (held_by b)) r) run
        (add_all-Implements on_complete b visit arrivals w reached))
  where
    own : List (ℕ × List ℕ)
    own = mine (fragment_key h) arrivals

    lone : ReassemblyBuffer (List (List ℕ))
    lone = new_reassembly_buffer collect

    done : ReassemblyBuffer (List (List ℕ))
    done = delivered lone (length own)

    alone : add_all visit own lone [] ≡ ok (done, packet ∷ [])
    alone =
        add_all-fragment lone [] visit packet h mtu packets own order bytes e low df mf start total
          sum room long refl sent some_order
