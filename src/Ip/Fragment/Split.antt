-- ===== src/Ip/Fragment/Split.antt =====
-- `Fragment` splits every packet that it does not refuse, in pieces that fit the MTU.
use gonet.Prelude.{
  ℕ, zero, suc, ◌+◌, ◌-◌, ◌*◌, ◌/◌, ◌%◌, ◌≤◌, ◌<◌, bit_and, ◌≡◌, refl, sym, ap, ◌∙◌, inl, inr, true,
  false, List, [], ◌∷◌, ◌++◌, arith, leb, lt→ltb, le→ltb_false, Bool-cases, length, take, drop, All,
  take-append-drop, length-take, length-drop, drop-drop, take_all, bit_and_not, bit_and-ones, ok,
  IsByte, slice,
}
use mathlib.Core.Path.{subst, ap₂}
use gonet.Ip.Header.{Header, IsValid, parse_header}
use gonet.Ip.Header.RoundTrip.{parse_header-IsValid}
use gonet.Ip.Dispatcher.Delivery.{payload-drop}
use gonet.Ip.Summed.{HasBytes, parse_header-HasBytes}
use gonet.Ip.Fragment.{fragment_loop, split_packet, fragment}
use gonet.Ip.Fragment.Pieces.{IsFragmentOf, fragment_packet-IsFragmentOf}

-- Packets that carry `left`, the payload from `offset` on, piece by piece: every piece but the last
-- is a multiple of 8 bytes and says that more follow, and every packet fits the MTU.
pub data Fragmentation (h : Header) (mtu : ℕ) : ℕ → List ℕ → List (List ℕ) → Type 0 where
  final :
      {offset : ℕ} {left packet : List ℕ} {g : Header}
      → IsFragmentOf h offset left true packet g
      → 0 < length left
      → length packet ≤ mtu
      → Fragmentation h mtu offset left (packet ∷ [])
  next :
      {offset : ℕ} {left piece rest packet : List ℕ} {packets : List (List ℕ)} {g : Header}
      → left ≡ piece ++ rest
      → IsFragmentOf h offset piece false packet g
      → 0 < length piece
      → length piece % 8 ≡ 0
      → length packet ≤ mtu
      → Fragmentation h mtu (offset + length piece) rest packets
      → Fragmentation h mtu offset left (packet ∷ packets)

fragment_loop_end :
    (fuel : ℕ) (h : Header) (max_len : ℕ) (all : List ℕ) (offset : ℕ)
    → length all ≤ offset
    → fragment_loop fuel h max_len all offset ≡ ok []
unfolding fragment_loop
fragment_loop_end zero h max_len all offset past = refl
fragment_loop_end (suc fuel) h max_len all offset past = rw (le→ltb_false offset (length all) past)

slice_len :
    (all : List ℕ) (offset len : ℕ) → slice all offset (offset + len) ≡ take len (drop offset all)
slice_len all offset len = ap (λ n. take n (drop offset all)) exact
  where
    exact : offset + len - offset ≡ len
    exact = omega arith

le→leb : (a b : ℕ) → a ≤ b → leb a b ≡ true
le→leb a b h = ground arith

lt→leb_false : (a b : ℕ) → a < b → leb b a ≡ false
lt→leb_false a b h = ground arith

piece_end :
    (all : List ℕ) (offset : ℕ)
    → slice all offset (offset + (length all - offset)) ≡ drop offset all
piece_end all offset =
    slice_len all offset (length all - offset)
    ∙ take_all (length all - offset) (drop offset all) (omega (arith, length-drop offset all))

length_piece :
    (all : List ℕ) (offset len : ℕ)
    → len ≤ length all - offset
    → length (slice all offset (offset + len)) ≡ len
length_piece all offset len h =
    ap (λ (bs : List ℕ). length bs) (slice_len all offset len)
    ∙ omega (arith, length-take len (drop offset all), length-drop offset all)

piece_more :
    (all : List ℕ) (offset len : ℕ)
    → drop offset all ≡ slice all offset (offset + len) ++ drop (offset + len) all
piece_more all offset len =
    sym (take-append-drop len (drop offset all))
    ∙ ap₂ (λ (xs ys : List ℕ). xs ++ ys) (sym (slice_len all offset len)) (drop-drop len offset all)

-- `x &^ 7` is the multiple of 8 below.
blocks_of : (x : ℕ) → bit_and_not x 7 ≡ x / 8 * 8
blocks_of x = omega (arith, bit_and-ones 3 x)

module _ (h : Header) (v : IsValid h) (bytes : HasBytes h) (mtu max_len : ℕ) (all : List ℕ)
    (low : 8 ≤ max_len) (blocks : max_len % 8 ≡ 0) (fits : h.ihl * 4 + max_len ≤ mtu)
    (narrow : mtu < 65536) (room : h.frag_offset + length all / 8 < 8192) where
  round_end :
      (fuel offset : ℕ)
      → offset < length all
      → length all - offset ≤ max_len
      → (packets : List (List ℕ)) × (fragment_loop (suc fuel) h max_len all offset ≡ ok packets)
        × Fragmentation h mtu offset (drop offset all) packets
  unfolding fragment_loop
  round_end fuel offset inside short =
      let (packet, g, sent, made, size) =
        fragment_packet-IsFragmentOf h v bytes all offset (length all - offset) true (omega arith)
          (omega arith)
          (ap (λ (bs : List ℕ). length bs) (piece_end all offset) ∙ length-drop offset all) in
      (
        packet ∷ [],
        rw (
          lt→ltb offset (length all) inside,
          le→leb (length all - offset) max_len short,
          sent,
          fragment_loop_end fuel h max_len all (offset + (length all - offset)) (omega arith),
        ),
        final
            (subst (λ piece. IsFragmentOf h offset piece true packet g) (piece_end all offset) made)
            (omega (arith, length-drop offset all)) (omega (arith, size)),
      )

  round_more :
      (fuel offset : ℕ)
      → offset < length all
      → max_len < length all - offset
      → ((packets : List (List ℕ)) × (fragment_loop fuel h max_len all (offset + max_len)
            ≡ ok packets)
          × Fragmentation h mtu (offset + max_len) (drop (offset + max_len) all) packets)
      → (packets : List (List ℕ)) × (fragment_loop (suc fuel) h max_len all offset ≡ ok packets)
        × Fragmentation h mtu offset (drop offset all) packets
  unfolding fragment_loop
  round_more fuel offset inside long (packets, rest_loop, rest) =
      let (packet, g, sent, made, size) =
        fragment_packet-IsFragmentOf h v bytes all offset max_len false (omega arith) (omega arith)
          (length_piece all offset max_len (omega arith)) in
      (
        packet ∷ packets,
        rw (
          lt→ltb offset (length all) inside,
          lt→leb_false max_len (length all - offset) long,
          sent,
          rest_loop,
        ),
        next (piece_more all offset max_len) made
            (omega (arith, length_piece all offset max_len (omega arith)))
            (ap (λ n. n % 8) (length_piece all offset max_len (omega arith)) ∙ blocks)
            (omega (arith, size))
            (subst (λ n. Fragmentation h mtu (offset + n) (drop (offset + max_len) all) packets)
              (sym (length_piece all offset max_len (omega arith))) rest),
      )

  pub fragment_loop-Fragmentation :
      (fuel offset : ℕ)
      → offset < length all
      → length all ≤ offset + fuel
      → (packets : List (List ℕ)) × (fragment_loop fuel h max_len all offset ≡ ok packets)
        × Fragmentation h mtu offset (drop offset all) packets
  fragment_loop-Fragmentation zero offset inside enough = absurd (omega arith)
  fragment_loop-Fragmentation (suc fuel) offset inside enough =
      elim (Bool-cases (leb (length all - offset) max_len)) [
        | inl short ↦ round_end fuel offset inside (ground arith)
        | inr long ↦
            round_more fuel offset inside (ground arith)
              (fragment_loop-Fragmentation fuel (offset + max_len) (ground arith) (omega arith))
      ]

-- `Fragment` of a packet of bytes that is longer than the MTU, with an IHL of 5 at least, without the
-- DF flag and with an MTU of at least 8 bytes more than its header, returns packets that carry its
-- payload in order: each fits the MTU, parses with the packet's fields and the offset of its piece,
-- and verifies; every piece but the last is a multiple of 8 bytes and has the MF flag. This holds for
-- an MTU below 65536 and a payload that ends within the range of the fragment offset.
pub fragment-Fragmentation :
    (packet : List ℕ) (h : Header) (mtu : ℕ)
    → All IsByte packet
    → parse_header packet ≡ ok h
    → 5 ≤ h.ihl
    → bit_and h.flags 2 ≡ 0
    → mtu < length packet
    → h.ihl * 4 + 8 ≤ mtu
    → mtu < 65536
    → h.frag_offset + (length packet - h.ihl * 4) / 8 < 8192
    → (packets : List (List ℕ)) × (fragment packet mtu ≡ ok packets)
      × Fragmentation h mtu 0 (drop (h.ihl * 4) packet) packets
unfolding fragment split_packet
fragment-Fragmentation packet h mtu bytes e low df long room narrow range =
    let (packets, loops, split) =
      fragment_loop-Fragmentation h (parse_header-IsValid packet h bytes e low)
        (parse_header-HasBytes packet h bytes e low) mtu (bit_and_not (mtu - h.ihl * 4) 7)
        (drop (h.ihl * 4) packet) (omega (arith, blocks_of (mtu - h.ihl * 4)))
        (omega (arith, blocks_of (mtu - h.ihl * 4))) (omega (arith, blocks_of (mtu - h.ihl * 4)))
        narrow (omega (arith, length-drop (h.ihl * 4) packet)) (length (drop (h.ihl * 4) packet)) 0
        (omega (arith, length-drop (h.ihl * 4) packet)) (omega arith) in
    (
      packets,
      rw
          (
            lt→ltb mtu (length packet) long,
            e,
            df,
            le→ltb_false mtu (h.ihl * 4 + 8) room,
            payload-drop h packet,
          )
          loops,
      split,
    )
