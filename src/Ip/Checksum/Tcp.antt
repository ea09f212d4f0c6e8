-- ===== src/Ip/Checksum/Tcp.antt =====
-- `TCPChecksum`: the checksum of a segment behind the pseudo-header of its addresses.
use gonet.Prelude.{
  ℕ, ◌+◌, ◌-◌, ◌*◌, ◌%◌, ◌≤◌, ◌<◌, bit_or, ◌≡◌, refl, ◌∙◌, inl, inr, ◌&&◌, Option, none, some, List,
  ◌∷◌, ◌++◌, arith, ◌==◌, Bool-cases, length, take, All, length-append, All-append, All-drop, u32,
  shl, bit_or-shl, IsByte, byte_at, byte_at-lt, be16,
}
use mathlib.Core.Path.{subst}
use mathlib.Core.Option.{some-injective}
use gonet.Prelude.Net.{to4, same_bytes, v4_prefix}
use gonet.Ip.Checksum.{add_address, add_addresses, tcp_checksum}
use gonet.Ip.Checksum.Closed.{
  word_sum, ones_sum, ones_sum-le, ones_sum_facts, complement16, word_sum-append, word_sum-le,
  add_words-word_sum, fold_sum-ones,
}

-- A segment that fits into an IPv4 packet.
abbrev pub IsSegment : List ℕ → Type 0
IsSegment segment = All IsByte segment × (length segment ≤ 65535)

word-lt : (hi lo : ℕ) → hi < 256 → lo < 256 → bit_or (shl hi 8) lo < 65536
word-lt hi lo p q = omega (arith, bit_or-shl 8 hi lo q)

add_address-le : (sum : ℕ) (ip : List ℕ) → All IsByte ip → add_address sum ip ≤ sum + 131070
unfolding add_address
add_address-le sum ip bytes = omega (
  arith,
  word-lt (byte_at ip 0) (byte_at ip 1) (byte_at-lt ip 0 bytes) (byte_at-lt ip 1 bytes),
  word-lt (byte_at ip 2) (byte_at ip 3) (byte_at-lt ip 2 bytes) (byte_at-lt ip 3 bytes),
)

to4-bytes : (ip four : List ℕ) → All IsByte ip → to4 ip ≡ some four → All IsByte four
unfolding to4
to4-bytes ip four bytes e = elim (Bool-cases (length ip == 4)) [
  | inl plain ↦ subst (All IsByte) (some-injective _ four (rw plain at e)) bytes
  | inr longer ↦ elim (Bool-cases (length ip == 16 && same_bytes (take 12 ip) v4_prefix)) [
    | inl mapped ↦
        subst (All IsByte) (some-injective _ four (rw mapped at (rw longer at e)))
          (All-drop IsByte 12 ip bytes)
    | inr other ↦ absurd (cc (rw other at (rw longer at e)))
  ]
]

pub add_addresses-le :
    (src dst : List ℕ)
    → All IsByte src
    → All IsByte dst
    → add_addresses (to4 src) (to4 dst) ≤ 262140
add_addresses-le src dst p q =
    by_cases (to4 src) (to4 dst) (λ f. to4-bytes src f p) (λ f. to4-bytes dst f q)
  where
    by_cases :
        (a b : Option (List ℕ))
        → ((f : List ℕ) → a ≡ some f → All IsByte f)
        → ((f : List ℕ) → b ≡ some f → All IsByte f)
        → add_addresses a b ≤ 262140
    by_cases none b ha hb = unfold add_addresses in omega arith
    by_cases (some a) none ha hb = unfold add_addresses in omega arith
    by_cases (some a) (some b) ha hb =
        unfold add_addresses in
        omega
          (arith, add_address-le 0 a (ha a refl), add_address-le (add_address 0 a) b (hb b refl))

-- The sum behind `TCPChecksum`: addresses, protocol 6, length and the words of the segment.
abbrev segment_sum : List ℕ → List ℕ → List ℕ → ℕ
segment_sum src dst segment =
    add_addresses (to4 src) (to4 dst) + 6 + length segment + word_sum segment

-- `TCPChecksum` is the complement of the one's complement sum of the pseudo-header and the segment.
tcp_checksum-ones :
    (src dst segment : List ℕ)
    → All IsByte src
    → All IsByte dst
    → IsSegment segment
    → tcp_checksum src dst segment ≡ 65535 - ones_sum (segment_sum src dst segment)
unfolding tcp_checksum
tcp_checksum-ones src dst segment p q (bytes, short) =
    rw
      (
        pseudo,
        add_words-word_sum (add_addresses (to4 src) (to4 dst) + 6 + length segment) segment bytes
            (omega (arith, add_addresses-le src dst p q, word_sum-le segment bytes)),
        fold_sum-ones,
      )
      (complement16 (segment_sum src dst segment))
  where
    pseudo :
        u32 (u32 (add_addresses (to4 src) (to4 dst) + 6) + u32 (length segment))
        ≡ add_addresses (to4 src) (to4 dst) + 6 + length segment
    pseudo = omega (arith, add_addresses-le src dst p q)

pub tcp_checksum-lt : (src dst segment : List ℕ) → tcp_checksum src dst segment < 65536
unfolding tcp_checksum
tcp_checksum-lt src dst segment = omega arith

zero_of_multiple : (n : ℕ) → 0 < n → n % 65535 ≡ 0 → 65535 - ones_sum n ≡ 0
zero_of_multiple n p m = omega (arith, ones_sum_facts n, ones_sum-le n)

-- A checksum field at an even offset that holds the checksum of the segment with zeros in the field
-- makes the checksum of the whole segment 0.
pub tcp_checksum-set :
    (k : ℕ) (src dst front back : List ℕ)
    → length front ≡ 2 * k
    → All IsByte src
    → All IsByte dst
    → All IsByte front
    → All IsByte back
    → length front + length back ≤ 65533
    → tcp_checksum src dst
        (front ++ (be16 (tcp_checksum src dst (front ++ (0 ∷ 0 ∷ back))) ++ back))
      ≡ 0
tcp_checksum-set k src dst front back even p q left right short =
    tcp_checksum-ones src dst filled p q (fits field)
    ∙ zero_of_multiple (segment_sum src dst filled) (rw total positive) (rw total multiple)
  where
    blank : List ℕ
    blank = front ++ (0 ∷ 0 ∷ back)

    field : ℕ
    field = tcp_checksum src dst blank

    filled : List ℕ
    filled = front ++ (be16 field ++ back)

    fits : (w : ℕ) → IsSegment (front ++ (be16 w ++ back))
    fits w = (
      All-append IsByte front (be16 w ++ back) left (omega arith, (omega arith, right)),
      omega (arith, length-append front (be16 w ++ back)),
    )

    base : ℕ
    base = segment_sum src dst blank

    total : segment_sum src dst filled ≡ base + field
    total = omega (
      arith,
      word_sum-append k front (be16 field ++ back) even,
      word_sum-append k front (0 ∷ 0 ∷ back) even,
      length-append front (be16 field ++ back),
      length-append front (0 ∷ 0 ∷ back),
      tcp_checksum-lt src dst blank,
    )

    complement : field ≡ 65535 - ones_sum base
    complement = tcp_checksum-ones src dst blank p q (fits 0)

    positive : 0 < base + field
    positive = rw complement (omega (arith, ones_sum_facts base, ones_sum-le base))

    multiple : (base + field) % 65535 ≡ 0
    multiple = rw complement (omega (arith, ones_sum_facts base, ones_sum-le base))
