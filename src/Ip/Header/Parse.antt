-- ===== src/Ip/Header/Parse.antt =====
-- What `ParseHeader` accepts, what it returns, and that `Marshal` gives the header's bytes back.
use gonet.Prelude.{
  ℕ, ◌+◌, ◌-◌, ◌*◌, ◌/◌, ◌%◌, ◌≤◌, ◌<◌, ◌≡◌, refl, sym, ap, ◌∙◌, ◌↔◌, bit_and, List, [], ◌∷◌, ◌++◌,
  ok, All, IsByte, byte_at, uint16_at, length, take, drop, length-take, take_add, bit_and-ones, ltb,
  Bool-cases, false, ltb_false→le, u8, shr, be16, if◌then◌else◌, inl, inr, arith,
}
use mathlib.Core.Path.{ap₂}
use gonet.Ip.Header.{Header, IsValid, parse_header, read_fields}
use gonet.Ip.Header.Wire.{wire}
use gonet.Ip.Header.Read.{parse_header_accepts}

-- The checks of `ParseHeader`, with the length of the header that the first byte announces.
pub record IsAccepted (raw : List ℕ) : Type 0 where
  pub long : 20 ≤ length raw
  pub version_four : byte_at raw 0 / 16 ≡ 4
  pub fits : byte_at raw 0 % 16 * 4 ≤ length raw
  pub covers : byte_at raw 0 % 16 * 4 ≤ uint16_at raw 2

low_nibble : (b : ℕ) → bit_and b 0x0f ≡ b % 16
low_nibble b = bit_and-ones 4 b

pub parse_header_checks :
    (raw : List ℕ) (h : Header)
    → parse_header raw ≡ ok h
    → IsAccepted raw × (h ≡ read_fields raw 4 (byte_at raw 0 % 16))
unfolding parse_header
parse_header_checks raw h e = ground (arith, low_nibble (byte_at raw 0))

-- `ParseHeader` succeeds exactly on the accepted packets.
pub parse_header_iff : (raw : List ℕ) → IsAccepted raw ↔ ((h : Header) × (parse_header raw ≡ ok h))
parse_header_iff raw = (
  λ a. (
    read_fields raw 4 (byte_at raw 0 % 16),
    parse_header_accepts raw (byte_at raw 0 % 16) a.long a.version_four (low_nibble (byte_at raw 0))
        a.fits a.covers,
  ),
  λ (h, e). (parse_header_checks raw h e).0,
)

-- A field of two bytes is written back as the bytes that it was read from.
be16_pair : (a b : ℕ) → a < 256 → b < 256 → be16 (a * 256 + b) ≡ a ∷ b ∷ []
be16_pair a b p q = ap₂ (λ x y. x ∷ y ∷ []) (omega arith) (omega arith)

flags_pair :
    (a b : ℕ)
    → a < 256
    → b < 256
    → let w = a * 256 + b in
      (u8 (shr w 13) < 8)
      × (bit_and w 0x1fff < 8192)
      × (u8 (shr w 13) * 8192 + bit_and w 0x1fff ≡ w)
flags_pair a b p q = omega (arith, bit_and-ones 13 (a * 256 + b))

options_of :
    (n : ℕ) (rest : List ℕ)
    → 20 ≤ n
    → n ≤ 20 + length rest
    → let options = if ltb 20 n then take (n - 20) rest else [] in
      (options ≡ take (n - 20) rest) × (20 + length options ≡ n)
options_of n rest lo hi = elim (Bool-cases (ltb 20 n)) [
  | inl more ↦ rw more (refl, omega (arith, length-take (n - 20) rest))
  | inr exact ↦ rw exact (rw (empty exact) refl, omega (arith, ltb_false→le 20 n exact))
]
  where
    empty : ltb 20 n ≡ false → n - 20 ≡ 0
    empty exact = omega (arith, ltb_false→le 20 n exact)

take_header :
    (n : ℕ) (raw : List ℕ) → 20 ≤ n → take n raw ≡ take 20 raw ++ take (n - 20) (drop 20 raw)
take_header n raw h = ap (λ k. take k raw) (split n h) ∙ take_add 20 (n - 20) raw
  where
    split : (k : ℕ) → 20 ≤ k → k ≡ 20 + (k - 20)
    split k p = omega arith

-- The header that `ParseHeader` reads is valid, and its wire format is the front of the packet.
pub read_fields-IsValid :
    (raw : List ℕ)
    → All IsByte raw
    → IsAccepted raw
    → 5 ≤ byte_at raw 0 % 16
    → IsValid (read_fields raw 4 (byte_at raw 0 % 16))
unfolding read_fields
read_fields-IsValid
      (b0 ∷ b1 ∷ b2 ∷ b3 ∷ b4 ∷ b5 ∷ b6 ∷ b7 ∷ b8 ∷ b9 ∷ b10 ∷ b11 ∷ b12 ∷ b13 ∷ b14 ∷ b15 ∷ b16
        ∷ b17 ∷ b18 ∷ b19 ∷ rest)
      bytes a low =
    record {
      version_four = refl;
      ihl_low = low;
      ihl_high = omega arith;
      tos_fits = omega arith;
      total_len_fits = omega arith;
      total_len_covers = a.covers;
      id_fits = omega arith;
      flags_fit = omega arith;
      frag_offset_fits = omega (arith, bit_and-ones 13 (b6 * 256 + b7));
      ttl_fits = omega arith;
      protocol_fits = omega arith;
      checksum_fits = omega arith;
      src_four = refl;
      dst_four = refl;
      options_length = (options_of (b0 % 16 * 4) rest (omega arith) (omega (arith, a.fits))).1;
    }
read_fields-IsValid _ bytes a low = absurd (omega (arith, a.long))

pub wire-read_fields :
    (raw : List ℕ)
    → All IsByte raw
    → IsAccepted raw
    → 5 ≤ byte_at raw 0 % 16
    → wire (read_fields raw 4 (byte_at raw 0 % 16)) ≡ take (byte_at raw 0 % 16 * 4) raw
unfolding read_fields
wire-read_fields
      (b0 ∷ b1 ∷ b2 ∷ b3 ∷ b4 ∷ b5 ∷ b6 ∷ b7 ∷ b8 ∷ b9 ∷ b10 ∷ b11 ∷ b12 ∷ b13 ∷ b14 ∷ b15 ∷ b16
        ∷ b17 ∷ b18 ∷ b19 ∷ rest)
      bytes a low =
    (λ i.
      first i ∷ b1 ∷ be16_pair b2 b3 (omega arith) (omega arith) i
      ++ (be16_pair b4 b5 (omega arith) (omega arith) i
          ++ (flags i
              ++ (b8 ∷ b9 ∷ be16_pair b10 b11 (omega arith) (omega arith) i
                  ++ (b12 ∷ b13 ∷ b14 ∷ b15 ∷ b16 ∷ b17 ∷ b18 ∷ b19 ∷ options i)))))
    ∙ sym (
        take_header (b0 % 16 * 4)
          (b0 ∷ b1 ∷ b2 ∷ b3 ∷ b4 ∷ b5 ∷ b6 ∷ b7 ∷ b8 ∷ b9 ∷ b10 ∷ b11 ∷ b12 ∷ b13 ∷ b14 ∷ b15 ∷ b16
            ∷ b17 ∷ b18 ∷ b19 ∷ rest)
          (omega arith))
  where
    first : 4 * 16 + b0 % 16 ≡ b0
    first = omega (arith, a.version_four)

    flags :
        be16 (u8 (shr (b6 * 256 + b7) 13) * 8192 + bit_and (b6 * 256 + b7) 0x1fff) ≡ b6 ∷ b7 ∷ []
    flags =
        ap be16 (flags_pair b6 b7 (omega arith) (omega arith)).2
        ∙ be16_pair b6 b7 (omega arith) (omega arith)

    options :
        (if ltb 20 (b0 % 16 * 4) then take (b0 % 16 * 4 - 20) rest else [])
        ≡ take (b0 % 16 * 4 - 20) rest
    options = (options_of (b0 % 16 * 4) rest (omega arith) (omega (arith, a.fits))).0
wire-read_fields _ bytes a low = absurd (omega (arith, a.long))
