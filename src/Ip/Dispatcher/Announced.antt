-- ===== src/Ip/Dispatcher/Announced.antt =====
-- The lengths that the header of a packet announces, and the packets that pass the checks of
-- `Dispatch`.
use gonet.Prelude.{
  ℕ, ◌+◌, ◌*◌, ◌/◌, ◌%◌, ◌≤◌, ◌<◌, bit_or, ◌≡◌, ap, List, ◌++◌, arith, length, All, length-append,
  get_or-append, shl, bit_or-shl, IsByte, byte_at, byte_at-lt,
}

-- The lengths that the first bytes of a packet announce.
abbrev pub announced_header : List ℕ → ℕ
announced_header raw = byte_at raw 0 % 16 * 4

abbrev pub announced_total : List ℕ → ℕ
announced_total raw = byte_at raw 2 * 256 + byte_at raw 3

pub record IsRoutable (raw : List ℕ) : Type 0 where
  pub long : 20 ≤ length raw
  pub version_four : byte_at raw 0 / 16 ≡ 4
  pub header_low : 20 ≤ announced_header raw
  pub header_fits : announced_header raw ≤ length raw
  pub total_fits : announced_total raw ≤ length raw
  pub total_covers : announced_header raw ≤ announced_total raw

pub total_word :
    (raw : List ℕ)
    → All IsByte raw
    → bit_or (shl (byte_at raw 2) 8) (byte_at raw 3) ≡ announced_total raw
total_word raw bytes = bit_or-shl 8 (byte_at raw 2) (byte_at raw 3) (byte_at-lt raw 3 bytes)

pub byte_at-append :
    (i : ℕ) (raw padding : List ℕ)
    → i < 20
    → 20 ≤ length raw
    → byte_at (raw ++ padding) i ≡ byte_at raw i
byte_at-append i raw padding h k = get_or-append i raw padding 0 (omega arith)

pub announced_header-append :
    (raw padding : List ℕ)
    → 20 ≤ length raw
    → announced_header (raw ++ padding) ≡ announced_header raw
announced_header-append raw padding h =
    ap (λ b. b % 16 * 4) (byte_at-append 0 raw padding (omega arith) h)

pub announced_total-append :
    (raw padding : List ℕ)
    → 20 ≤ length raw
    → announced_total (raw ++ padding) ≡ announced_total raw
announced_total-append raw padding h = omega (
  arith,
  byte_at-append 2 raw padding (omega arith) h,
  byte_at-append 3 raw padding (omega arith) h,
)

pub padded-IsRoutable : (raw padding : List ℕ) → IsRoutable raw → IsRoutable (raw ++ padding)
padded-IsRoutable raw padding r = omega (
  arith,
  length-append raw padding,
  byte_at-append 0 raw padding (omega arith) r.long,
  announced_total-append raw padding r.long,
)
