-- ===== src/Ip/Checksum.antt =====
-- internal/ip/checksum.go: the Internet checksum. The loops over the bytes are recursions on the
-- slice, two bytes a round; the folding loop recurs on the proof that its sum gets smaller.
pub mod Closed
pub mod Verify
pub mod Tcp
mod Runs
use mathlib.Core.Logic.{dite}
use mathlib.Core.WellFounded.{Acc, WellFounded}
use native.Mathlib.Decide.{dec_lt}
use gonet.Prelude.{
  ℕ, ◌+◌, ◌<◌, bit_and, bit_or, List, [], ◌∷◌, Bool, Option, none, some, u16, u32, shl, shr, not16,
  lt_wf, length, byte_at, ◌==◌, arith, bit_and-ones,
}
use gonet.Prelude.Net.{to4}
use gonet.Ip.Header.{proto_tcp}

-- `sum += uint32(data[i])<<8 | uint32(data[i+1])`, and the odd last byte.
unfoldable pub add_words : ℕ → List ℕ → ℕ
add_words sum [] = sum
add_words sum (hi ∷ []) = u32 (sum + u32 (shl hi 8))
add_words sum (hi ∷ lo ∷ rest) = add_words (u32 (sum + bit_or (u32 (shl hi 8)) lo)) rest

pub fold_shrinks : (sum : ℕ) → 0xffff < sum → bit_and sum 0xffff + shr sum 16 < sum
fold_shrinks sum h = omega (arith, bit_and-ones 16 sum)

-- `for sum > 0xffff { sum = (sum & 0xffff) + (sum >> 16) }`
fold_loop : (sum : ℕ) → Acc ◌<◌ sum → ℕ
fold_loop sum (Acc.intro _ smaller) =
    dite (dec_lt 0xffff sum)
      (λ more.
        fold_loop (bit_and sum 0xffff + shr sum 16)
          (smaller (bit_and sum 0xffff + shr sum 16) (fold_shrinks sum more)))
      (λ _. sum)

unfoldable pub fold_sum : ℕ → ℕ
unfolding fold_loop lt_wf dec_lt
fold_sum sum = fold_loop sum (lt_wf.apply sum)

unfoldable pub checksum : List ℕ → ℕ
checksum raw = not16 (u16 (fold_sum (add_words 0 raw)))

unfoldable pub checksum_combine : ℕ → ℕ → ℕ
checksum_combine a b = not16 (u16 (fold_sum (u32 (not16 a + not16 b))))

unfoldable pub verify_checksum : List ℕ → Bool
verify_checksum raw = checksum raw == 0

-- The two 16-bit words of an address in the pseudo-header.
unfoldable pub add_address : ℕ → List ℕ → ℕ
add_address sum ip = u32 (
    u32 (sum + bit_or (shl (byte_at ip 0) 8) (byte_at ip 1))
    + bit_or (shl (byte_at ip 2) 8) (byte_at ip 3))

unfoldable pub add_addresses : Option (List ℕ) → Option (List ℕ) → ℕ
add_addresses none _ = 0
add_addresses (some src4) none = 0
add_addresses (some src4) (some dst4) = add_address (add_address 0 src4) dst4

unfoldable pub tcp_checksum : List ℕ → List ℕ → List ℕ → ℕ
tcp_checksum src dst segment =
    let pseudo = u32 (u32 (add_addresses (to4 src) (to4 dst) + proto_tcp) + u32 (length segment)) in
    not16 (u16 (fold_sum (add_words pseudo segment)))

unfoldable pub icmp_checksum : List ℕ → ℕ
icmp_checksum icmp_msg = checksum icmp_msg
