-- ===== src/Ip/Checksum/Verify.antt =====
-- `VerifyChecksum`: what it accepts, that a filled-in checksum passes, and which damage it detects.
use gonet.Ip.Checksum.{checksum, verify_checksum}
use gonet.Prelude.{
  ℕ, ◌+◌, ◌-◌, ◌*◌, ◌%◌, ◌≤◌, ◌<◌, ◌≡◌, ◌≢◌, ◌↔◌, inl, inr, true, false, List, ◌∷◌, ◌++◌, arith,
  Bool-cases, length, All, length-append, All-append, IsByte, be16,
}
use gonet.Ip.Checksum.Closed.{
  word_sum, ones_sum, ones_sum-le, ones_sum_facts, word_sum-append, IsSummable, checksum-ones,
  checksum-lt,
}

-- `VerifyChecksum` accepts a slice exactly if its words sum to a positive multiple of 65535.
verify_checksum_iff :
    (raw : List ℕ)
    → IsSummable raw
    → (verify_checksum raw ≡ true) ↔ (0 < word_sum raw) × (word_sum raw % 65535 ≡ 0)
unfolding verify_checksum
verify_checksum_iff raw s = ground (arith, checksum-ones raw s)

-- A checksum field that holds the checksum of the slice with zeros in the field makes the slice
-- verify: for a field at an even offset in up to 131072 bytes.
pub verify_checksum-set :
    (k : ℕ) (front back : List ℕ)
    → length front ≡ 2 * k
    → All IsByte front
    → All IsByte back
    → length front + length back ≤ 131070
    → verify_checksum (front ++ (be16 (checksum (front ++ (0 ∷ 0 ∷ back))) ++ back)) ≡ true
verify_checksum-set k front back even left right short = (verify_checksum_iff _ summable).1 sums
  where
    zeroed : IsSummable (front ++ (0 ∷ 0 ∷ back))
    zeroed = (
      All-append IsByte front (0 ∷ 0 ∷ back) left (omega arith, (omega arith, right)),
      omega (arith, length-append front (0 ∷ 0 ∷ back)),
    )

    field : ℕ
    field = checksum (front ++ (0 ∷ 0 ∷ back))

    summable : IsSummable (front ++ (be16 field ++ back))
    summable = (
      All-append IsByte front (be16 field ++ back) left (omega arith, (omega arith, right)),
      omega (arith, length-append front (be16 field ++ back)),
    )

    total : word_sum (front ++ (be16 field ++ back)) ≡ word_sum (front ++ (0 ∷ 0 ∷ back)) + field
    total = omega (
      arith,
      word_sum-append k front (be16 field ++ back) even,
      word_sum-append k front (0 ∷ 0 ∷ back) even,
      checksum-lt (front ++ (0 ∷ 0 ∷ back)),
    )

    complement : field ≡ 65535 - ones_sum (word_sum (front ++ (0 ∷ 0 ∷ back)))
    complement = checksum-ones (front ++ (0 ∷ 0 ∷ back)) zeroed

    sums :
        (0 < word_sum (front ++ (be16 field ++ back)))
        × (word_sum (front ++ (be16 field ++ back)) % 65535 ≡ 0)
    sums = rw total (
        rw complement (
          omega (
            arith,
            ones_sum_facts (word_sum (front ++ (0 ∷ 0 ∷ back))),
            ones_sum-le (word_sum (front ++ (0 ∷ 0 ∷ back))),
          ),
          omega (
            arith,
            ones_sum_facts (word_sum (front ++ (0 ∷ 0 ∷ back))),
            ones_sum-le (word_sum (front ++ (0 ∷ 0 ∷ back))),
          ),
        ))

-- `VerifyChecksum` detects every change of one 16-bit word, but for a change between 0x0000 and
-- 0xffff: for a word at an even offset in up to 131072 bytes.
verify_checksum_detects :
    (k a b : ℕ) (front back : List ℕ)
    → length front ≡ 2 * k
    → All IsByte front
    → All IsByte back
    → length front + length back ≤ 131070
    → a < 65536
    → b < 65536
    → a % 65535 ≢ b % 65535
    → verify_checksum (front ++ (be16 a ++ back)) ≡ true
    → verify_checksum (front ++ (be16 b ++ back)) ≡ false
verify_checksum_detects k a b front back even left right short ha hb ne passes =
    elim (Bool-cases (verify_checksum (front ++ (be16 b ++ back)))) [
      | inl passes' ↦ absurd (
          ne (
            omega (
              arith,
              ((verify_checksum_iff _ (summable a)).0 passes).1,
              ((verify_checksum_iff _ (summable b)).0 passes').1,
              sums a ha,
              sums b hb,
            )))
      | inr fails ↦ fails
    ]
  where
    summable : (w : ℕ) → IsSummable (front ++ (be16 w ++ back))
    summable w = (
      All-append IsByte front (be16 w ++ back) left (omega arith, (omega arith, right)),
      omega (arith, length-append front (be16 w ++ back)),
    )

    sums :
        (w : ℕ)
        → w < 65536
        → word_sum (front ++ (be16 w ++ back)) ≡ word_sum front + (w + word_sum back)
    sums w hw = omega (arith, word_sum-append k front (be16 w ++ back) even)
