-- ===== src/Ip/Checksum/Closed.antt =====
-- The checksum in closed form: the sum of the 16-bit words modulo 65535, complemented.
use gonet.Prelude.{
  ℕ, zero, suc, ◌+◌, ◌-◌, ◌*◌, ◌%◌, ◌^◌, ◌≤◌, ◌<◌, ◌≡◌, ◌⊎◌, inr, ap, ◌∙◌, List, [], ◌∷◌, ◌++◌, All,
  IsByte, length, if◌then◌else◌, ◌==◌, bit_or, bit_and, shl, shr, u32, bit_or-shl, bit_and-ones,
  lt_wf, length-append, All-append, arith,
}
use native.Mathlib.Bridge.{le_prop}
use native.Mathlib.Nat.{zero-add}
use mathlib.Core.WellFounded.{Acc}
use mathlib.Core.Logic.{dif_pos, dif_neg}
use native.Mathlib.Decide.{dec_lt}
use gonet.Ip.Checksum.{fold_shrinks, fold_loop, fold_sum, add_words, checksum, checksum_combine}

-- The sum of the big-endian words, with an odd last byte in the high half.
abbrev pub word_sum : List ℕ → ℕ
word_sum [] = 0
word_sum (hi ∷ []) = hi * 256
word_sum (hi ∷ lo ∷ rest) = hi * 256 + lo + word_sum rest

-- The one's complement sum of 16 bits: the remainder by 65535 that is 0 only for 0.
abbrev pub ones_sum : ℕ → ℕ
ones_sum sum = if sum == 0 then 0 else (sum - 1) % 65535 + 1

ones_sum_mod :
    (a b : ℕ)
    → (a ≡ 0) × (b ≡ 0) ⊎ (0 < a) × (0 < b)
    → a % 65535 ≡ b % 65535
    → ones_sum a ≡ ones_sum b
ones_sum_mod a b z m = ground arith

fold_loop-ones : (sum : ℕ) (w : Acc ◌<◌ sum) → fold_loop sum w ≡ ones_sum sum
unfolding fold_loop
fold_loop-ones sum (Acc.intro _ smaller) = elim (dec_lt 0xffff sum) [
  | yes more ↦ rw (dif_pos (dec_lt 0xffff sum) le_prop more) (
      fold_loop-ones (bit_and sum 0xffff + shr sum 16)
        (smaller (bit_and sum 0xffff + shr sum 16) (fold_shrinks sum more))
      ∙ ones_sum_mod (bit_and sum 0xffff + shr sum 16) sum
          (inr (omega (arith, bit_and-ones 16 sum))) (omega (arith, bit_and-ones 16 sum)))
  | no small ↦ rw (dif_neg (dec_lt 0xffff sum) small) (ground arith)
]

-- The loop of `Checksum` ends on every sum with the one's complement sum.
pub fold_sum-ones : (sum : ℕ) → fold_sum sum ≡ ones_sum sum
unfolding fold_sum
fold_sum-ones sum = fold_loop-ones sum (lt_wf.apply sum)

-- Without a carry out of 32 bits the loop over the bytes is the plain sum.
pub add_words-word_sum :
    (sum : ℕ) (raw : List ℕ)
    → All IsByte raw
    → sum + word_sum raw < 2 ^ 32
    → add_words sum raw ≡ sum + word_sum raw
unfolding add_words
add_words-word_sum sum [] bytes fits = omega arith
add_words-word_sum sum (hi ∷ []) bytes fits = omega arith
add_words-word_sum sum (hi ∷ lo ∷ rest) bytes fits =
    ap (λ s. add_words s rest) step
    ∙ add_words-word_sum (sum + (hi * 256 + lo)) rest bytes.1.1 (omega arith)
    ∙ omega arith
  where
    word : bit_or (u32 (shl hi 8)) lo ≡ hi * 256 + lo
    word = ap (λ h. bit_or h lo) (omega arith) ∙ bit_or-shl 8 hi lo bytes.1.0

    step : u32 (sum + bit_or (u32 (shl hi 8)) lo) ≡ sum + (hi * 256 + lo)
    step = rw word (omega arith)

pub word_sum-le : (raw : List ℕ) → All IsByte raw → 2 * word_sum raw ≤ 65535 * (length raw + 1)
word_sum-le [] bytes = omega arith
word_sum-le (hi ∷ []) bytes = omega arith
word_sum-le (hi ∷ lo ∷ rest) bytes = omega (arith, word_sum-le rest bytes.1.1)

pub word_sum-append :
    (k : ℕ) (front back : List ℕ)
    → length front ≡ 2 * k
    → word_sum (front ++ back) ≡ word_sum front + word_sum back
word_sum-append k [] back even = omega arith
word_sum-append k (hi ∷ []) back even = absurd (omega arith)
word_sum-append zero (hi ∷ lo ∷ rest) back even = absurd (omega arith)
word_sum-append (suc k) (hi ∷ lo ∷ rest) back even =
    omega (arith, word_sum-append k rest back (omega arith))

pub ones_sum-le : (n : ℕ) → ones_sum n ≤ 65535
ones_sum-le n = ground arith

-- The conversion to uint16 behind the loop loses nothing.
pub complement16 : (sum : ℕ) → 65535 - ones_sum sum % 2 ^ 16 ≡ 65535 - ones_sum sum
complement16 sum = omega (arith, ones_sum-le sum)

-- What a slice may hold for the 32-bit sum not to overflow.
abbrev pub IsSummable : List ℕ → Type 0
IsSummable raw = All IsByte raw × (length raw ≤ 131072)

-- `Checksum` of up to 131072 bytes is the complement of the one's complement sum of the words.
pub checksum-ones : (raw : List ℕ) → IsSummable raw → checksum raw ≡ 65535 - ones_sum (word_sum raw)
unfolding checksum
checksum-ones raw (bytes, short) =
    rw (add_words-word_sum 0 raw bytes (omega (arith, word_sum-le raw bytes)))
      (rw (zero-add, fold_sum-ones) (complement16 (word_sum raw)))

pub ones_sum_facts :
    (n : ℕ)
    → (ones_sum n % 65535 ≡ n % 65535) × ((ones_sum n ≡ 0) × (n ≡ 0) ⊎ (0 < ones_sum n) × (0 < n))
ones_sum_facts n = ground arith

combine_sums :
    (x y : ℕ)
    → ones_sum ((65535 - (65535 - ones_sum x) + (65535 - (65535 - ones_sum y))) % 2 ^ 32)
      ≡ ones_sum (x + y)
combine_sums x y =
    ones_sum_mod _ _
      (omega (arith, ones_sum_facts x, ones_sum_facts y, ones_sum-le x, ones_sum-le y))
      (omega (arith, ones_sum_facts x, ones_sum_facts y, ones_sum-le x, ones_sum-le y))

-- `ChecksumCombine` of the checksums of two byte slices is the checksum of the two in a row, where
-- the first has an even length and both together have at most 131072 bytes.
checksum_combine-append :
    (k : ℕ) (a b : List ℕ)
    → length a ≡ 2 * k
    → All IsByte a
    → All IsByte b
    → length a + length b ≤ 131072
    → checksum_combine (checksum a) (checksum b) ≡ checksum (a ++ b)
unfolding checksum_combine
checksum_combine-append k a b even left right short =
    rw
      (
        checksum-ones a (left, omega arith),
        checksum-ones b (right, omega arith),
        checksum-ones (a ++ b) (All-append IsByte a b left right, omega (arith, length-append a b)),
        word_sum-append k a b even,
        fold_sum-ones,
        combine_sums (word_sum a) (word_sum b),
      )
      (complement16 (word_sum a + word_sum b))

pub checksum-lt : (raw : List ℕ) → checksum raw < 65536
unfolding checksum
checksum-lt raw = omega arith
