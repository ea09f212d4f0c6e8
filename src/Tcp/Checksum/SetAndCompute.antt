-- ===== src/Tcp/Checksum/SetAndCompute.antt =====
-- What `SetAndCompute` sets, `Verify` accepts.
use gonet.Prelude.{
  ℕ, ◌+◌, ◌≤◌, ◌<◌, ◌≡◌, refl, true, List, [], ◌∷◌, ◌++◌, arith, le→ltb_false, eq→==, length, take,
  drop, All, length-take, length-drop, All-drop, All-take, ok, ◌>>=◌, IsByte, be16, put_bytes,
}
use gonet.Ip.Checksum.Tcp.{tcp_checksum-lt, tcp_checksum-set}
use gonet.Tcp.Checksum.{
  ChecksumCalculator, new_checksum_calculator, compute, verify, set_and_compute,
}

-- The segment with a value in its checksum field.
abbrev pub with_field : ℕ → List ℕ → List ℕ
with_field field segment = take 16 segment ++ (be16 field ++ drop 18 segment)

writes-with_field :
    {E : Type 0} (c : ChecksumCalculator) (segment : List ℕ)
    → 20 ≤ length segment
    → (put_bytes {E = E} 16 (0 ∷ []) segment >>= λ high.
        put_bytes 17 (0 ∷ []) high >>= λ blank. put_bytes 16 (be16 (compute c blank)) blank)
      ≡ ok (with_field (compute c (with_field 0 segment)) segment)
writes-with_field c
      (b0 ∷ b1 ∷ b2 ∷ b3 ∷ b4 ∷ b5 ∷ b6 ∷ b7 ∷ b8 ∷ b9 ∷ b10 ∷ b11 ∷ b12 ∷ b13 ∷ b14 ∷ b15 ∷ b16
        ∷ b17 ∷ rest)
      h =
    refl
writes-with_field c _ h = absurd (omega arith)

pub set_and_compute-with_field :
    {E : Type 0} (c : ChecksumCalculator) (segment : List ℕ)
    → 20 ≤ length segment
    → set_and_compute {E = E} c segment ≡ ok (with_field (compute c (with_field 0 segment)) segment)
unfolding set_and_compute
set_and_compute-with_field c segment h =
    rw (le→ltb_false (length segment) 20 h) (writes-with_field c segment h)

-- `SetAndCompute` of a segment of 20 to 65535 bytes returns the segment with another 16-bit checksum
-- field and no other change, and `Verify` accepts it.
pub verify-set_and_compute :
    {E : Type 0} (src dst segment : List ℕ)
    → All IsByte src
    → All IsByte dst
    → All IsByte segment
    → 20 ≤ length segment
    → length segment ≤ 65535
    → (field : ℕ) × (field < 65536)
      × (set_and_compute {E = E} (new_checksum_calculator src dst) segment
          ≡ ok (with_field field segment))
      × (verify (new_checksum_calculator src dst) (with_field field segment) ≡ true)
unfolding verify compute new_checksum_calculator
verify-set_and_compute src dst segment p q bytes long short = (
  compute (new_checksum_calculator src dst) (with_field 0 segment),
  tcp_checksum-lt src dst (with_field 0 segment),
  set_and_compute-with_field (new_checksum_calculator src dst) segment long,
  eq→== _ 0 (
      tcp_checksum-set 8 src dst (take 16 segment) (drop 18 segment) sixteen p q
        (All-take IsByte 16 segment bytes) (All-drop IsByte 18 segment bytes) lengths),
)
  where
    sixteen : length (take 16 segment) ≡ 16
    sixteen = omega (arith, length-take 16 segment)

    lengths : length (take 16 segment) + length (drop 18 segment) ≤ 65533
    lengths = omega (arith, sixteen, length-drop 18 segment)
