-- ===== src/Tcp/Checksum.antt =====
-- internal/tcp/checksum.go: `ChecksumCalculator`, the checksum of the segments between two addresses.
-- The slice that `SetAndCompute` changes in place is its result.
pub mod SetAndCompute
mod Runs
use gonet.Prelude.{
  ℕ, Bool, List, [], ◌∷◌, ltb, ◌==◌, if◌then◌else◌, length, Result, ok, ◌>>=◌, be16, put_bytes,
}
use gonet.Tcp.Header.{min_header_len}
use gonet.Ip.Checksum.{tcp_checksum}

pub record ChecksumCalculator : Type 0 where
  pub src : List ℕ
  pub dst : List ℕ

unfoldable pub new_checksum_calculator : List ℕ → List ℕ → ChecksumCalculator
new_checksum_calculator src dst = record { src = src; dst = dst }

unfoldable pub compute : ChecksumCalculator → List ℕ → ℕ
compute c tcp_segment = tcp_checksum c.src c.dst tcp_segment

unfoldable pub verify : ChecksumCalculator → List ℕ → Bool
verify c tcp_segment = tcp_checksum c.src c.dst tcp_segment == 0

unfoldable pub set_and_compute : {E : Type 0} → ChecksumCalculator → List ℕ → Result E (List ℕ)
set_and_compute c tcp_segment =
    if ltb (length tcp_segment) min_header_len then ok tcp_segment else do
      high ← put_bytes 16 (0 ∷ []) tcp_segment
      blank ← put_bytes 17 (0 ∷ []) high
      put_bytes 16 (be16 (compute c blank)) blank
