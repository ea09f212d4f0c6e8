-- ===== src/Prelude/Go.antt =====
-- Go's results: a value, an error, or a run-time panic; and bounded writes into a slice.
use Prim.Native.Nat.{ℕ, zero, suc, ◌+◌, ◌-◌, ◌*◌, ◌/◌, ◌%◌, ◌<◌}
use mathlib.Core.Path.{◌≡◌, refl, ap}
use mathlib.Core.List.{List, [], ◌∷◌}
use native.Mathlib.Omega.{arith}
use gonet.Prelude.Lists.{All, length, get_or, take, drop}

-- `panic` is an index or a slice bound out of range.
pub data Result {ℓ} (E : Type 0) (A : Type ℓ) : Type ℓ where
  ok : A → Result E A
  err : E → Result E A
  panic : Result E A

infixl 5 ◌>>=◌
abbrev pub ◌>>=◌ {ℓ κ} :
    {E : Type 0} {A : Type ℓ} {B : Type κ} → Result E A → (A → Result E B) → Result E B
ok a >>= f = f a
err e >>= f = err e
panic >>= f = panic

abbrev pub IsByte : ℕ → Type 0
IsByte b = b < 256

-- `raw[i]` behind a length check that covers `i`.
abbrev pub byte_at : List ℕ → ℕ → ℕ
byte_at raw i = get_or raw i 0

pub byte_at-lt : (raw : List ℕ) (i : ℕ) → All IsByte raw → byte_at raw i < 256
byte_at-lt [] i bytes = omega arith
byte_at-lt (x ∷ raw) zero bytes = bytes.0
byte_at-lt (x ∷ raw) (suc i) bytes = byte_at-lt raw i bytes.1

-- `raw[lo:hi]` behind a length check that covers `hi`.
abbrev pub slice : List ℕ → ℕ → ℕ → List ℕ
slice raw lo hi = take (hi - lo) (drop lo raw)

-- `binary.BigEndian`.
abbrev pub uint16_at : List ℕ → ℕ → ℕ
uint16_at raw i = byte_at raw i * 256 + byte_at raw (i + 1)

pub uint16_at-lt : (raw : List ℕ) (i : ℕ) → All IsByte raw → uint16_at raw i < 65536
uint16_at-lt raw i bytes = omega (arith, byte_at-lt raw i bytes, byte_at-lt raw (i + 1) bytes)

abbrev pub uint32_at : List ℕ → ℕ → ℕ
uint32_at raw i = uint16_at raw i * 65536 + uint16_at raw (i + 2)

abbrev pub be16 : ℕ → List ℕ
be16 v = v / 256 % 256 ∷ v % 256 ∷ []

abbrev pub be32 : ℕ → List ℕ
be32 v = v / 16777216 % 256 ∷ v / 65536 % 256 ∷ v / 256 % 256 ∷ v % 256 ∷ []

-- `copy(buf[i:i+len(bs)], bs)`, `buf[i] = b` and `PutUint16(buf[i:i+2], v)`: a range that does not
-- fit into `buf` panics.
abbrev pub put_bytes : {E : Type 0} → ℕ → List ℕ → List ℕ → Result E (List ℕ)
put_bytes zero [] buf = ok buf
put_bytes zero (b ∷ bs) [] = panic
put_bytes zero (b ∷ bs) (x ∷ buf) = put_bytes zero bs buf >>= λ rest. ok (b ∷ rest)
put_bytes (suc i) bs [] = panic
put_bytes (suc i) bs (x ∷ buf) = put_bytes i bs buf >>= λ rest. ok (x ∷ rest)

-- `copy(dst, src)`: as many bytes as both have.
abbrev pub copy : List ℕ → List ℕ → List ℕ
copy [] src = []
copy (x ∷ dst) [] = x ∷ dst
copy (x ∷ dst) (b ∷ src) = b ∷ copy dst src

pub copy_same : (dst src : List ℕ) → length dst ≡ length src → copy dst src ≡ src
copy_same [] [] h = refl
copy_same [] (b ∷ src) h = absurd (omega arith)
copy_same (x ∷ dst) [] h = absurd (omega arith)
copy_same (x ∷ dst) (b ∷ src) h = ap (◌∷◌ b) (copy_same dst src (omega arith))

-- `copy(buf[i:], src)`.
abbrev pub copy_from : {E : Type 0} → ℕ → List ℕ → List ℕ → Result E (List ℕ)
copy_from zero src buf = ok (copy buf src)
copy_from (suc i) src [] = panic
copy_from (suc i) src (x ∷ buf) = copy_from i src buf >>= λ rest. ok (x ∷ rest)
