-- ===== src/Prelude/Net.antt =====
-- `net.IP`: 4 bytes, or 16 bytes; an IPv4 address in 16 bytes stands behind ten zeros and 0xff 0xff.
use mathlib.Core.Path.{◌≡◌, refl}
use mathlib.Core.Logic.{inl, inr}
use mathlib.Core.Option.{Option, none, some}
use mathlib.Core.Bool.{Bool, true, false, ◌&&◌}
use mathlib.Core.List.{List, [], ◌∷◌, ◌++◌}
use Prim.Native.Nat.{ℕ}
use gonet.Prelude.Tests.{◌==◌, ==_iff, eq→==, Bool-cases, if◌then◌else◌}
use gonet.Prelude.Lists.{length, take, drop}

abbrev pub same_bytes : List ℕ → List ℕ → Bool
same_bytes [] [] = true
same_bytes [] (y ∷ ys) = false
same_bytes (x ∷ xs) [] = false
same_bytes (x ∷ xs) (y ∷ ys) = x == y && same_bytes xs ys

pub same_bytes-eq : (xs ys : List ℕ) → same_bytes xs ys ≡ true → xs ≡ ys
same_bytes-eq [] [] h = refl
same_bytes-eq [] (y ∷ ys) h = absurd (cc h)
same_bytes-eq (x ∷ xs) [] h = absurd (cc h)
same_bytes-eq (x ∷ xs) (y ∷ ys) h = elim (Bool-cases (x == y)) [
  | inl e ↦ λ i. (==_iff x y).0 e i ∷ same_bytes-eq xs ys (rw e at h) i
  | inr e ↦ absurd (cc (rw e at h))
]

pub same_bytes_refl : (xs : List ℕ) → same_bytes xs xs ≡ true
same_bytes_refl [] = refl
same_bytes_refl (x ∷ xs) = rw (eq→== x x refl) (same_bytes_refl xs)

abbrev pub v4_prefix : List ℕ
v4_prefix = 0 ∷ 0 ∷ 0 ∷ 0 ∷ 0 ∷ 0 ∷ 0 ∷ 0 ∷ 0 ∷ 0 ∷ 255 ∷ 255 ∷ []

-- `net.IP.To4`; `none` is nil.
unfoldable pub to4 : List ℕ → Option (List ℕ)
to4 ip =
    if length ip == 4
    then some ip
    else if length ip == 16 && same_bytes (take 12 ip) v4_prefix
    then some (drop 12 ip)
    else none

-- `net.IPv4(a, b, c, d)`.
unfoldable pub ipv4 : ℕ → ℕ → ℕ → ℕ → List ℕ
ipv4 a b c d = v4_prefix ++ (a ∷ b ∷ c ∷ d ∷ [])

pub to4-ipv4 : (a b c d : ℕ) → to4 (ipv4 a b c d) ≡ some (a ∷ b ∷ c ∷ d ∷ [])
unfolding to4 ipv4
to4-ipv4 a b c d = refl

pub to4_of_four : (ip : List ℕ) → length ip ≡ 4 → to4 ip ≡ some ip
unfolding to4
to4_of_four ip h = rw h
