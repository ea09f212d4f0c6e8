-- ===== src/Prelude/Pasted.antt =====
-- `copy(buf[i:], src)` in closed form, byte by byte; and lists that agree at every index.
use Prim.Native.Nat.{ℕ, zero, suc, ◌+◌, ◌≤◌, ◌<◌}
use mathlib.Core.Path.{◌≡◌, refl, ap, ap₂}
use mathlib.Core.List.{List, [], ◌∷◌, ◌++◌}
use native.Mathlib.Nat.{zero-add, suc-add}
use native.Mathlib.Omega.{arith}
use gonet.Prelude.Lists.{length, get_or, take, drop}
use gonet.Prelude.Go.{ok, panic, copy, copy_from}

abbrev pub pasted : ℕ → List ℕ → List ℕ → List ℕ
pasted zero src buf = copy buf src
pasted (suc i) src [] = []
pasted (suc i) src (x ∷ buf) = x ∷ pasted i src buf

pub copy_from-pasted :
    {E : Type 0} (i : ℕ) (src buf : List ℕ)
    → i ≤ length buf
    → copy_from {E = E} i src buf ≡ ok (pasted i src buf)
copy_from-pasted zero src buf h = refl
copy_from-pasted (suc i) src [] h = absurd (omega arith)
copy_from-pasted {E} (suc i) src (x ∷ buf) h = rw (copy_from-pasted {E = E} i src buf (omega arith))

pub copy_from-beyond :
    {E : Type 0} (i : ℕ) (src buf : List ℕ) → length buf < i → copy_from {E = E} i src buf ≡ panic
copy_from-beyond zero src buf h = absurd (omega arith)
copy_from-beyond (suc i) src [] h = refl
copy_from-beyond {E} (suc i) src (x ∷ buf) h = rw (copy_from-beyond {E = E} i src buf (omega arith))

pub length-copy : (buf src : List ℕ) → length (copy buf src) ≡ length buf
length-copy [] src = refl
length-copy (x ∷ buf) [] = refl
length-copy (x ∷ buf) (b ∷ src) = omega (arith, length-copy buf src)

pub length-pasted : (i : ℕ) (src buf : List ℕ) → length (pasted i src buf) ≡ length buf
length-pasted zero src buf = length-copy buf src
length-pasted (suc i) src [] = refl
length-pasted (suc i) src (x ∷ buf) = omega (arith, length-pasted i src buf)

get_or-copy_in :
    (k : ℕ) (src buf : List ℕ)
    → k < length src
    → length src ≤ length buf
    → get_or (copy buf src) k 0 ≡ get_or src k 0
get_or-copy_in k [] buf h fits = absurd (omega arith)
get_or-copy_in k (b ∷ src) [] h fits = absurd (omega arith)
get_or-copy_in zero (b ∷ src) (x ∷ buf) h fits = refl
get_or-copy_in (suc k) (b ∷ src) (x ∷ buf) h fits =
    get_or-copy_in k src buf (omega arith) (omega arith)

get_or-copy_out :
    (k : ℕ) (src buf : List ℕ) → length src ≤ k → get_or (copy buf src) k 0 ≡ get_or buf k 0
get_or-copy_out k [] [] h = refl
get_or-copy_out k [] (x ∷ buf) h = refl
get_or-copy_out k (b ∷ src) [] h = refl
get_or-copy_out zero (b ∷ src) (x ∷ buf) h = absurd (omega arith)
get_or-copy_out (suc k) (b ∷ src) (x ∷ buf) h = get_or-copy_out k src buf (omega arith)

-- Inside the bytes that are written, behind them, and in front of them.
pub get_or-pasted_in :
    (i k : ℕ) (src buf : List ℕ)
    → k < length src
    → i + length src ≤ length buf
    → get_or (pasted i src buf) (i + k) 0 ≡ get_or src k 0
get_or-pasted_in zero k src buf h fits = rw zero-add (get_or-copy_in k src buf h (omega arith))
get_or-pasted_in (suc i) k src [] h fits = absurd (omega arith)
get_or-pasted_in (suc i) k src (x ∷ buf) h fits =
    rw suc-add (get_or-pasted_in i k src buf h (omega arith))

pub get_or-pasted_behind :
    (i k : ℕ) (src buf : List ℕ)
    → length src ≤ k
    → get_or (pasted i src buf) (i + k) 0 ≡ get_or buf (i + k) 0
get_or-pasted_behind zero k src buf h = rw zero-add (get_or-copy_out k src buf h)
get_or-pasted_behind (suc i) k src [] h = refl
get_or-pasted_behind (suc i) k src (x ∷ buf) h = rw suc-add (get_or-pasted_behind i k src buf h)

pub get_or-pasted_before :
    (i j : ℕ) (src buf : List ℕ) → j < i → get_or (pasted i src buf) j 0 ≡ get_or buf j 0
get_or-pasted_before zero j src buf h = absurd (omega arith)
get_or-pasted_before (suc i) j src [] h = refl
get_or-pasted_before (suc i) zero src (x ∷ buf) h = refl
get_or-pasted_before (suc i) (suc j) src (x ∷ buf) h =
    get_or-pasted_before i j src buf (omega arith)

pub take-pasted : (n i : ℕ) (src buf : List ℕ) → n ≤ i → take n (pasted i src buf) ≡ take n buf
take-pasted zero i src buf h = refl
take-pasted (suc n) zero src buf h = absurd (omega arith)
take-pasted (suc n) (suc i) src [] h = refl
take-pasted (suc n) (suc i) src (x ∷ buf) h = ap (◌∷◌ x) (take-pasted n i src buf (omega arith))

pub get_or-append_right :
    (xs ys : List ℕ) (i : ℕ) → get_or (xs ++ ys) (length xs + i) 0 ≡ get_or ys i 0
get_or-append_right [] ys i = rw zero-add
get_or-append_right (x ∷ xs) ys i = rw suc-add (get_or-append_right xs ys i)

pub get_or-drop : (n i : ℕ) (xs : List ℕ) → get_or (drop n xs) i 0 ≡ get_or xs (n + i) 0
get_or-drop zero i xs = rw zero-add
get_or-drop (suc n) i [] = refl
get_or-drop (suc n) i (x ∷ xs) = rw suc-add (get_or-drop n i xs)

pub eq_of_get_or :
    (xs ys : List ℕ)
    → length xs ≡ length ys
    → ((i : ℕ) → i < length ys → get_or xs i 0 ≡ get_or ys i 0)
    → xs ≡ ys
eq_of_get_or [] [] h e = refl
eq_of_get_or [] (y ∷ ys) h e = absurd (omega arith)
eq_of_get_or (x ∷ xs) [] h e = absurd (omega arith)
eq_of_get_or (x ∷ xs) (y ∷ ys) h e =
    ap₂ (λ (z : ℕ) zs. z ∷ zs) (e 0 (omega arith))
      (eq_of_get_or xs ys (omega arith) (λ i lt. e (suc i) (omega arith)))

pub take-copy :
    (n : ℕ) (buf src : List ℕ) → length src ≡ n → n ≤ length buf → take n (copy buf src) ≡ src
take-copy zero buf [] h fits = refl
take-copy zero buf (b ∷ src) h fits = absurd (omega arith)
take-copy (suc n) buf [] h fits = absurd (omega arith)
take-copy (suc n) [] (b ∷ src) h fits = absurd (omega arith)
take-copy (suc n) (x ∷ buf) (b ∷ src) h fits =
    ap (◌∷◌ b) (take-copy n buf src (omega arith) (omega arith))
