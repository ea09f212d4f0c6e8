-- ===== src/Prelude/Rearranged.antt =====
-- Lists in another order, and what does not depend on the order.
use mathlib.Core.Path.{◌≡◌, refl, sym, ap, ◌∙◌}
use mathlib.Core.Logic.{◌≢◌, ◌⊎◌, inl, inr}
use mathlib.Core.List.{List, [], ◌∷◌, map}
use Prim.Native.Nat.{ℕ, suc, ◌+◌}
use native.Mathlib.Omega.{arith}
use gonet.Prelude.Lists.{All, length}

pub data Rearranges {A : Type 0} : List A → List A → Type 0 where
  none_left : Rearranges [] []
  keep : {xs ys : List A} (x : A) → Rearranges xs ys → Rearranges (x ∷ xs) (x ∷ ys)
  swap : {xs : List A} (x y : A) → Rearranges (x ∷ y ∷ xs) (y ∷ x ∷ xs)
  further : {xs ys zs : List A} → Rearranges xs ys → Rearranges ys zs → Rearranges xs zs

module _ {A : Type 0} where
  abbrev pub Any : (A → Type 0) → List A → Type 0
  Any P [] = ⊥
  Any P (x ∷ xs) = P x ⊎ Any P xs

  abbrev pub sum_by : (A → ℕ) → List A → ℕ
  sum_by f [] = 0
  sum_by f (x ∷ xs) = f x + sum_by f xs

  -- No two entries have the same number.
  abbrev pub IsDistinct : (A → ℕ) → List A → Type 0
  IsDistinct f [] = Unit {0}
  IsDistinct f (x ∷ xs) = All (λ y. f x ≢ f y) xs × IsDistinct f xs

  pub Rearranges-refl : (xs : List A) → Rearranges xs xs
  Rearranges-refl [] = none_left
  Rearranges-refl (x ∷ xs) = keep x (Rearranges-refl xs)

  pub Rearranges-All : (P : A → Type 0) {xs ys : List A} → Rearranges xs ys → All P xs → All P ys
  Rearranges-All P none_left h = h
  Rearranges-All P (keep x r) h = (h.0, Rearranges-All P r h.1)
  Rearranges-All P (swap x y) h = (h.1.0, (h.0, h.1.1))
  Rearranges-All P (further r s) h = Rearranges-All P s (Rearranges-All P r h)

  pub Rearranges-Any : (P : A → Type 0) {xs ys : List A} → Rearranges xs ys → Any P xs → Any P ys
  Rearranges-Any P none_left h = h
  Rearranges-Any P (keep x r) (inl p) = inl p
  Rearranges-Any P (keep x r) (inr h) = inr (Rearranges-Any P r h)
  Rearranges-Any P (swap x y) (inl p) = inr (inl p)
  Rearranges-Any P (swap x y) (inr (inl p)) = inl p
  Rearranges-Any P (swap x y) (inr (inr h)) = inr (inr h)
  Rearranges-Any P (further r s) h = Rearranges-Any P s (Rearranges-Any P r h)

  pub Rearranges-sum_by :
      (f : A → ℕ) {xs ys : List A} → Rearranges xs ys → sum_by f xs ≡ sum_by f ys
  Rearranges-sum_by f none_left = refl
  Rearranges-sum_by f (keep x r) = omega (arith, Rearranges-sum_by f r)
  Rearranges-sum_by f (swap x y) = omega arith
  Rearranges-sum_by f (further r s) = Rearranges-sum_by f r ∙ Rearranges-sum_by f s

  pub Rearranges-length : {xs ys : List A} → Rearranges xs ys → length xs ≡ length ys
  Rearranges-length none_left = refl
  Rearranges-length (keep x r) = ap suc (Rearranges-length r)
  Rearranges-length (swap x y) = refl
  Rearranges-length (further r s) = Rearranges-length r ∙ Rearranges-length s

  pub Rearranges-IsDistinct :
      (f : A → ℕ) {xs ys : List A} → Rearranges xs ys → IsDistinct f xs → IsDistinct f ys
  Rearranges-IsDistinct f none_left h = h
  Rearranges-IsDistinct f (keep x r) h =
      (Rearranges-All (λ y. f x ≢ f y) r h.0, Rearranges-IsDistinct f r h.1)
  Rearranges-IsDistinct f (swap x y) h = (((λ e. h.0.0 (sym e)), h.1.0), (h.0.1, h.1.1))
  Rearranges-IsDistinct f (further r s) h = Rearranges-IsDistinct f s (Rearranges-IsDistinct f r h)

module _ {A B : Type 0} (f : A → B) where
  pub Rearranges-map : {xs ys : List A} → Rearranges xs ys → Rearranges (map f xs) (map f ys)
  Rearranges-map none_left = none_left
  Rearranges-map (keep x r) = keep (f x) (Rearranges-map r)
  Rearranges-map (swap x y) = swap (f x) (f y)
  Rearranges-map (further r s) = further (Rearranges-map r) (Rearranges-map s)

  pub Any-map : (P : B → Type 0) (xs : List A) → Any (λ x. P (f x)) xs → Any P (map f xs)
  Any-map P [] h = elim h [ ]
  Any-map P (x ∷ xs) (inl p) = inl p
  Any-map P (x ∷ xs) (inr h) = inr (Any-map P xs h)

  pub All-map : (P : B → Type 0) (xs : List A) → All (λ x. P (f x)) xs → All P (map f xs)
  All-map P [] h = tt
  All-map P (x ∷ xs) h = (h.0, All-map P xs h.1)

  pub All-of_map : (P : B → Type 0) (xs : List A) → All P (map f xs) → All (λ x. P (f x)) xs
  All-of_map P [] h = tt
  All-of_map P (x ∷ xs) h = (h.0, All-of_map P xs h.1)

  pub Any-of_map : (P : B → Type 0) (xs : List A) → Any P (map f xs) → Any (λ x. P (f x)) xs
  Any-of_map P [] h = elim h [ ]
  Any-of_map P (x ∷ xs) (inl p) = inl p
  Any-of_map P (x ∷ xs) (inr h) = inr (Any-of_map P xs h)

  pub sum_by-map : (g : B → ℕ) (xs : List A) → sum_by g (map f xs) ≡ sum_by (λ x. g (f x)) xs
  sum_by-map g [] = refl
  sum_by-map g (x ∷ xs) = ap (λ n. g (f x) + n) (sum_by-map g xs)

  pub IsDistinct-of_map :
      (g : B → ℕ) (xs : List A) → IsDistinct g (map f xs) → IsDistinct (λ x. g (f x)) xs
  IsDistinct-of_map g [] h = tt
  IsDistinct-of_map g (x ∷ xs) h =
      (All-of_map (λ y. g (f x) ≢ g y) xs h.0, IsDistinct-of_map g xs h.1)
