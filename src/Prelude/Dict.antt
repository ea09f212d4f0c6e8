-- ===== src/Prelude/Dict.antt =====
-- A Go map as an association list, over a Boolean test of its keys: a new key goes to the end.
use mathlib.Core.Path.{◌≡◌, refl, sym, ap, subst}
use mathlib.Core.Logic.{inl, inr}
use Prim.Native.Nat.{◌+◌}
use mathlib.Core.Bool.{Bool, true}
use mathlib.Core.Option.{Option, none, some}
use mathlib.Core.List.{List, [], ◌∷◌, ◌++◌}
use native.Mathlib.Omega.{arith}
use gonet.Prelude.Tests.{if◌then◌else◌, Bool-cases}
use gonet.Prelude.Lists.{All, length}

module _ {K V : Type 0} (same : K → K → Bool) where
  abbrev pub find : K → List (K × V) → Option V
  find k [] = none
  find k ((j, v) ∷ d) = if same k j then some v else find k d

  -- `d[k] = v`
  abbrev pub insert : K → V → List (K × V) → List (K × V)
  insert k v [] = (k, v) ∷ []
  insert k v ((j, w) ∷ d) = if same k j then (k, v) ∷ d else (j, w) ∷ insert k v d

  -- `delete(d, k)`
  abbrev pub erase : K → List (K × V) → List (K × V)
  erase k [] = []
  erase k ((j, v) ∷ d) = if same k j then d else (j, v) ∷ erase k d

  pub insert_new :
      (k : K) (v : V) (d : List (K × V)) → find k d ≡ none → insert k v d ≡ d ++ (k, v) ∷ []
  insert_new k v [] h = refl
  insert_new k v ((j, w) ∷ d) h = ground (arith, insert_new k v d)

  module _ (k : K) (self : same k k ≡ true) where
    pub find_last :
        (v : V) (d : List (K × V)) → find k d ≡ none → find k (d ++ (k, v) ∷ []) ≡ some v
    find_last v [] h = rw self
    find_last v ((j, w) ∷ d) h = ground (arith, find_last v d)

    pub insert_last :
        (v v' : V) (d : List (K × V))
        → find k d ≡ none
        → insert k v' (d ++ (k, v) ∷ []) ≡ d ++ (k, v') ∷ []
    insert_last v v' [] h = rw self
    insert_last v v' ((j, w) ∷ d) h = ground (arith, insert_last v v' d)

    pub erase_last : (v : V) (d : List (K × V)) → find k d ≡ none → erase k (d ++ (k, v) ∷ []) ≡ d
    erase_last v [] h = rw self
    erase_last v ((j, w) ∷ d) h = ground (arith, erase_last v d)

    pub find-insert : (v : V) (d : List (K × V)) → find k (insert k v d) ≡ some v
    find-insert v [] = rw self
    find-insert v ((j, w) ∷ d) = elim (Bool-cases (same k j)) [
      | inl e ↦ rw e (rw self)
      | inr e ↦ rw e (rw e (find-insert v d))
    ]

  pub erase-insert :
      (k : K) (v : V) (d : List (K × V)) → same k k ≡ true → erase k (insert k v d) ≡ erase k d
  erase-insert k v [] self = rw self refl
  erase-insert k v ((j, w) ∷ d) self = elim (Bool-cases (same k j)) [
    | inl e ↦ rw e (rw self refl)
    | inr e ↦ rw e (rw e (ap (λ es. (j, w) ∷ es) (erase-insert k v d self)))
  ]

  pub insert_found :
      (k : K) (v : V) (d : List (K × V))
      → ((j : K) → same k j ≡ true → j ≡ k)
      → find k d ≡ some v
      → insert k v d ≡ d
  insert_found k v [] key h = absurd (cc h)
  insert_found k v ((j, w) ∷ d) key h = elim (Bool-cases (same k j)) [
    | inl e ↦ rw e (λ i. (sym (key j e) i, sym (value e) i) ∷ d)
    | inr e ↦ rw e (ap (λ es. (j, w) ∷ es) (insert_found k v d key (rw e at h)))
  ]
    where
      value : same k j ≡ true → w ≡ v
      value e = cc (rw e at h)

  pub length-insert_old :
      (k : K) (v w : V) (d : List (K × V)) → find k d ≡ some w → length (insert k v d) ≡ length d
  length-insert_old k v w [] h = absurd (cc h)
  length-insert_old k v w ((j, u) ∷ d) h = ground (arith, length-insert_old k v w d)

  pub length-erase :
      (k : K) (w : V) (d : List (K × V)) → find k d ≡ some w → length (erase k d) + 1 ≡ length d
  length-erase k w [] h = absurd (cc h)
  length-erase k w ((j, u) ∷ d) h = ground (arith, length-erase k w d)

  module _ (P : K × V → Type 0) where
    pub All-insert : (k : K) (v : V) (d : List (K × V)) → P (k, v) → All P d → All P (insert k v d)
    All-insert k v [] p h = (p, tt)
    All-insert k v ((j, w) ∷ d) p h = elim (Bool-cases (same k j)) [
      | inl e ↦ rw e (p, h.1)
      | inr e ↦ rw e (h.0, All-insert k v d p h.1)
    ]

    pub All-erase : (k : K) (d : List (K × V)) → All P d → All P (erase k d)
    All-erase k [] h = tt
    All-erase k ((j, w) ∷ d) h = elim (Bool-cases (same k j)) [
      | inl e ↦ rw e h.1
      | inr e ↦ rw e (h.0, All-erase k d h.1)
    ]

    pub find-All :
        (k : K) (v : V) (d : List (K × V))
        → ((j : K) → same k j ≡ true → j ≡ k)
        → find k d ≡ some v
        → All P d
        → P (k, v)
    find-All k v [] key h a = absurd (cc h)
    find-All k v ((j, w) ∷ d) key h a = elim (Bool-cases (same k j)) [
      | inl e ↦ subst (λ x. P (x, v)) (key j e) (subst (λ x. P (j, x)) (cc (rw e at h)) a.0)
      | inr e ↦ find-All k v d key (rw e at h) a.1
    ]
