-- ===== src/Prelude/DictLaws.antt =====
-- What is found in a map behind its updates, where the test of two keys is equality.
use mathlib.Core.Path.{◌≡◌, refl, sym, ap, ◌∙◌, subst}
use mathlib.Core.Logic.{inl, inr}
use mathlib.Core.Bool.{Bool, true, false}
use mathlib.Core.Option.{none, some}
use mathlib.Core.List.{List, [], ◌∷◌}
use gonet.Prelude.Tests.{if◌then◌else◌, Bool-cases}
use gonet.Prelude.Dict.{find, insert, erase}

module _ {K : Type 0} (same : K → K → Bool) (sound : (a b : K) → same a b ≡ true → b ≡ a) where
  -- Of two keys that differ from a third, or not, in the same way.
  same_by : (j k x : K) → same k x ≡ true → same j x ≡ same j k
  same_by j k x e = ap (same j) (sound k x e)

  never_both : (j k x : K) → same k x ≡ false → same j k ≡ true → same j x ≡ false
  never_both j k x e h = subst (λ y. same y x ≡ false) (sound j k h) e

module _ {K V : Type 0} (same : K → K → Bool) where
  -- No key stands twice in the list.
  abbrev pub NoTwice : List (K × V) → Type 0
  NoTwice [] = Unit {0}
  NoTwice ((k, v) ∷ d) = (find same k d ≡ none) × NoTwice d

  module _ (self : (k : K) → same k k ≡ true) (sound : (a b : K) → same a b ≡ true → b ≡ a) where
    pub find-insert_if :
        (j k : K) (v : V) (d : List (K × V))
        → find same j (insert same k v d) ≡ (if same j k then some v else find same j d)
    find-insert_if j k v [] = refl
    find-insert_if j k v ((x, w) ∷ d) = elim (Bool-cases (same k x)) [
      | inl here ↦ elim (Bool-cases (same j k)) [
        | inl mine ↦ rw here (rw mine refl)
        | inr other ↦ rw here (rw (other, same_by same sound j k x here ∙ other) refl)
      ]
      | inr later ↦ elim (Bool-cases (same j k)) [
        | inl mine ↦ rw later (
            rw (never_both same sound j k x later mine, mine)
              (find-insert_if j k v d ∙ rw mine refl))
        | inr other ↦ rw later (rw (find-insert_if j k v d) (rw other refl))
      ]
    ]

    pub find-erase_if :
        (j k : K) (d : List (K × V))
        → NoTwice d
        → find same j (erase same k d) ≡ (if same j k then none else find same j d)
    find-erase_if j k [] h = elim (Bool-cases (same j k)) [
      | inl mine ↦ rw mine refl
      | inr other ↦ rw other refl
    ]
    find-erase_if j k ((x, w) ∷ d) h = elim (Bool-cases (same k x)) [
      | inl here ↦ elim (Bool-cases (same j k)) [
        | inl mine ↦ rw here (rw mine (absent here mine))
        | inr other ↦ rw here (rw (other, same_by same sound j k x here ∙ other) refl)
      ]
      | inr later ↦ elim (Bool-cases (same j k)) [
        | inl mine ↦ rw later (
            rw (never_both same sound j k x later mine, mine)
              (find-erase_if j k d h.1 ∙ rw mine refl))
        | inr other ↦ rw later (rw (find-erase_if j k d h.1) (rw other refl))
      ]
    ]
      where
        absent : same k x ≡ true → same j k ≡ true → find same j d ≡ none
        absent here mine = subst (λ y. find same y d ≡ none) (sound k x here ∙ sound j k mine) h.0

    find_if_none :
        (j k : K) (d : List (K × V))
        → find same j d ≡ none
        → (if same j k then none else find same j d) ≡ none
    find_if_none j k d e = elim (Bool-cases (same j k)) [
      | inl mine ↦ rw mine refl
      | inr other ↦ rw other e
    ]

    pub NoTwice-insert :
        (k : K) (v : V) (d : List (K × V)) → NoTwice d → NoTwice (insert same k v d)
    NoTwice-insert k v [] h = (refl, tt)
    NoTwice-insert k v ((x, w) ∷ d) h = elim (Bool-cases (same k x)) [
      | inl here ↦ rw here (subst (λ y. find same y d ≡ none) (sound k x here) h.0, h.1)
      | inr later ↦
          rw later (find-insert_if x k v d ∙ rw (apart later) h.0, NoTwice-insert k v d h.1)
    ]
      where
        apart : same k x ≡ false → same x k ≡ false
        apart later = elim (Bool-cases (same x k)) [
          | inl e ↦ absurd (cc (later, subst (λ y. same y x ≡ true) (sym (sound x k e)) (self x)))
          | inr e ↦ e
        ]

    pub NoTwice-erase : (k : K) (d : List (K × V)) → NoTwice d → NoTwice (erase same k d)
    NoTwice-erase k [] h = tt
    NoTwice-erase k ((x, w) ∷ d) h = elim (Bool-cases (same k x)) [
      | inl here ↦ rw here h.1
      | inr later ↦
          rw later (find-erase_if x k d h.1 ∙ find_if_none x k d h.0, NoTwice-erase k d h.1)
    ]
