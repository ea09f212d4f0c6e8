-- ===== src/Ip/Reassembly/Mine.antt =====
-- One reassembler among the others: with the arrivals of its own key alone, it holds and delivers
-- the same.
use gonet.Prelude.{
  ℕ, ◌≡◌, refl, sym, ap, ◌∙◌, inl, inr, Bool, true, false, ◌&&◌, Option, none, some, List, [], ◌∷◌,
  ◌++◌, if◌then◌else◌, Bool-cases, Result, ok, err, panic, ◌>>=◌,
}
use mathlib.Core.Path.{subst}
use gonet.Ip.Errors.{Error}
use gonet.Ip.Header.{Header, parse_header}
use gonet.Ip.Reassembly.Group.{FragmentGroup, Visit}
use gonet.Ip.Reassembly.{FragmentKey, same_fragment_key, fragment_key, is_fragment}
use gonet.Ip.Reassembly.Keys.{same_fragment_key-eq}
use gonet.Ip.Reassembly.Machines.{
  Machines, Delivery, machine, deliveries, updated, react_key, react_header, react, and_then,
  replay,
}

-- Whether these bytes are a fragment of the key.
abbrev header_carries : FragmentKey → Result Error Header → Bool
header_carries key (ok h) = is_fragment h && same_fragment_key key (fragment_key h)
header_carries key (err e) = false
header_carries key panic = false

-- The arrivals of one key.
abbrev pub mine : FragmentKey → List (ℕ × List ℕ) → List (ℕ × List ℕ)
mine key [] = []
mine key (arrival ∷ rest) =
    if header_carries key (parse_header arrival.1) then arrival ∷ mine key rest else mine key rest

abbrev pub is_of : FragmentKey → Option FragmentKey → Bool
is_of key none = false
is_of key (some k) = same_fragment_key key k

-- The deliveries of one key.
abbrev pub of_key : FragmentKey → List Delivery → List Delivery
of_key key [] = []
of_key key ((tag, packet) ∷ outs) =
    if is_of key tag then (tag, packet) ∷ of_key key outs else of_key key outs

of_key-append :
    (key : FragmentKey) (xs ys : List Delivery)
    → of_key key (xs ++ ys) ≡ of_key key xs ++ of_key key ys
of_key-append key [] ys = refl
of_key-append key ((tag, p) ∷ xs) ys = elim (Bool-cases (is_of key tag)) [
  | inl of_it ↦ rw of_it (ap (λ ds. (tag, p) ∷ ds) (of_key-append key xs ys))
  | inr not_of ↦ rw not_of (of_key-append key xs ys)
]

module _ (visit : Visit) (key : FragmentKey) where
  -- What one arrival does to the reassembler of the key, from states that agree on it.
  abbrev Follows :
      Bool
      → Machines
      → Result Error (Machines × List Delivery)
      → Result Error (Machines × List Delivery)
      → Type 0
  Follows true s1 (ok (s', out)) r1 =
      (s1' : Machines) × (r1 ≡ ok (s1', out)) × (s1' key ≡ s' key) × (of_key key out ≡ out)
  Follows false s1 (ok (s', out)) r1 = (s1 key ≡ s' key) × (of_key key out ≡ [])
  Follows c s1 (err e) r1 = Unit {0}
  Follows c s1 panic r1 = Unit {0}

  deliveries_mine :
      (k : FragmentKey) (out : Option (List ℕ))
      → same_fragment_key key k ≡ true
      → of_key key (deliveries k out) ≡ deliveries k out
  deliveries_mine k none same = refl
  deliveries_mine k (some packet) same = rw same refl

  deliveries_other :
      (k : FragmentKey) (out : Option (List ℕ))
      → same_fragment_key key k ≡ false
      → of_key key (deliveries k out) ≡ []
  deliveries_other k none other = refl
  deliveries_other k (some packet) other = rw other refl

  react_key-mine :
      (k : FragmentKey) (s s1 : Machines)
      (r : Result Error (Option FragmentGroup × Option (List ℕ)))
      → same_fragment_key key k ≡ true
      → Follows true s1 (react_key k s r) (react_key k s1 r)
  react_key-mine k s s1 (ok (held, out)) same =
      (updated k held s1, refl, rw same refl, deliveries_mine k out same)
  react_key-mine k s s1 (err e) same = tt
  react_key-mine k s s1 panic same = tt

  react_key-other :
      (k : FragmentKey) (s s1 : Machines)
      (r : Result Error (Option FragmentGroup × Option (List ℕ)))
      (r1 : Result Error (Machines × List Delivery))
      → same_fragment_key key k ≡ false
      → s1 key ≡ s key
      → Follows false s1 (react_key k s r) r1
  react_key-other k s s1 (ok (held, out)) r1 other agree =
      (rw other agree, deliveries_other k out other)
  react_key-other k s s1 (err e) r1 other agree = tt
  react_key-other k s s1 panic r1 other agree = tt

  react_header-Follows :
      (now : ℕ) (frag : List ℕ) (h : Header) (s s1 : Machines)
      → s1 key ≡ s key
      → Follows
          (header_carries key (ok h))
          s1
          (react_header visit now frag s h)
          (react_header visit now frag s1 h)
  react_header-Follows now frag h s s1 agree = elim (Bool-cases (is_fragment h)) [
    | inl cut ↦ elim (Bool-cases (same_fragment_key key (fragment_key h))) [
      | inl same ↦ rw cut (
          rw same (
            subst
              (λ held.
                Follows true s1
                  (react_key (fragment_key h) s (machine visit now h frag (s (fragment_key h))))
                  (react_key (fragment_key h) s1 (machine visit now h frag held)))
              (sym (
                subst (λ k. s1 k ≡ s k) (sym (same_fragment_key-eq key (fragment_key h) same))
                  agree))
              (react_key-mine (fragment_key h) s s1 (machine visit now h frag (s (fragment_key h)))
                same)))
      | inr other ↦ rw cut (
          rw other (
            react_key-other (fragment_key h) s s1 (machine visit now h frag (s (fragment_key h)))
              (react_key (fragment_key h) s1 (machine visit now h frag (s1 (fragment_key h)))) other
              agree))
    ]
    | inr whole ↦ rw whole (agree, refl)
  ]

  react-Follows :
      (now : ℕ) (frag : List ℕ) (s s1 : Machines)
      → s1 key ≡ s key
      → Follows
          (header_carries key (parse_header frag))
          s1
          (react visit now frag s)
          (react visit now frag s1)
  react-Follows now frag s s1 agree = by_header (parse_header frag)
    where
      by_header :
          (r : Result Error Header)
          → Follows
              (header_carries key r)
              s1
              (r >>= λ h. react_header visit now frag s h)
              (r >>= λ h. react_header visit now frag s1 h)
      by_header (ok h) = react_header-Follows now frag h s s1 agree
      by_header (err e) = tt
      by_header panic = tt

  -- Behind all arrivals: with its own ones alone, the reassembler of the key holds and delivers the
  -- same.
  abbrev pub Alone :
      Result Error (Machines × List Delivery) → Result Error (Machines × List Delivery) → Type 0
  Alone (ok (s', outs)) r1 =
      (s1' : Machines) × (r1 ≡ ok (s1', of_key key outs)) × (s1' key ≡ s' key)
  Alone (err e) r1 = Unit {0}
  Alone panic r1 = Unit {0}

  and_then-mine :
      (out : List Delivery) (r r1 : Result Error (Machines × List Delivery))
      → of_key key out ≡ out
      → Alone r r1
      → Alone (and_then out r) (and_then out r1)
  and_then-mine out (ok (s', outs)) r1 all_mine (s1', e, agree) = (
    s1',
    rw e (ap (λ ds. ok (s1', ds)) (sym (of_key-append key out outs ∙ rw all_mine refl))),
    agree,
  )
  and_then-mine out (err e) r1 all_mine h = tt
  and_then-mine out panic r1 all_mine h = tt

  and_then-other :
      (out : List Delivery) (r r1 : Result Error (Machines × List Delivery))
      → of_key key out ≡ []
      → Alone r r1
      → Alone (and_then out r) r1
  and_then-other out (ok (s', outs)) r1 none_mine (s1', e, agree) = (
    s1',
    e ∙ ap (λ ds. ok (s1', ds)) (sym (of_key-append key out outs ∙ rw none_mine refl)),
    agree,
  )
  and_then-other out (err e) r1 none_mine h = tt
  and_then-other out panic r1 none_mine h = tt

  module _ (rest : List (ℕ × List ℕ))
      (ih : (s s1 : Machines)
        → s1 key ≡ s key
        → Alone (replay visit rest s) (replay visit (mine key rest) s1)) where
    mine_first :
        (s1 : Machines) (r r1 : Result Error (Machines × List Delivery))
        → Follows true s1 r r1
        → Alone
            (r >>= λ (s', out). and_then out (replay visit rest s'))
            (r1 >>= λ (s', out). and_then out (replay visit (mine key rest) s'))
    mine_first s1 (ok (s', out)) r1 (s1', e, agree, all_mine) = rw e (
        and_then-mine out (replay visit rest s') (replay visit (mine key rest) s1') all_mine
          (ih s' s1' agree))
    mine_first s1 (err e) r1 h = tt
    mine_first s1 panic r1 h = tt

    other_first :
        (s1 : Machines) (r r1 : Result Error (Machines × List Delivery))
        → Follows false s1 r r1
        → Alone
            (r >>= λ (s', out). and_then out (replay visit rest s'))
            (replay visit (mine key rest) s1)
    other_first s1 (ok (s', out)) r1 (agree, none_mine) =
        and_then-other out (replay visit rest s') (replay visit (mine key rest) s1) none_mine
          (ih s' s1 agree)
    other_first s1 (err e) r1 h = tt
    other_first s1 panic r1 h = tt

  pub replay-mine :
      (arrivals : List (ℕ × List ℕ)) (s s1 : Machines)
      → s1 key ≡ s key
      → Alone (replay visit arrivals s) (replay visit (mine key arrivals) s1)
  unfolding replay
  replay-mine [] s s1 agree = (s1, refl, agree)
  replay-mine ((now, frag) ∷ rest) s s1 agree =
      elim (Bool-cases (header_carries key (parse_header frag))) [
        | inl carried ↦ rw carried (
            mine_first rest (replay-mine rest) s1 (react visit now frag s) (react visit now frag s1)
              (subst (λ c. Follows c s1 (react visit now frag s) (react visit now frag s1)) carried
                (react-Follows now frag s s1 agree)))
        | inr other ↦ rw other (
            other_first rest (replay-mine rest) s1 (react visit now frag s)
              (react visit now frag s1)
              (subst (λ c. Follows c s1 (react visit now frag s) (react visit now frag s1)) other
                (react-Follows now frag s s1 agree)))
      ]
