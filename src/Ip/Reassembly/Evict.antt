-- ===== src/Ip/Reassembly/Evict.antt =====
-- What `cleanup` leaves.
use gonet.Prelude.{
  none, ℕ, ◌+◌, ◌-◌, ◌<◌, ◌≡◌, refl, inl, inr, List, [], ◌∷◌, arith, ltb, if◌then◌else◌, ltb→lt,
  ltb_false→le, Bool-cases, length, All,
}
use gonet.Prelude.Dict.{find}
use gonet.Prelude.DictLaws.{NoTwice}
use gonet.Ip.Reassembly.Group.{FragmentGroup}
use gonet.Ip.Reassembly.{
  same_fragment_key, FragmentKey, ReassemblyStats, ReassemblyBuffer, evict, cleanup,
}

-- 30 seconds, in nanoseconds.
abbrev pub IsStale : ℕ → FragmentKey × FragmentGroup → Type 0
IsStale now e = 30000000000 < now - e.1.created_at

-- Some of the entries of a list, in their order: those that fail a test are left out.
pub data Without {A : Type 0} (P : A → Type 0) : List A → List A → Type 0 where
  nothing : Without P [] []
  leave : {x : A} {xs ys : List A} → P x → Without P xs ys → Without P (x ∷ xs) ys
  retain : {x : A} {xs ys : List A} → ¬ P x → Without P xs ys → Without P (x ∷ xs) (x ∷ ys)

module _ {A : Type 0} {P : A → Type 0} where
  Without-All : (Q : A → Type 0) {xs ys : List A} → Without P xs ys → All Q xs → All Q ys
  Without-All Q nothing h = h
  Without-All Q (leave p r) h = Without-All Q r h.1
  Without-All Q (retain p r) h = (h.0, Without-All Q r h.1)

abbrev after_one : ℕ → FragmentKey × FragmentGroup → ReassemblyStats → ReassemblyStats
after_one now e stats =
    if ltb 30000000000 (now - e.1.created_at)
    then record stats { groups_active = stats.groups_active - 1; evicted = stats.evicted + 1 }
    else stats

pub evict-Without :
    (now : ℕ) (groups : List (FragmentKey × FragmentGroup)) (stats : ReassemblyStats)
    → Without (IsStale now) groups (evict now groups stats).0
unfolding evict
evict-Without now [] stats = nothing
evict-Without now ((key, g) ∷ groups) stats =
    elim (Bool-cases (ltb 30000000000 (now - g.created_at))) [
      | inl stale ↦ rw stale (
          leave (ltb→lt 30000000000 (now - g.created_at) stale) (
            evict-Without now groups (record stats {
              groups_active = stats.groups_active - 1;
              evicted = stats.evicted + 1;
            })))
      | inr young ↦ rw young (
          retain (λ lt. omega (arith, lt, ltb_false→le 30000000000 (now - g.created_at) young))
            (evict-Without now groups stats))
    ]

pub evict-All :
    (P : FragmentKey × FragmentGroup → Type 0) (now : ℕ)
    (groups : List (FragmentKey × FragmentGroup)) (stats : ReassemblyStats)
    → All P groups
    → All P (evict now groups stats).0
evict-All P now groups stats h = Without-All P (evict-Without now groups stats) h

-- The counts, where `others` counts what is not in the list.
pub evict-counts :
    (now : ℕ) (groups : List (FragmentKey × FragmentGroup)) (stats : ReassemblyStats) (others : ℕ)
    → stats.groups_active ≡ others + length groups
    → (let (kept, stats') = evict now groups stats in
        (stats'.groups_active ≡ others + length kept)
        × (stats'.evicted + length kept ≡ stats.evicted + length groups)
        × (stats'.reassembled ≡ stats.reassembled)
        × (stats'.fragments_added ≡ stats.fragments_added))
unfolding evict
evict-counts now [] stats others h = (h, refl, refl, refl)
evict-counts now ((key, g) ∷ groups) stats others h =
    elim (Bool-cases (ltb 30000000000 (now - g.created_at))) [
      | inl stale ↦
          let (active, evicted, reassembled, added) =
            evict-counts now groups
              (record stats {
                groups_active = stats.groups_active - 1;
                evicted = stats.evicted + 1;
              })
              others (omega (arith, h)) in
          rw stale (active, omega (arith, evicted), reassembled, added)
      | inr young ↦
          let (active, evicted, reassembled, added) =
            evict-counts now groups stats (others + 1) (omega (arith, h)) in
          rw young (omega (arith, active), omega (arith, evicted), reassembled, added)
    ]

find-Without :
    (now : ℕ) (k : FragmentKey) {groups left : List (FragmentKey × FragmentGroup)}
    → Without (IsStale now) groups left
    → find same_fragment_key k groups ≡ none
    → find same_fragment_key k left ≡ none
find-Without now k nothing h = h
find-Without now k (leave {x = x} p r) h = elim (Bool-cases (same_fragment_key k x.0)) [
  | inl here ↦ absurd (cc (rw here at h))
  | inr other ↦ find-Without now k r (rw other at h)
]
find-Without now k (retain {x = x} p r) h = elim (Bool-cases (same_fragment_key k x.0)) [
  | inl here ↦ absurd (cc (rw here at h))
  | inr other ↦ rw other (find-Without now k r (rw other at h))
]

NoTwice-Without :
    (now : ℕ) {groups left : List (FragmentKey × FragmentGroup)}
    → Without (IsStale now) groups left
    → NoTwice same_fragment_key groups
    → NoTwice same_fragment_key left
NoTwice-Without now nothing h = h
NoTwice-Without now (leave p r) h = NoTwice-Without now r h.1
NoTwice-Without now (retain {x = x} p r) h = (find-Without now x.0 r h.0, NoTwice-Without now r h.1)

pub NoTwice-evict :
    (now : ℕ) (groups : List (FragmentKey × FragmentGroup)) (stats : ReassemblyStats)
    → NoTwice same_fragment_key groups
    → NoTwice same_fragment_key (evict now groups stats).0
NoTwice-evict now groups stats h = NoTwice-Without now (evict-Without now groups stats) h

-- `cleanup` removes exactly the groups that are older than 30 seconds and keeps the others in place;
-- the evicted groups are counted, and the count of active groups follows the number of groups if it
-- did before.
pub cleanup_lem :
    {W : Type 0} (now : ℕ) (b : ReassemblyBuffer W)
    → b.stats.groups_active ≡ length b.groups
    → (let b' = cleanup now b in
        Without (IsStale now) b.groups b'.groups
        × (b'.stats.groups_active ≡ length b'.groups)
        × (b'.stats.evicted + length b'.groups ≡ b.stats.evicted + length b.groups)
        × (b'.stats.reassembled ≡ b.stats.reassembled)
        × (b'.stats.fragments_added ≡ b.stats.fragments_added))
unfolding cleanup
cleanup_lem now b h =
    let (active, evicted, reassembled, added) =
      evict-counts now b.groups b.stats 0 (omega (arith, h)) in
    (evict-Without now b.groups b.stats, omega (arith, active), evicted, reassembled, added)
