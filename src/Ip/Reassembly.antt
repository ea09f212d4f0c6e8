-- ===== src/Ip/Reassembly.antt =====
-- internal/ip/reassembly.go: `ReassemblyBuffer`. The maps are association lists in the order of
-- arrival; the clock is an argument, in nanoseconds; the callback is a function on
-- a world `W`. The goroutine of `Start` calls `cleanup` at its ticks.
pub mod Group
pub mod Evict
pub mod Held
pub mod Age
pub mod Keys
pub mod Sound
pub mod Invariant
pub mod Duplicates
pub mod Machines
pub mod OneAdd
pub mod Refinement
pub mod Mine
pub mod Interleaved
pub mod Panics
pub mod Parts
pub mod Arrival
pub mod Rebuild
pub mod Sequence
pub mod Filling
pub mod Piece
pub mod Cut
pub mod Delivery
mod Runs
mod Mixed
use gonet.Prelude.{
  ℕ, ◌+◌, ◌-◌, bit_and, Bool, true, false, ◌&&◌, ◌||◌, not, Option, none, some, List, [], ◌∷◌, ltb,
  ◌==◌, if◌then◌else◌, Result, ok, err, panic, ◌>>=◌, copy,
}
use gonet.Prelude.Dict.{find, insert, erase}
use gonet.Prelude.Net.{to4, same_bytes}
use gonet.Ip.Errors.{Error, invalid_fragment}
use gonet.Ip.Header.{Header, parse_header, header_len, payload, flag_mf}
use gonet.Ip.Reassembly.Group.{
  FragmentGroup, Visit, reassemble, new_group, add_to_group, is_duplicate, complete_len,
}

pub record FragmentKey : Type 0 where
  pub src : List ℕ
  pub dst : List ℕ
  pub id : ℕ
  pub proto : ℕ

unfoldable pub same_fragment_key : FragmentKey → FragmentKey → Bool
same_fragment_key a b =
    same_bytes a.src b.src && (same_bytes a.dst b.dst && (a.id == b.id && a.proto == b.proto))

pub record ReassemblyStats : Type 0 where
  pub groups_active : ℕ
  pub fragments_added : ℕ
  pub reassembled : ℕ
  pub evicted : ℕ

pub record ReassemblyBuffer (W : Type 0) : Type 0 where
  pub groups : List (FragmentKey × FragmentGroup)
  pub on_complete : List ℕ → W → W
  pub stats : ReassemblyStats

-- `copy(key.src[:], ip.To4())`
unfoldable pub four_bytes : Option (List ℕ) → List ℕ
four_bytes none = 0 ∷ 0 ∷ 0 ∷ 0 ∷ []
four_bytes (some four) = copy (0 ∷ 0 ∷ 0 ∷ 0 ∷ []) four

unfoldable pub fragment_key : Header → FragmentKey
unfolding four_bytes
fragment_key h = record {
  src = four_bytes (to4 h.src);
  dst = four_bytes (to4 h.dst);
  id = h.id;
  proto = h.protocol;
}

unfoldable pub is_fragment : Header → Bool
is_fragment h = not (bit_and h.flags flag_mf == 0) || ltb 0 h.frag_offset

-- The loop of `cleanup`, over the groups that are left.
unfoldable pub evict :
    ℕ
    → List (FragmentKey × FragmentGroup)
    → ReassemblyStats
    → List (FragmentKey × FragmentGroup) × ReassemblyStats
evict now [] stats = ([], stats)
evict now ((key, group) ∷ groups) stats =
    let stale = ltb 30000000000 (now - group.created_at) in
    let stats' =
      if stale
      then record stats { groups_active = stats.groups_active - 1; evicted = stats.evicted + 1 }
      else stats in
    let (kept, stats'') = evict now groups stats' in
    (if stale then kept else (key, group) ∷ kept, stats'')

module _ {W : Type 0} where
  unfoldable pub new_reassembly_buffer : (List ℕ → W → W) → ReassemblyBuffer W
  new_reassembly_buffer on_complete = record {
    groups = [];
    on_complete = on_complete;
    stats = record { groups_active = 0; fragments_added = 0; reassembled = 0; evicted = 0 };
  }

  -- The group of a key, which is made where there is none.
  unfoldable pub group_of :
      FragmentKey → ℕ → ReassemblyBuffer W → FragmentGroup × ReassemblyBuffer W
  unfolding new_group
  group_of key now b = elim (find same_fragment_key key b.groups) [
    | some group ↦ (group, b)
    | none ↦ (
      new_group now,
      record b {
        groups = insert same_fragment_key key (new_group now) b.groups;
        stats = record (b.stats) { groups_active = b.stats.groups_active + 1 };
      },
    )
  ]

  -- The changed group in the map, and the count of fragments.
  unfoldable pub store_group :
      FragmentKey → FragmentGroup → Bool → ReassemblyBuffer W → ReassemblyBuffer W
  store_group key group duplicate b = record b {
    groups = insert same_fragment_key key group b.groups;
    stats = record (b.stats) {
      fragments_added = if duplicate then b.stats.fragments_added else b.stats.fragments_added + 1;
    };
  }

  -- `delete(b.groups, key)`, with the counts.
  unfoldable pub drop_group : FragmentKey → Bool → ReassemblyBuffer W → ReassemblyBuffer W
  drop_group key done b = record b {
    groups = erase same_fragment_key key b.groups;
    stats = record (b.stats) {
      groups_active = b.stats.groups_active - 1;
      reassembled = if done then b.stats.reassembled + 1 else b.stats.reassembled;
    };
  }

  -- What is left to do with the result of `reassemble`: an error is logged only.
  unfoldable pub finish_group :
      FragmentKey
      → ReassemblyBuffer W
      → W
      → Result Error (List ℕ)
      → Result Error (ReassemblyBuffer W × W)
  unfolding drop_group
  finish_group key b w (ok packet) = ok (drop_group key true b, b.on_complete packet w)
  finish_group key b w (err e) = ok (drop_group key false b, w)
  finish_group key b w panic = panic

  -- The end of the locked part of `Add`.
  unfoldable pub settle :
      Visit
      → FragmentKey
      → FragmentGroup
      → ReassemblyBuffer W
      → W
      → Option ℕ
      → Result Error (ReassemblyBuffer W × W)
  settle visit key group b w none = ok (b, w)
  settle visit key group b w (some total) = finish_group key b w (reassemble visit group total)

  -- What `Add` does with the group of the key.
  unfoldable pub add_with :
      Visit
      → Header
      → List ℕ
      → FragmentKey
      → W
      → FragmentGroup × ReassemblyBuffer W
      → Result Error (ReassemblyBuffer W × W)
  add_with visit h frag key w (group0, b1) =
      let group = add_to_group h frag group0 in
      settle visit key group (store_group key group (is_duplicate h group0) b1) w
        (complete_len group)

  -- The locked part of `Add`.
  unfoldable pub add_fragment :
      Visit → ℕ → Header → List ℕ → ReassemblyBuffer W → W → Result Error (ReassemblyBuffer W × W)
  unfolding add_with
  add_fragment visit now h frag b w =
      add_with visit h frag (fragment_key h) w (group_of (fragment_key h) now b)

  unfoldable pub add :
      Visit → ℕ → List ℕ → ReassemblyBuffer W → W → Result Error (ReassemblyBuffer W × W)
  add visit now fragment b w = parse_header fragment >>= λ h.
      if not (is_fragment h)
      then ok (b, b.on_complete fragment w)
      else add_fragment visit now h fragment b w

  unfoldable pub cleanup : ℕ → ReassemblyBuffer W → ReassemblyBuffer W
  cleanup now b =
      let (groups, stats) = evict now b.groups b.stats in
      record b { groups = groups; stats = stats }

  -- `Stats`
  unfoldable pub reassembly_stats : ReassemblyBuffer W → ReassemblyStats
  reassembly_stats b = b.stats

  -- Arrivals one behind the other, each with its time.
  unfoldable pub add_all :
      Visit → List (ℕ × List ℕ) → ReassemblyBuffer W → W → Result Error (ReassemblyBuffer W × W)
  add_all visit [] b w = ok (b, w)
  add_all visit ((now, frag) ∷ rest) b w =
      add visit now frag b w >>= λ (b', w'). add_all visit rest b' w'
