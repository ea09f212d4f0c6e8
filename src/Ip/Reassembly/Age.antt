-- ===== src/Ip/Reassembly/Age.antt =====
-- How long the reassembly buffer holds fragments: `Start` calls `cleanup` at every tick of its timer,
-- between the calls of `Add`.
use gonet.Prelude.{ℕ, ◌+◌, ◌≤◌, List, [], ◌∷◌, arith, All, Result, ok, err, panic, ◌>>=◌}
use gonet.Ip.Errors.{Error}
use gonet.Ip.Reassembly.Group.{Visit, new_group}
use gonet.Ip.Reassembly.{ReassemblyBuffer, new_reassembly_buffer, add, cleanup}
use gonet.Ip.Reassembly.Evict.{evict-Without}
use gonet.Ip.Reassembly.Held.{
  Held, Made, add-Made, add_to_group-Held, groups_later, ticked, IsRecent, IsRecent-groups,
}

-- What happens to a buffer, with its time: a fragment is added, or the timer of `Start` ticks.
pub data Event : Type 0 where
  arrives : ℕ → List ℕ → Event
  ticks : ℕ → Event

module _ {W : Type 0} where
  -- An error of `Add` leaves the buffer as it was.
  unfoldable pub kept :
      ReassemblyBuffer W
      → W
      → Result Error (ReassemblyBuffer W × W)
      → Result Error (ReassemblyBuffer W × W)
  kept b w (ok after) = ok after
  kept b w (err e) = ok (b, w)
  kept b w panic = panic

  unfoldable pub on_event :
      Visit → Event → ReassemblyBuffer W → W → Result Error (ReassemblyBuffer W × W)
  unfolding kept
  on_event visit (arrives now frag) b w = kept b w (add visit now frag b w)
  on_event visit (ticks now) b w = ok (cleanup now b, w)

  unfoldable pub on_events :
      Visit → List Event → ReassemblyBuffer W → W → Result Error (ReassemblyBuffer W × W)
  unfolding on_event
  on_events visit [] b w = ok (b, w)
  on_events visit (event ∷ events) b w =
      on_event visit event b w >>= λ (b', w'). on_events visit events b' w'

-- Events in the order of time, from `now` on, with a tick at `last` and then every ten seconds: the
-- time at which they end.
abbrev pub IsTimely : ℕ → ℕ → List Event → ℕ → Type 0
IsTimely last now [] end = (now ≤ end) × (end ≤ last + 10000000000)
IsTimely last now (arrives t frag ∷ events) end =
    (now ≤ t) × (t ≤ last + 10000000000) × IsTimely last t events end
IsTimely last now (ticks t ∷ events) end =
    (now ≤ t) × (t ≤ last + 10000000000) × IsTimely t t events end

-- The fragments that have arrived, each with its time, the last one first.
abbrev pub arrived : List (ℕ × List ℕ) → List Event → List (ℕ × List ℕ)
arrived past [] = past
arrived past (arrives t frag ∷ events) = arrived ((t, frag) ∷ past) events
arrived past (ticks t ∷ events) = arrived past events

module _ {W : Type 0} where
  -- What the buffer of a result holds at the time `end`.
  abbrev pub IsYoung : ℕ → List (ℕ × List ℕ) → Result Error (ReassemblyBuffer W × W) → Type 0
  IsYoung end past (ok (b, w)) = All (λ e. IsRecent end past e.1) b.groups
  IsYoung end past (err e) = ⊥
  IsYoung end past panic = Unit {0}

module _ {W : Type 0} (visit : Visit) where
  -- The rest of the events, behind the result of `Add`.
  first_added :
      (events : List Event) (last now end : ℕ) (past : List (ℕ × List ℕ)) (b : ReassemblyBuffer W)
      (w : W)
      → All (λ e. Held last now past e.1) b.groups
      → ((b' : ReassemblyBuffer W) (w' : W)
          → All (λ e. Held last now past e.1) b'.groups
          → IsYoung end (arrived past events) (on_events visit events b' w'))
      → (r : Result Error (ReassemblyBuffer W × W)) → Made (Held last now past) r
      → IsYoung end (arrived past events) (kept b w r >>= λ (b', w'). on_events visit events b' w')
  unfolding kept
  first_added events last now end past b w h rest (ok (b', w')) made = rest b' w' made
  first_added events last now end past b w h rest (err e) made = rest b w h
  first_added events last now end past b w h rest panic made = tt

  on_events_from-IsYoung :
      (events : List Event) (last now end : ℕ) (past : List (ℕ × List ℕ)) (b : ReassemblyBuffer W)
      (w : W)
      → last ≤ now
      → IsTimely last now events end
      → All (λ e. Held last now past e.1) b.groups
      → IsYoung end (arrived past events) (on_events visit events b w)
  unfolding on_events on_event cleanup new_group
  on_events_from-IsYoung [] last now end past b w le timely h =
      IsRecent-groups last now end past b.groups timely.1 h
  on_events_from-IsYoung (ticks t ∷ events) last now end past b w le (later, soon, timely) h =
      on_events_from-IsYoung events t t end past (cleanup t b) w (omega arith) timely
        (ticked last now past t later (evict-Without t b.groups b.stats) h)
  on_events_from-IsYoung (arrives t frag ∷ events) last now end past b w le (later, soon, timely)
        h =
      let all = groups_later last now past t frag b.groups later h in
      let past' = (t, frag) ∷ past in
      first_added events last t end past' b w all
        (λ b' w' held.
          on_events_from-IsYoung events last t end past' b' w' (omega (arith, le, later)) timely
            held)
        (add visit t frag b w)
        (add-Made (Held last t past') visit t frag b w (omega (arith, le, later), omega arith, tt)
          (λ h' g held. add_to_group-Held last t past h' frag g held) all)

-- A new buffer, with a tick of the timer every ten seconds: behind any calls of `Add` and `cleanup`
-- in the order of time, errors of `Add` included, either every group of the buffer was made and every
-- fragment that it holds has arrived in the last 40 seconds, or an `Add` has panicked.
pub on_events-IsYoung :
    {W : Type 0} (visit : Visit) (on_complete : List ℕ → W → W) (events : List Event)
    (start end : ℕ) (w : W)
    → IsTimely start start events end
    → IsYoung end (arrived [] events) (on_events visit events (new_reassembly_buffer on_complete) w)
unfolding new_reassembly_buffer
on_events-IsYoung visit on_complete events start end w timely =
    on_events_from-IsYoung visit events start start end [] (new_reassembly_buffer on_complete) w
      (omega arith) timely tt
