-- ===== src/Tcp/State/Runs.antt =====
-- Runs of the state machine, and its theorems at concrete machines.
use gonet.Prelude.{ℕ, ◌+◌, ◌≡◌, refl, ◌⊎◌, none, some, List, [], ◌∷◌}
use gonet.Tcp.State.{
  State, closed, listen, syn_sent, syn_received, established, fin_wait_1, time_wait, StateMachine,
  transition, notify, to_string, attempt_all, new_state_machine, set_on_transition,
}
use mathlib.Core.List.{Memᴰ}
use gonet.Tcp.State.Edges.{◌⟶◌, transition_follows}
use gonet.Tcp.State.Histories.{opened_by}

-- A machine whose callback counts.
abbrev counting : StateMachine ℕ
unfolding new_state_machine set_on_transition
counting = set_on_transition (new_state_machine closed) (λ from to n. n + 1)

abbrev client_life : List State
client_life = syn_sent ∷ time_wait ∷ established ∷ fin_wait_1 ∷ []

attempt_run :
    ((attempt_all counting client_life 0).0.current ≡ fin_wait_1)
    × ((attempt_all counting client_life 0).1 ≡ 3)
unfolding attempt_all transition new_state_machine set_on_transition
attempt_run = (refl, refl)

transition_run :
    (transition counting time_wait 0).2 ≡ some (record { from = "CLOSED"; to = "TIME_WAIT" })
unfolding transition to_string new_state_machine set_on_transition
transition_run = refl

transition_follows_example :
    (closed ⟶ listen)
      × (transition counting listen 0 ≡ (
        record counting { current = listen },
        notify counting.on_transition closed listen 0,
        none,
      ))
    ⊎ ¬ (closed ⟶ listen)
      × (transition counting listen 0
          ≡ (counting, 0, some (record { from = to_string closed; to = to_string listen })))
unfolding new_state_machine set_on_transition
transition_follows_example = transition_follows counting listen 0

opened_by_example : Memᴰ syn_received client_life ⊎ Memᴰ established client_life
unfolding attempt_all transition new_state_machine set_on_transition
opened_by_example = opened_by counting client_life 0 refl refl
