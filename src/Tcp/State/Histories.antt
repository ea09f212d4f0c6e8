-- ===== src/Tcp/State/Histories.antt =====
-- What holds after any attempted transitions.
use mathlib.Core.List.{Memᴰ}
use gonet.Prelude.{◌≡◌, sym, ◌⊎◌, inl, inr, Bool, true, false, Option, List, [], ◌∷◌, arith}
use gonet.Tcp.State.{
  InvalidTransition, State, closed, listen, syn_sent, syn_received, established, fin_wait_1,
  fin_wait_2, close_wait, closing, last_ack, time_wait, StateMachine, transition, attempt_all,
  notify, is_among, valid_transitions,
}
use gonet.Tcp.State.Edges.{
  ◌⟶◌, transition_follows, allowed_complete, passive_open, active_open, receive_syn, close_active,
  receive_fin, receive_ack_of_fin, simultaneous_close, receive_late_fin, close_passive, leave,
  receive_syn_ack,
}

infix 40 ◌⟶*◌
pub data ◌⟶*◌ : State → State → Type 0 where
  here : {s : State} → s ⟶* s
  move : {s t u : State} → s ⟶ t → t ⟶* u → s ⟶* u

⟶*-trans : {s t u : State} → s ⟶* t → t ⟶* u → s ⟶* u
⟶*-trans here q = q
⟶*-trans (move e p) q = move e (⟶*-trans p q)

attempt_all_step :
    {W : Type 0} (sm sm' : StateMachine W) (to : State) (tos : List State) (w w' : W)
    {e : Option InvalidTransition}
    → transition sm to w ≡ (sm', w', e)
    → attempt_all sm (to ∷ tos) w ≡ attempt_all sm' tos w'
unfolding attempt_all
attempt_all_step sm sm' to tos w w' h = λ i. attempt_all (h i).0 tos (h i).1

-- However the transitions of a machine are attempted, its state moves along the diagram.
pub attempt_all-⟶* :
    {W : Type 0} (sm : StateMachine W) (tos : List State) (w : W)
    → sm.current ⟶* (attempt_all sm tos w).0.current
unfolding attempt_all
attempt_all-⟶* sm [] w = here
attempt_all-⟶* sm (to ∷ tos) w = elim (transition_follows sm to w) [
  | inl (edge, moved) ↦
      rw
        (attempt_all_step sm (record sm { current = to }) to tos w
          (notify sm.on_transition sm.current to w) moved)
        (move edge (
          attempt_all-⟶* (record sm { current = to }) tos
            (notify sm.on_transition sm.current to w)))
  | inr (_, stays) ↦ rw (attempt_all_step sm sm to tos w w stays) (attempt_all-⟶* sm tos w)
]

to_closed : (s : State) → s ⟶* closed
to_closed closed = here
to_closed listen = move (leave (λ e. cc)) here
to_closed _ = move (leave (λ e. cc)) here

to_established : closed ⟶* established
to_established = move active_open (move receive_syn_ack here)

from_closed : (s : State) → closed ⟶* s
from_closed closed = here
from_closed listen = move passive_open here
from_closed syn_sent = move active_open here
from_closed syn_received = move passive_open (move receive_syn here)
from_closed established = to_established
from_closed fin_wait_1 = ⟶*-trans to_established (move close_active here)
from_closed fin_wait_2 = ⟶*-trans to_established (move close_active (move receive_ack_of_fin here))
from_closed close_wait = ⟶*-trans to_established (move receive_fin here)
from_closed closing = ⟶*-trans to_established (move close_active (move simultaneous_close here))
from_closed last_ack = ⟶*-trans to_established (move receive_fin (move close_passive here))
from_closed time_wait =
    ⟶*-trans to_established
      (move close_active (move receive_ack_of_fin (move receive_late_fin here)))

-- Every state of the diagram can be reached from every other: no state is dead and none is a trap.
pub ⟶*-all : (s t : State) → s ⟶* t
⟶*-all s t = ⟶*-trans (to_closed s) (from_closed t)

-- The states before a handshake has answered a SYN.
abbrev pub is_opening : State → Bool
is_opening closed = true
is_opening listen = true
is_opening syn_sent = true
is_opening _ = false

leaves_opening :
    {s t : State}
    → s ⟶ t
    → is_opening s ≡ true
    → (is_opening t ≡ true) ⊎ (t ≡ syn_received) ⊎ (t ≡ established)
unfolding is_among valid_transitions
leaves_opening e h = ground (arith, allowed_complete e)

-- A machine that starts in CLOSED, LISTEN or SYN_SENT and is found in another state has been given a
-- transition to SYN_RECEIVED or to ESTABLISHED.
pub opened_by :
    {W : Type 0} (sm : StateMachine W) (tos : List State) (w : W)
    → is_opening sm.current ≡ true
    → is_opening (attempt_all sm tos w).0.current ≡ false
    → Memᴰ syn_received tos ⊎ Memᴰ established tos
unfolding attempt_all
opened_by sm [] w h k = cc
opened_by sm (to ∷ tos) w h k = elim (transition_follows sm to w) [
  | inr (_, stays) ↦
      later (opened_by sm tos w h (rw (attempt_all_step sm sm to tos w w stays) at k))
  | inl (edge, moved) ↦ elim (leaves_opening edge h) [
    | inl still ↦ later (
        opened_by (record sm { current = to }) tos (notify sm.on_transition sm.current to w) still
          (rw
            (attempt_all_step sm (record sm { current = to }) to tos w
              (notify sm.on_transition sm.current to w) moved)
            at k))
    | inr (inl received) ↦ inl (Memᴰ.head (sym received))
    | inr (inr done) ↦ inr (Memᴰ.head (sym done))
  ]
]
  where
    later :
        Memᴰ syn_received tos ⊎ Memᴰ established tos
        → Memᴰ syn_received (to ∷ tos) ⊎ Memᴰ established (to ∷ tos)
    later (inl m) = inl (Memᴰ.tail m)
    later (inr m) = inr (Memᴰ.tail m)
