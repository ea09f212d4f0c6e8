-- ===== src/Tcp/State/Edges.antt =====
-- The state diagram of RFC 793 and RFC 1122 as a relation, and `Transition` against it.
use gonet.Prelude.{◌≡◌, refl, ◌≢◌, ◌⊎◌, inl, inr, true, none, some, arith, Bool-cases}
use gonet.Tcp.State.{
  State, closed, listen, syn_sent, syn_received, established, fin_wait_1, fin_wait_2, close_wait,
  closing, last_ack, time_wait, is_among, valid_transitions, StateMachine, transition, notify,
  to_string,
}

infix 40 ◌⟶◌
pub data ◌⟶◌ : State → State → Type 0 where
  passive_open : closed ⟶ listen
  active_open : closed ⟶ syn_sent
  receive_syn : listen ⟶ syn_received
  send_syn : listen ⟶ syn_sent
  simultaneous_open : syn_sent ⟶ syn_received
  receive_syn_ack : syn_sent ⟶ established
  receive_ack_of_syn : syn_received ⟶ established
  close_early : syn_received ⟶ fin_wait_1
  close_active : established ⟶ fin_wait_1
  receive_fin : established ⟶ close_wait
  receive_ack_of_fin : fin_wait_1 ⟶ fin_wait_2
  simultaneous_close : fin_wait_1 ⟶ closing
  receive_fin_ack : fin_wait_1 ⟶ time_wait
  receive_late_fin : fin_wait_2 ⟶ time_wait
  close_passive : close_wait ⟶ last_ack
  receive_ack_in_closing : closing ⟶ time_wait
  -- A close, a reset, a timeout or the last ACK.
  leave : {s : State} → s ≢ closed → s ⟶ closed

ruleset edges = (
  passive_open, active_open, receive_syn, send_syn, simultaneous_open, receive_syn_ack,
  receive_ack_of_syn, close_early, close_active, receive_fin, receive_ack_of_fin,
  simultaneous_close, receive_fin_ack, receive_late_fin, close_passive, receive_ack_in_closing,
  leave,
)

pub allowed_sound : (s t : State) → is_among t (valid_transitions s) ≡ true → s ⟶ t
unfolding is_among valid_transitions
allowed_sound s t h = grind (arith, edges)

leave_allowed : (s : State) → s ≢ closed → is_among closed (valid_transitions s) ≡ true
unfolding is_among valid_transitions
leave_allowed closed ne = absurd (ne refl)
leave_allowed listen ne = refl
leave_allowed _ ne = refl

pub allowed_complete : {s t : State} → s ⟶ t → is_among t (valid_transitions s) ≡ true
unfolding is_among valid_transitions
allowed_complete passive_open = refl
allowed_complete active_open = refl
allowed_complete receive_syn = refl
allowed_complete send_syn = refl
allowed_complete simultaneous_open = refl
allowed_complete receive_syn_ack = refl
allowed_complete receive_ack_of_syn = refl
allowed_complete close_early = refl
allowed_complete close_active = refl
allowed_complete receive_fin = refl
allowed_complete receive_ack_of_fin = refl
allowed_complete simultaneous_close = refl
allowed_complete receive_fin_ack = refl
allowed_complete receive_late_fin = refl
allowed_complete close_passive = refl
allowed_complete receive_ack_in_closing = refl
allowed_complete (leave {s} ne) = leave_allowed s ne

-- `Transition` follows the state diagram: along an edge it moves to the new state, calls the callback
-- once with both states and returns no error; for every other target it returns the error with the
-- names of both states, and the machine and the world stay as they are.
pub transition_follows :
    {W : Type 0} (sm : StateMachine W) (to : State) (w : W)
    → sm.current ⟶ to
        × (transition sm to w
            ≡ (record sm { current = to }, notify sm.on_transition sm.current to w, none))
      ⊎ ¬ (sm.current ⟶ to)
        × (transition sm to w
            ≡ (sm, w, some (record { from = to_string sm.current; to = to_string to })))
unfolding transition
transition_follows sm to w = elim (Bool-cases (is_among to (valid_transitions sm.current))) [
  | inl found ↦ inl (allowed_sound sm.current to found, rw found)
  | inr missing ↦ inr ((λ e. cc (allowed_complete e)), rw missing)
]
