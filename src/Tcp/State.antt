-- ===== src/Tcp/State.antt =====
-- internal/tcp/state.go: the TCP states, the table of transitions and `StateMachine`. The callback
-- is a function on a world `W` of the caller; the lock and the log lines are left out.
pub mod Edges
pub mod Histories
mod Runs
use Prim.Native.String.{String}
use gonet.Prelude.{ℕ, Bool, false, Option, none, some, List, [], ◌∷◌, ◌||◌, ◌==◌, if◌then◌else◌}

pub data State : Type 0 where
  closed listen syn_sent syn_received established fin_wait_1 fin_wait_2 close_wait closing last_ack
        time_wait :
      State

-- The value of the constant, by `iota`.
abbrev pub value : State → ℕ
value closed = 0
value listen = 1
value syn_sent = 2
value syn_received = 3
value established = 4
value fin_wait_1 = 5
value fin_wait_2 = 6
value close_wait = 7
value closing = 8
value last_ack = 9
value time_wait = 10

unfoldable pub to_string : State → String
to_string closed = "CLOSED"
to_string listen = "LISTEN"
to_string syn_sent = "SYN_SENT"
to_string syn_received = "SYN_RECEIVED"
to_string established = "ESTABLISHED"
to_string fin_wait_1 = "FIN_WAIT_1"
to_string fin_wait_2 = "FIN_WAIT_2"
to_string close_wait = "CLOSE_WAIT"
to_string closing = "CLOSING"
to_string last_ack = "LAST_ACK"
to_string time_wait = "TIME_WAIT"

unfoldable pub valid_transitions : State → List State
valid_transitions closed = listen ∷ syn_sent ∷ []
valid_transitions listen = syn_received ∷ syn_sent ∷ closed ∷ []
valid_transitions syn_sent = syn_received ∷ established ∷ closed ∷ []
valid_transitions syn_received = established ∷ fin_wait_1 ∷ closed ∷ []
valid_transitions established = fin_wait_1 ∷ close_wait ∷ closed ∷ []
valid_transitions fin_wait_1 = fin_wait_2 ∷ closing ∷ time_wait ∷ closed ∷ []
valid_transitions fin_wait_2 = time_wait ∷ closed ∷ []
valid_transitions close_wait = last_ack ∷ closed ∷ []
valid_transitions closing = time_wait ∷ closed ∷ []
valid_transitions last_ack = closed ∷ []
valid_transitions time_wait = closed ∷ []

-- `for _, state := range allowed { if state == to { valid = true; break } }`
unfoldable pub is_among : State → List State → Bool
is_among to [] = false
is_among to (state ∷ allowed) = value state == value to || is_among to allowed

-- The names in the text of the error.
pub record InvalidTransition : Type 0 where
  pub from : String
  pub to : String

pub record StateMachine (W : Type 0) : Type 0 where
  pub current : State
  pub on_transition : Option (State → State → W → W)

module _ {W : Type 0} where
  unfoldable pub new_state_machine : State → StateMachine W
  new_state_machine initial = record { current = initial; on_transition = none }

  unfoldable pub set_on_transition : StateMachine W → (State → State → W → W) → StateMachine W
  set_on_transition sm cb = record sm { on_transition = some cb }

  -- The callback, if one is configured.
  unfoldable pub notify : Option (State → State → W → W) → State → State → W → W
  notify none from to w = w
  notify (some cb) from to w = cb from to w

  unfoldable pub transition :
      StateMachine W → State → W → StateMachine W × W × Option InvalidTransition
  unfolding is_among valid_transitions notify
  transition sm to w =
      if is_among to (valid_transitions sm.current)
      then (record sm { current = to }, notify sm.on_transition sm.current to w, none)
      else (sm, w, some (record { from = to_string sm.current; to = to_string to }))

  -- `Is`
  unfoldable pub is : StateMachine W → State → Bool
  is sm s = value sm.current == value s

  -- Attempted transitions, one behind the other.
  unfoldable pub attempt_all : StateMachine W → List State → W → StateMachine W × W
  attempt_all sm [] w = (sm, w)
  attempt_all sm (to ∷ rest) w = let (sm', w', e) = transition sm to w in attempt_all sm' rest w'
