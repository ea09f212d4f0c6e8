-- ===== src/Tcp/Conn.antt =====
-- internal/tcp/conn.go: `TCPConn` and the sending of segments. The output function is an argument, a
-- function on a world `W`; `GenerateISN` reads the system's random numbers and its clock, so an
-- initial sequence number is an argument where the code calls it. The log lines are left out.
pub mod Send
use gonet.Prelude.{
  ℕ, ◌&&◌, Option, none, some, List, [], ◌∷◌, ◌++◌, map, ltb, ◌==◌, if◌then◌else◌, length, Result,
  ok, err, panic, uint16_at, be16,
}
use mathlib.Core.Option
use gonet.Tcp.State.{State, StateMachine, InvalidTransition, new_state_machine, transition, closed}
use gonet.Tcp.Header.{Header, TcpOption, marshal, flag_ack, opt_mss}
use gonet.Tcp.Checksum.{ChecksumCalculator, new_checksum_calculator, set_and_compute}

abbrev pub default_mss : ℕ
default_mss = 1460

abbrev pub default_window : ℕ
default_window = 65535

-- `ConnKey` of internal/tcp/conn_table.go.
pub record ConnKey : Type 0 where
  pub src_ip : List ℕ
  pub src_port : ℕ
  pub dst_ip : List ℕ
  pub dst_port : ℕ

pub record TcpConn (W E : Type 0) : Type 0 where
  pub key : ConnKey
  pub state : StateMachine W
  pub snd_isn : ℕ
  pub snd_nxt : ℕ
  pub snd_una : ℕ
  pub snd_wnd : ℕ
  pub rcv_nxt : ℕ
  pub rcv_wnd : ℕ
  pub mss : ℕ
  pub output : List ℕ → W → W × Option E

-- The errors of the connection, ErrUnexpectedSegment and ErrBadAck among them, and a run-time panic.
pub data ConnError (E : Type 0) : Type 0 where
  unexpected_segment bad_ack panicked : ConnError E
  output_failed : E → ConnError E
  transition_failed : InvalidTransition → ConnError E

-- What a method leaves: the connection, the world and its error result.
abbrev pub Step : (W E : Type 0) → Type 0
Step W E = TcpConn W E × W × Option (ConnError E)

unfoldable pub mss_option : ℕ → TcpOption
mss_option mss = record { kind = opt_mss; len = 4; content = be16 mss }

-- The loop of `parseMSS`.
unfoldable pub find_mss : List TcpOption → Option ℕ
find_mss [] = none
find_mss (opt ∷ opts) =
    let rest = find_mss opts in
    if opt.kind == opt_mss && length opt.content == 2 then some (uint16_at opt.content 0) else rest

unfoldable pub parse_mss : Header → Option ℕ
parse_mss h = find_mss h.options

module _ {W E : Type 0} where
  unfoldable pub new_tcp_conn : ConnKey → (List ℕ → W → W × Option E) → TcpConn W E
  new_tcp_conn key output = record {
    key = key;
    state = new_state_machine closed;
    snd_isn = 0;
    snd_nxt = 0;
    snd_una = 0;
    snd_wnd = default_window;
    rcv_nxt = 0;
    rcv_wnd = default_window;
    mss = default_mss;
    output = output;
  }

  unfoldable pub current_state : TcpConn W E → State
  current_state c = c.state.current

  -- `if err := ...; err != nil { return err }` in front of the rest.
  unfoldable pub and_then : Step W E → (TcpConn W E → W → Step W E) → Step W E
  and_then (c, w, none) rest = rest c w
  and_then (c, w, some e) rest = (c, w, some e)

  unfoldable pub checksum_calc : TcpConn W E → ChecksumCalculator
  checksum_calc c = new_checksum_calculator c.key.src_ip c.key.dst_ip

  -- `return c.output(segment)`
  unfoldable pub output_segment : TcpConn W E → Result (ConnError E) (List ℕ) → W → Step W E
  output_segment c (ok segment) w =
      let (w', failed) = c.output segment w in (c, w', Option.map output_failed failed)
  output_segment c (err e) w = (c, w, some e)
  output_segment c panic w = (c, w, some panicked)

  unfoldable pub send : TcpConn W E → Header → List ℕ → W → Step W E
  send c h payload w =
      let marshalled = (marshal h).0 in
      let segment = if ltb 0 (length payload) then marshalled ++ payload else marshalled in
      output_segment c (set_and_compute (checksum_calc c) segment) w

  unfoldable pub new_header : TcpConn W E → ℕ → Header
  new_header c flags = record {
    src_port = c.key.src_port;
    dst_port = c.key.dst_port;
    seq_num = 0;
    ack_num = 0;
    data_offset = 0;
    flags = flags;
    window = c.rcv_wnd;
    checksum = 0;
    urgent = 0;
    options = [];
  }

  unfoldable pub send_ack : TcpConn W E → W → Step W E
  send_ack c w =
      send c (record (new_header c flag_ack) { seq_num = c.snd_nxt; ack_num = c.rcv_nxt }) [] w

  unfoldable pub negotiate_mss : TcpConn W E → Header → TcpConn W E
  negotiate_mss c seg = elim (parse_mss seg) [
    | some peer_mss ↦
        if ltb 0 peer_mss && ltb peer_mss c.mss then record c { mss = peer_mss } else c
    | none ↦ c
  ]

  -- `return c.state.Transition(to)`
  unfoldable pub move : TcpConn W E → State → W → Step W E
  move c to w =
      let (sm, w', failed) = transition c.state to w in
      (record c { state = sm }, w', Option.map transition_failed failed)
