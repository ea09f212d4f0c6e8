-- ===== src/Tcp/Handshake.antt =====
-- internal/tcp/handshake.go: the three-way handshake, one function per step. Each takes the initial
-- sequence number that the code generates, and leaves the connection as the code does on each return.
pub mod Steps
pub mod Sides
pub mod ThreeWay
mod Runs
use gonet.Prelude.{ℕ, ◌+◌, bit_or, ◌||◌, not, none, some, [], ◌∷◌, ◌==◌, if◌then◌else◌, u32}
use gonet.Tcp.State.{State, closed, listen, syn_sent, syn_received, established, is}
use gonet.Tcp.Header.{Header, flag_syn, flag_ack, has_flag}
use gonet.Tcp.Conn.{
  TcpConn, ConnError, Step, unexpected_segment, bad_ack, and_then, send, new_header, send_ack,
  mss_option, negotiate_mss, move,
}

module _ {W E : Type 0} where
  -- The new initial sequence number; SYN consumes one sequence number.
  unfoldable pub number_from : TcpConn W E → ℕ → TcpConn W E
  number_from c isn = record c { snd_isn = isn; snd_una = isn; snd_nxt = u32 (isn + 1) }

  unfoldable pub send_syn : TcpConn W E → ℕ → W → Step W E
  send_syn c0 isn w0 =
      let c = number_from c0 isn in
      let h = record (new_header c flag_syn) {
        seq_num = c.snd_isn;
        options = mss_option c.mss ∷ [];
      } in
      and_then (send c h [] w0) (λ c1 w1. move c1 syn_sent w1)

  unfoldable pub send_synack : TcpConn W E → ℕ → W → Step W E
  send_synack c0 isn w =
      let c = number_from c0 isn in
      let h = record (new_header c (bit_or flag_syn flag_ack)) {
        seq_num = c.snd_isn;
        ack_num = c.rcv_nxt;
        options = mss_option c.mss ∷ [];
      } in
      send c h [] w

  -- `if c.state.Is(StateClosed) { ... }`
  unfoldable pub listen_if_closed : TcpConn W E → W → Step W E
  listen_if_closed c w = if is c.state closed then move c listen w else (c, w, none)

  -- The sequence number and the window of a peer's SYN, and the MSS.
  unfoldable pub receive_syn : TcpConn W E → Header → TcpConn W E
  receive_syn c seg =
      negotiate_mss (record c { rcv_nxt = u32 (seg.seq_num + 1); snd_wnd = seg.window }) seg

  unfoldable pub handle_syn : TcpConn W E → ℕ → Header → W → Step W E
  handle_syn c0 isn seg w0 =
      if not (has_flag seg flag_syn)
      then (c0, w0, some unexpected_segment)
      else and_then (listen_if_closed c0 w0) (λ c1 w1.
        and_then (send_synack (receive_syn c1 seg) isn w1) (λ c2 w2. move c2 syn_received w2))

  unfoldable pub handle_synack : TcpConn W E → Header → W → Step W E
  handle_synack c0 seg w0 =
      if not (has_flag seg flag_syn) || not (has_flag seg flag_ack)
      then (c0, w0, some unexpected_segment)
      else if not (seg.ack_num == c0.snd_nxt)
      then (c0, w0, some bad_ack)
      else and_then (send_ack (receive_syn (record c0 { snd_una = seg.ack_num }) seg) w0)
          (λ c1 w1. move c1 established w1)

  unfoldable pub handle_ack_in_syn_received : TcpConn W E → Header → W → Step W E
  handle_ack_in_syn_received c seg w =
      if not (has_flag seg flag_ack)
      then (c, w, some unexpected_segment)
      else if not (seg.ack_num == c.snd_nxt)
      then (c, w, some bad_ack)
      else move (record c { snd_una = seg.ack_num; snd_wnd = seg.window }) established w
