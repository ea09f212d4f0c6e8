-- ===== src/Tcp/Handshake/Sides.antt =====
-- The four steps of the handshake that succeed, two on either side.
use gonet.Prelude.{ℕ, ◌+◌, ◌^◌, ◌<◌, ◌≡◌, refl, ap, ◌∙◌, none, List, [], ◌∷◌, arith, eq→==, u32}
use gonet.Tcp.State.{
  State, closed, listen, syn_sent, syn_received, established, is, transition, valid_transitions,
  is_among, notify,
}
use gonet.Tcp.Header.{Header, has_flag}
use gonet.Tcp.Conn.{TcpConn, and_then, send, send_ack, new_header, mss_option, move}
use gonet.Tcp.Conn.Send.{IsKey, IsSegmentOf}
use gonet.Tcp.Handshake.{
  number_from, send_syn, send_synack, listen_if_closed, receive_syn, handle_syn, handle_synack,
  handle_ack_in_syn_received,
}
use gonet.Tcp.Handshake.Steps.{
  IsReliable, lower, syn_header, bare_header, syn_header-IsSendable, bare_header-IsSendable,
  and_then-send, receive_syn-lower,
}

module _ {W E : Type 0} where
  -- A connection in a state, without a callback.
  abbrev pub in_state : TcpConn W E → State → TcpConn W E
  in_state c s = record c { state = record { current = s; on_transition = none } }

  -- A connection behind `sendSYN` or `sendSYNACK`, but for its state.
  abbrev pub numbered : TcpConn W E → ℕ → TcpConn W E
  numbered c isn = record c { snd_isn = isn; snd_una = isn; snd_nxt = u32 (isn + 1) }

  -- A connection that has received a SYN.
  abbrev pub received : TcpConn W E → Header → ℕ → TcpConn W E
  received c seg peer = record c {
    rcv_nxt = u32 (seg.seq_num + 1);
    snd_wnd = seg.window;
    mss = lower c.mss peer;
  }

module _ {W E : Type 0} (c : TcpConn W E) (w : W) where
  handle_syn-opened :
      (isn : ℕ) (seg : Header)
      → seg.flags ≡ 2
      → handle_syn (in_state c closed) isn seg w
        ≡ and_then
            (send_synack (receive_syn (in_state c listen) seg) isn w)
            (λ c2 w2. move c2 syn_received w2)
  unfolding handle_syn has_flag listen_if_closed and_then is move transition valid_transitions
      is_among notify
  handle_syn-opened isn seg syn = rw syn

  send_synack-numbered :
      (isn : ℕ)
      → and_then (send_synack (in_state c listen) isn w) (λ c2 w2. move c2 syn_received w2)
        ≡ and_then
            (send (in_state (numbered c isn) listen) (syn_header c 18 isn c.rcv_nxt) [] w)
            (λ c2 w2. move c2 syn_received w2)
  unfolding send_synack number_from new_header
  send_synack-numbered isn = refl

  send_ack-bare :
      and_then (send_ack (in_state c syn_sent) w) (λ c2 w2. move c2 established w2)
      ≡ and_then
          (send (in_state c syn_sent) (bare_header c 16 c.snd_nxt c.rcv_nxt) [] w)
          (λ c2 w2. move c2 established w2)
  unfolding send_ack new_header
  send_ack-bare = refl

  move_received : move (in_state c listen) syn_received w ≡ (in_state c syn_received, w, none)
  unfolding move transition valid_transitions is_among notify
  move_received = refl

  move_established : move (in_state c syn_sent) established w ≡ (in_state c established, w, none)
  unfolding move transition valid_transitions is_among notify
  move_established = refl

  handle_synack-acked :
      (seg : Header)
      → seg.flags ≡ 18
      → seg.ack_num ≡ c.snd_nxt
      → handle_synack (in_state c syn_sent) seg w
        ≡ and_then
            (send_ack (receive_syn (in_state (record c { snd_una = seg.ack_num }) syn_sent) seg) w)
            (λ c1 w1. move c1 established w1)
  unfolding handle_synack has_flag
  handle_synack-acked seg flags acks = rw (flags, eq→== seg.ack_num c.snd_nxt acks)

  pub handle_ack_step :
      (seg : Header)
      → seg.flags ≡ 16
      → seg.ack_num ≡ c.snd_nxt
      → handle_ack_in_syn_received (in_state c syn_received) seg w
        ≡ (in_state (record c { snd_una = seg.ack_num; snd_wnd = seg.window }) established, w, none)
  unfolding handle_ack_in_syn_received has_flag move transition valid_transitions is_among notify
  handle_ack_step seg flags acks = rw (flags, eq→== seg.ack_num c.snd_nxt acks)

module _ {W E : Type 0} (c : TcpConn W E) (w : W) (k : IsKey c.key) (wnd : c.rcv_wnd < 65536)
    (reliable : IsReliable c) where
  pub send_syn_step :
      (isn : ℕ)
      → isn < 2 ^ 32
      → (syn : List ℕ) × (parsed : Header) × (send_syn (in_state c closed) isn w
          ≡ (in_state (numbered c isn) syn_sent, (c.output syn w).0, none))
        × IsSegmentOf c.key (syn_header c 2 isn 0) syn parsed
  unfolding send_syn number_from new_header move transition valid_transitions is_among notify
  send_syn_step isn fits =
      and_then-send (in_state (numbered c isn) closed) (syn_header c 2 isn 0) w
        (λ c1 w1. move c1 syn_sent w1) k
        (syn_header-IsSendable c 2 isn 0 k wnd (omega arith) fits (omega arith)) reliable

  pub handle_syn_step :
      (isn : ℕ) (seg : Header) (peer : ℕ)
      → isn < 2 ^ 32
      → seg.flags ≡ 2
      → seg.options ≡ mss_option peer ∷ []
      → 0 < peer
      → peer < 65536
      → (synack : List ℕ) × (parsed : Header) × (handle_syn (in_state c closed) isn seg w ≡ (
        in_state (numbered (received c seg peer) isn) syn_received,
        (c.output synack w).0,
        none,
      ))
        × IsSegmentOf c.key
            (syn_header (received c seg peer) 18 isn (u32 (seg.seq_num + 1)))
            synack
            parsed
  handle_syn_step isn seg peer fits syn options low high =
      let (synack, parsed, sent, made) =
        and_then-send (in_state (numbered (received c seg peer) isn) listen)
          (syn_header (received c seg peer) 18 isn (u32 (seg.seq_num + 1))) w
          (λ c2 w2. move c2 syn_received w2) k
          (syn_header-IsSendable (received c seg peer) 18 isn (u32 (seg.seq_num + 1)) k wnd
            (omega arith) fits (omega arith))
          reliable in
      (
        synack,
        parsed,
        handle_syn-opened c w isn seg syn
            ∙ ap (λ c1. and_then (send_synack c1 isn w) (λ c2 w2. move c2 syn_received w2))
                (receive_syn-lower (in_state c listen) seg peer options low high)
            ∙ send_synack-numbered (received c seg peer) w isn
            ∙ sent
            ∙ move_received (numbered (received c seg peer) isn) (c.output synack w).0,
        made,
      )

  pub handle_synack_step :
      (seg : Header) (peer : ℕ)
      → c.snd_nxt < 2 ^ 32
      → seg.flags ≡ 18
      → seg.ack_num ≡ c.snd_nxt
      → seg.options ≡ mss_option peer ∷ []
      → 0 < peer
      → peer < 65536
      → (ack : List ℕ) × (parsed : Header) × (handle_synack (in_state c syn_sent) seg w ≡ (
        in_state (record (received c seg peer) { snd_una = seg.ack_num }) established,
        (c.output ack w).0,
        none,
      ))
        × IsSegmentOf c.key (bare_header c 16 c.snd_nxt (u32 (seg.seq_num + 1))) ack parsed
  handle_synack_step seg peer fits flags acks options low high =
      let (ack, parsed, sent, made) =
        and_then-send (in_state (record (received c seg peer) { snd_una = seg.ack_num }) syn_sent)
          (bare_header c 16 c.snd_nxt (u32 (seg.seq_num + 1))) w (λ c1 w1. move c1 established w1) k
          (bare_header-IsSendable c 16 c.snd_nxt (u32 (seg.seq_num + 1)) k wnd (omega arith) fits
            (omega arith))
          reliable in
      (
        ack,
        parsed,
        handle_synack-acked c w seg flags acks
            ∙ ap (λ c1. and_then (send_ack c1 w) (λ c2 w2. move c2 established w2))
                (receive_syn-lower (in_state (record c { snd_una = seg.ack_num }) syn_sent) seg peer
                  options low high)
            ∙ send_ack-bare (record (received c seg peer) { snd_una = seg.ack_num }) w
            ∙ sent
            ∙ move_established (record (received c seg peer) { snd_una = seg.ack_num })
                (c.output ack w).0,
        made,
      )
