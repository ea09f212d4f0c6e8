-- ===== src/Tcp/Handshake/ThreeWay.antt =====
-- The whole handshake between a client and a server, each with its own world.
use gonet.Prelude.{
  ℕ, ◌+◌, ◌^◌, ◌≤◌, ◌<◌, ◌≡◌, ◌⊎◌, refl, ap, ◌∙◌, true, Option, none, List, arith, u32, ok,
}
use gonet.Tcp.State.{established, syn_sent, syn_received, new_state_machine}
use gonet.Tcp.Header.{Header, parse_header}
use gonet.Tcp.Checksum.{new_checksum_calculator, verify}
use gonet.Tcp.Conn.{ConnKey, TcpConn, new_tcp_conn, current_state}
use gonet.Tcp.Conn.Send.{IsKey}
use gonet.Tcp.Handshake.{send_syn, handle_syn, handle_synack, handle_ack_in_syn_received}
use gonet.Tcp.Handshake.Steps.{lower}
use gonet.Tcp.Handshake.Sides.{
  in_state, numbered, received, send_syn_step, handle_syn_step, handle_synack_step, handle_ack_step,
}

-- The key of the other side.
abbrev pub mirror : ConnKey → ConnKey
mirror k = record {
  src_ip = k.dst_ip;
  src_port = k.dst_port;
  dst_ip = k.src_ip;
  dst_port = k.src_port;
}

abbrev pub Output : Type 0 → Type 0 → Type 0
Output W E = List ℕ → W → W × Option E

-- The segments that the two sides exchange, as bytes and as headers, and the connections between
-- the steps.
pub record Exchange (W E : Type 0) : Type 0 where
  pub syn : List ℕ
  pub synack : List ℕ
  pub ack : List ℕ
  pub syn_seg : Header
  pub synack_seg : Header
  pub ack_seg : Header
  pub client_waits : TcpConn W E
  pub client_done : TcpConn W E
  pub server_waits : TcpConn W E
  pub server_done : TcpConn W E

module _ {W E : Type 0} where
  -- The connection of `NewTCPConn` with an MSS of its own.
  abbrev pub fresh : ConnKey → Output W E → ℕ → TcpConn W E
  unfolding new_tcp_conn new_state_machine
  fresh k output mss = record (new_tcp_conn k output) { mss = mss }

  -- Every step succeeds and writes the segment that the other side's next step takes.
  pub record IsHandshake (k : ConnKey) (client server : TcpConn W E) (isn_c isn_s : ℕ) (wc ws : W)
      (x : Exchange W E) : Type 0 where
    pub syn_written : send_syn client isn_c wc ≡ (x.client_waits, (client.output x.syn wc).0, none)
    pub syn_parses : parse_header x.syn ≡ ok x.syn_seg
    pub syn_verifies : verify (new_checksum_calculator k.src_ip k.dst_ip) x.syn ≡ true
    pub synack_written :
        handle_syn server isn_s x.syn_seg ws ≡ (x.server_waits, (server.output x.synack ws).0, none)
    pub synack_parses : parse_header x.synack ≡ ok x.synack_seg
    pub synack_verifies : verify (new_checksum_calculator k.dst_ip k.src_ip) x.synack ≡ true
    pub ack_written :
        handle_synack x.client_waits x.synack_seg (client.output x.syn wc).0
        ≡ (x.client_done, (client.output x.ack (client.output x.syn wc).0).0, none)
    pub ack_parses : parse_header x.ack ≡ ok x.ack_seg
    pub ack_verifies : verify (new_checksum_calculator k.src_ip k.dst_ip) x.ack ≡ true
    pub ack_taken :
        handle_ack_in_syn_received x.server_waits x.ack_seg (server.output x.synack ws).0
        ≡ (x.server_done, (server.output x.synack ws).0, none)

  -- Both sides are in ESTABLISHED and agree on the sequence numbers, the windows and the lower one
  -- of two MSSs.
  pub record IsSynchronized (m n : ℕ) (client server : TcpConn W E) : Type 0 where
    pub client_established : current_state client ≡ established
    pub server_established : current_state server ≡ established
    pub client_to_server : server.rcv_nxt ≡ client.snd_nxt
    pub server_to_client : client.rcv_nxt ≡ server.snd_nxt
    pub client_acked : client.snd_una ≡ client.snd_nxt
    pub server_acked : server.snd_una ≡ server.snd_nxt
    pub client_window : client.snd_wnd ≡ server.rcv_wnd
    pub server_window : server.snd_wnd ≡ client.rcv_wnd
    pub same_mss : client.mss ≡ server.mss
    pub client_mss_kept : client.mss ≤ m
    pub server_mss_kept : client.mss ≤ n
    pub mss_of_either : (client.mss ≡ m) ⊎ (client.mss ≡ n)

mirror-IsKey : (k : ConnKey) → IsKey k → IsKey (mirror k)
mirror-IsKey k key = record {
  src_bytes = key.dst_bytes;
  dst_bytes = key.src_bytes;
  src_port_fits = key.dst_port_fits;
  dst_port_fits = key.src_port_fits;
}

lower-low : (m n : ℕ) → 0 < m → 0 < n → 0 < lower n m
lower-low m n p q = ground arith

lower-high : (m n : ℕ) → m < 65536 → n < 65536 → lower n m < 65536
lower-high m n p q = ground arith

lower-agrees : (m n : ℕ) → lower m (lower n m) ≡ lower n m
lower-agrees m n = ground arith

lower-least :
    (m n : ℕ)
    → (lower m (lower n m) ≤ m)
      × (lower m (lower n m) ≤ n)
      × ((lower m (lower n m) ≡ m) ⊎ (lower m (lower n m) ≡ n))
lower-least m n = ground arith

-- A client and a server, both fresh with mirrored keys, that take each other's segments complete
-- the handshake, for addresses of bytes, ports and initial sequence numbers that fit, an MSS above
-- 0 on either side and output functions that return no error: each step succeeds and writes one
-- segment, which parses and verifies; then both are in ESTABLISHED, each expects the other's next
-- sequence number, nothing is unacknowledged, and they agree on the windows and on the lower MSS.
pub three_way-IsHandshake :
    {W E : Type 0} (k : ConnKey) (out_c out_s : Output W E) (m n isn_c isn_s : ℕ) (wc ws : W)
    → IsKey k
    → 0 < m
    → m < 65536
    → 0 < n
    → n < 65536
    → isn_c < 2 ^ 32
    → isn_s < 2 ^ 32
    → ((segment : List ℕ) (w : W) → (out_c segment w).1 ≡ none)
    → ((segment : List ℕ) (w : W) → (out_s segment w).1 ≡ none)
    → (x : Exchange W E) × IsHandshake k
        (fresh k out_c m)
        (fresh (mirror k) out_s n)
        isn_c
        isn_s
        wc
        ws
        x
      × IsSynchronized m n x.client_done x.server_done
unfolding new_tcp_conn new_state_machine current_state
three_way-IsHandshake k out_c out_s m n isn_c isn_s wc ws key m_low m_high n_low n_high c_fits
      s_fits ok_c ok_s =
    let c = fresh k out_c m in
    let s = fresh (mirror k) out_s n in
    let (syn, hs, e1, p1) = send_syn_step c wc key (omega arith) ok_c isn_c c_fits in
    let (synack, hsa, e2, p2) =
      handle_syn_step s ws (mirror-IsKey k key) (omega arith) ok_s isn_s hs m s_fits p1.flags
        p1.options m_low m_high in
    let (ack, ha, e3, p3) =
      handle_synack_step (numbered c isn_c) (out_c syn wc).0 key (omega arith) ok_c hsa (lower n m)
        (omega arith) p2.flags (p2.ack_num ∙ ap (λ q. u32 (q + 1)) p1.seq_num) p2.options
        (lower-low m n m_low n_low) (lower-high m n m_high n_high) in
    let s_waits = numbered (received s hs m) isn_s in
    let ws' = (out_s synack ws).0 in
    let their_nxt = ap (λ q. u32 (q + 1)) p1.seq_num in
    let our_nxt = ap (λ q. u32 (q + 1)) p2.seq_num in
    let e4 = handle_ack_step s_waits ws' ha p3.flags (p3.ack_num ∙ our_nxt) in
    (
      record {
        syn = syn;
        synack = synack;
        ack = ack;
        syn_seg = hs;
        synack_seg = hsa;
        ack_seg = ha;
        client_waits = in_state (numbered c isn_c) syn_sent;
        client_done =
            in_state
              (record (received (numbered c isn_c) hsa (lower n m)) { snd_una = hsa.ack_num })
              established;
        server_waits = in_state s_waits syn_received;
        server_done =
            in_state (record s_waits { snd_una = ha.ack_num; snd_wnd = ha.window }) established;
      },
      record {
        syn_written = e1;
        syn_parses = p1.parses;
        syn_verifies = p1.verifies;
        synack_written = e2;
        synack_parses = p2.parses;
        synack_verifies = p2.verifies;
        ack_written = e3;
        ack_parses = p3.parses;
        ack_verifies = p3.verifies;
        ack_taken = e4;
      },
      record {
        client_established = refl;
        server_established = refl;
        client_to_server = their_nxt;
        server_to_client = our_nxt;
        client_acked = p2.ack_num ∙ their_nxt;
        server_acked = p3.ack_num ∙ our_nxt;
        client_window = p2.window;
        server_window = p3.window;
        same_mss = lower-agrees m n;
        client_mss_kept = (lower-least m n).0;
        server_mss_kept = (lower-least m n).1;
        mss_of_either = (lower-least m n).2;
      },
    )
