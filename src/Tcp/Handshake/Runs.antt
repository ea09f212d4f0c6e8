-- ===== src/Tcp/Handshake/Runs.antt =====
-- The handshake and the sending of segments at concrete connections.
use gonet.Prelude.{ℕ, ◌≡◌, refl, none, List, [], ◌∷◌, arith}
use gonet.Tcp.Header.{Header}
use gonet.Tcp.Conn.{ConnKey, new_tcp_conn, send}
use gonet.Tcp.Conn.Send.{IsKey, IsSegmentOf, send_lem}
use gonet.Tcp.Handshake.Steps.{bare_header, bare_header-IsSendable}
use gonet.Tcp.Handshake.ThreeWay.{
  Output, Exchange, IsHandshake, IsSynchronized, fresh, mirror, three_way-IsHandshake,
}

-- An output that keeps what is sent.
abbrev Sent : Type 0
Sent = List (List ℕ)

abbrev keep : Output Sent ℕ
keep segment sent = (segment ∷ sent, none)

abbrev key : ConnKey
key = record {
  src_ip = 10 ∷ 0 ∷ 0 ∷ 1 ∷ [];
  src_port = 50000;
  dst_ip = 10 ∷ 0 ∷ 0 ∷ 2 ∷ [];
  dst_port = 80;
}

key-IsKey : IsKey key
key-IsKey = record {
  src_bytes = omega arith;
  dst_bytes = omega arith;
  src_port_fits = omega arith;
  dst_port_fits = omega arith;
}

three_way-IsHandshake_example :
    (x : Exchange Sent ℕ) × IsHandshake key
      (fresh key keep 1460)
      (fresh (mirror key) keep 536)
      4294967295
      7
      []
      []
      x
    × IsSynchronized 1460 536 x.client_done x.server_done
three_way-IsHandshake_example =
    three_way-IsHandshake key keep keep 1460 536 4294967295 7 [] [] key-IsKey (omega arith)
      (omega arith) (omega arith) (omega arith) (omega arith) (omega arith) (λ segment sent. refl)
      (λ segment sent. refl)

send_lem_example :
    (segment : List ℕ) × (parsed : Header) × (send
        (new_tcp_conn key keep)
        (bare_header (new_tcp_conn key keep) 16 5 6)
        []
        []
      ≡ (new_tcp_conn key keep, segment ∷ [], none))
    × IsSegmentOf key (bare_header (new_tcp_conn key keep) 16 5 6) segment parsed
unfolding new_tcp_conn
send_lem_example =
    send_lem (new_tcp_conn key keep) (bare_header (new_tcp_conn key keep) 16 5 6) [] key-IsKey (
      bare_header-IsSendable (new_tcp_conn key keep) 16 5 6 key-IsKey (omega arith) (omega arith)
        (omega arith) (omega arith))
