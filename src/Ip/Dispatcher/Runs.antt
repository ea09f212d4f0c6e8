-- ===== src/Ip/Dispatcher/Runs.antt =====
-- Runs of the dispatcher, and its theorems at a concrete packet.
use gonet.Prelude.{ℕ, ◌≡◌, refl, ◌⊎◌, none, List, [], ◌∷◌, ◌++◌, arith, take, ok}
use gonet.Ip.Header.{Header, parse_header, read_fields, payload}
use gonet.Ip.Dispatcher.{
  Dispatcher, ProtocolHandler, new_dispatcher, register, dispatch, dispatch_all, hand_over,
  add_received, add_dispatched, stats, reject, route, DispatchError,
}
use gonet.Ip.Dispatcher.Announced.{IsRoutable, announced_total, announced_header}
use gonet.Ip.Dispatcher.Routes.{Fails, dispatch_cases}
use gonet.Ip.Dispatcher.Delivery.{dispatch-parse_header}

-- A handler of ICMP that collects the payloads.
abbrev Inbox : Type 0
Inbox = List (List ℕ)

abbrev collector : ProtocolHandler Inbox ℕ
collector = record {
  protocol = 1;
  handle_ip_payload = λ src dst bytes inbox. (bytes ∷ inbox, none);
}

abbrev ping : List ℕ
ping =
    0x45 ∷ 0 ∷ 0 ∷ 22 ∷ 0 ∷ 1 ∷ 0 ∷ 0 ∷ 64 ∷ 1 ∷ 0 ∷ 0 ∷ 10 ∷ 0 ∷ 0 ∷ 1 ∷ 10 ∷ 0 ∷ 0 ∷ 2 ∷ 8 ∷ 0
    ∷ []

abbrev ping_header : Header
ping_header = record {
  version = 4;
  ihl = 5;
  tos = 0;
  total_len = 22;
  id = 1;
  flags = 0;
  frag_offset = 0;
  ttl = 64;
  protocol = 1;
  checksum = 0;
  src = 10 ∷ 0 ∷ 0 ∷ 1 ∷ [];
  dst = 10 ∷ 0 ∷ 0 ∷ 2 ∷ [];
  options = [];
}

abbrev listening : Dispatcher Inbox ℕ
unfolding register new_dispatcher
listening = register new_dispatcher collector

dispatch_run : (dispatch listening (ping ++ (0 ∷ 0 ∷ [])) []).1 ≡ (8 ∷ 0 ∷ []) ∷ []
unfolding dispatch register new_dispatcher
dispatch_run = refl

stats_run : stats (dispatch_all listening (ping ∷ (1 ∷ []) ∷ ping ∷ []) []).0 ≡ record {
  packets_received = 3;
  packets_invalid = 1;
  packets_dropped = 0;
  packets_dispatched = 2;
}
unfolding stats dispatch_all dispatch register new_dispatcher
stats_run = refl

ping_parses : parse_header ping ≡ ok ping_header
unfolding parse_header read_fields
ping_parses = refl

dispatch_cases_example :
    (IsRoutable ping
      × (dispatch listening ping []
          ≡ route
              (add_received listening)
              (take (announced_total ping) ping)
              (announced_header ping)
              []))
    ⊎ (¬ IsRoutable ping
        × ((e : DispatchError ℕ) × Fails e ping
            × (dispatch listening ping [] ≡ reject (add_received listening) [] e)))
unfolding register new_dispatcher
dispatch_cases_example = dispatch_cases listening ping [] (omega arith)

dispatch-parse_header_example :
    dispatch listening ping []
    ≡ hand_over (add_dispatched (add_received listening)) ((payload ping_header ping) ∷ [], none)
unfolding register new_dispatcher
dispatch-parse_header_example =
    dispatch-parse_header listening ping [] ping_header collector (omega arith) ping_parses
      (omega arith) (omega arith) refl
