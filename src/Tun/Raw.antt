-- ===== src/Tun/Raw.antt =====
-- internal/tun/raw.go: the raw socket, over the system of Tun/System. `Sendto` and `net.ParseIP` are
-- arguments; `Sendto` gets the bytes and the address, acts on a world `W`, and may fail.
pub mod Destination
mod Runs
use gonet.Prelude.{
  ℕ, Option, none, some, List, [], ◌∷◌, ltb, if◌then◌else◌, length, Result, ok, err, slice, copy,
}
use gonet.Prelude.Net.{to4, ipv4}
use gonet.Tun.System.{Answer, done, refused, raw_ip, System}

pub data SocketError (E : Type 0) : Type 0 where
  not_supported packet_too_short invalid_bind_address : SocketError E
  socket_failed setsockopt_failed bind_failed sendto_failed close_failed : E → SocketError E

pub record RawSocket : Type 0 where
  pub fd : ℕ
  pub name : List ℕ

-- `Sendto` of the system.
abbrev pub Sendto : (W E : Type 0) → Type 0
Sendto W E = List ℕ → List ℕ → W → W × Option E

module _ {W E : Type 0} where
  unfoldable pub read : List ℕ → W → W × Result (SocketError E) ℕ
  read buf w = (w, err not_supported)

  unfoldable pub sent : List ℕ → W × Option E → W × Result (SocketError E) ℕ
  sent buf (w, none) = (w, ok (length buf))
  sent buf (w, some e) = (w, err (sendto_failed e))

  unfoldable pub write : Sendto W E → List ℕ → W → W × Result (SocketError E) ℕ
  unfolding sent
  write sendto buf w =
      if ltb (length buf) 20
      then (w, err packet_too_short)
      else sent buf (sendto buf (copy (0 ∷ 0 ∷ 0 ∷ 0 ∷ []) (slice buf 16 20)) w)

-- `net.ParseIP(bindIP)`, or `net.IPv4zero` where that is nil.
unfoldable pub bind_address : Option (List ℕ) → List ℕ
bind_address none = ipv4 0 0 0 0
bind_address (some ip) = ip

module _ {W E : Type 0} (sys : System W E) where
  unfoldable pub raw_fail_closing :
      {A : Type 0} → ℕ → SocketError E → W → W × Answer (SocketError E) A
  raw_fail_closing fd e w = ((sys.close fd w).0, refused e)

  -- The end, by the answer to `Bind`; "raw-" stands in front of the name.
  unfoldable pub raw_bound : ℕ → List ℕ → W × Option E → W × Answer (SocketError E) RawSocket
  unfolding raw_fail_closing
  raw_bound fd bind_ip (w, some e) = raw_fail_closing fd (bind_failed e) w
  raw_bound fd bind_ip (w, none) =
      (w, done (record { fd = fd; name = 114 ∷ 97 ∷ 119 ∷ 45 ∷ bind_ip }))

  -- `ip = ip.To4()`, and what follows.
  unfoldable pub raw_bind : ℕ → List ℕ → Option (List ℕ) → W → W × Answer (SocketError E) RawSocket
  unfolding raw_fail_closing raw_bound
  raw_bind fd bind_ip none w = raw_fail_closing fd invalid_bind_address w
  raw_bind fd bind_ip (some ip) w =
      raw_bound fd bind_ip (sys.bind fd (copy (0 ∷ 0 ∷ 0 ∷ 0 ∷ []) ip) w)

  module _ (parse_ip : List ℕ → Option (List ℕ)) where
    -- By the answer to `IP_HDRINCL`.
    unfoldable pub raw_configure : ℕ → List ℕ → W × Option E → W × Answer (SocketError E) RawSocket
    unfolding raw_fail_closing raw_bind bind_address
    raw_configure fd bind_ip (w, some e) = raw_fail_closing fd (setsockopt_failed e) w
    raw_configure fd bind_ip (w, none) =
        raw_bind fd bind_ip (to4 (bind_address (parse_ip bind_ip))) w

    unfoldable pub raw_opened : List ℕ → W × Answer E ℕ → W × Answer (SocketError E) RawSocket
    unfolding raw_configure
    raw_opened bind_ip (w, refused e) = (w, refused (socket_failed e))
    raw_opened bind_ip (w, done fd) = raw_configure fd bind_ip (sys.include_header fd w)

    unfoldable pub open_raw : List ℕ → W → W × Answer (SocketError E) RawSocket
    unfolding raw_opened
    open_raw bind_ip w = raw_opened bind_ip (sys.socket raw_ip w)

  unfoldable pub close_raw : RawSocket → W → W × Option E
  close_raw s w = sys.close s.fd w
