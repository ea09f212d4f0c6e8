-- ===== src/Tun/Device.antt =====
-- internal/tun/tun.go: `OpenTUN` and `Close` of the TUN device, over the system of Tun/System. The
-- error messages are values with the error of the system in them.
pub mod Descriptors
use gonet.Prelude.{
  ℕ, bit_or, Option, none, some, List, [], ◌∷◌, ◌==◌, if◌then◌else◌, take, replicate, copy,
}
use gonet.Prelude.Integers.{ℤ, bits32}
use gonet.Tun.System.{
  Answer, done, refused, Ifreq, tunsetiff, siocgifflags, siocsifflags, siocsifmtu, datagram, System,
}

pub record Interface : Type 0 where
  pub fd : ℕ
  pub name : List ℕ
  pub mtu : ℤ

pub data TunError (E : Type 0) : Type 0 where
  no_tun_module permission_denied open_failed tunsetiff_failed socket_failed siocsifmtu_failed
        siocgifflags_failed siocsifflags_failed close_failed read_failed write_failed :
      E → TunError E

-- `bytes.TrimRight(name, "\x00")`
unfoldable pub trim_right : List ℕ → List ℕ
trim_right [] = []
trim_right (b ∷ bs) =
    let rest = trim_right bs in
    elim rest [ [] ↦ if b == 0 then [] else b ∷ [] | c ∷ cs ↦ b ∷ c ∷ cs ]

-- `var ifr ifreq`, with the name and the front of the data copied in.
unfoldable pub request_for : List ℕ → List ℕ → Ifreq
request_for name front = record {
  name = copy (replicate 16 0) name;
  payload = copy (replicate 24 0) front;
}

-- The error of `Close`.
unfoldable pub close_error : {E : Type 0} → Option E → Option (TunError E)
close_error none = none
close_error (some e) = some (close_failed e)

module _ {W E : Type 0} (sys : System W E) where
  -- `syscall.Close(fd)` and the error of the step.
  unfoldable pub fail_closing : {A : Type 0} → ℕ → TunError E → W → W × Answer (TunError E) A
  fail_closing fd e w = ((sys.close fd w).0, refused e)

  -- The end, by the answer to `SIOCSIFFLAGS`.
  unfoldable pub finish : ℕ → Interface → W × Option E × Ifreq → W × Answer (TunError E) Interface
  unfolding fail_closing
  finish fd device (w, some e, ifr) = fail_closing fd (siocsifflags_failed e) w
  finish fd device (w, none, ifr) = (w, done device)

  -- `SIOCSIFFLAGS` with the new flags, by the answer to `SIOCGIFFLAGS`.
  unfoldable pub set_flags :
      ℕ → ℕ → Interface → W × Option E × Ifreq → W × Answer (TunError E) Interface
  unfolding fail_closing finish
  set_flags fd sock device (w, some e, ifr) = fail_closing fd (siocgifflags_failed e) w
  set_flags fd sock device (w, none, ifr) =
      let flags = bit_or (sys.number16 (take 2 ifr.payload)) (bit_or sys.iff_up sys.iff_running) in
      finish fd device (
        sys.ioctl sock siocsifflags (record ifr { payload = copy ifr.payload (sys.bytes16 flags) })
          w)

  -- `SIOCGIFFLAGS`, by the answer to `SIOCSIFMTU`.
  unfoldable pub bring_up :
      ℕ → ℕ → Interface → W × Option E × Ifreq → W × Answer (TunError E) Interface
  unfolding fail_closing set_flags
  bring_up fd sock device (w, some e, ifr) = fail_closing fd (siocsifmtu_failed e) w
  bring_up fd sock device (w, none, ifr) =
      set_flags fd sock device (sys.ioctl sock siocgifflags (request_for device.name []) w)

  -- What is done with the datagram socket, and its deferred `Close`.
  unfoldable pub with_socket : ℕ → Interface → W × Answer E ℕ → W × Answer (TunError E) Interface
  unfolding fail_closing bring_up
  with_socket fd device (w, refused e) = fail_closing fd (socket_failed e) w
  with_socket fd device (w, done sock) =
      let (w', answer) =
        bring_up fd sock device (
          sys.ioctl sock siocsifmtu (request_for device.name (sys.bytes32 (bits32 device.mtu)))
            w) in
      ((sys.close sock w').0, answer)

  -- The device behind `TUNSETIFF`.
  unfoldable pub configure : ℕ → ℤ → W × Option E × Ifreq → W × Answer (TunError E) Interface
  unfolding fail_closing with_socket trim_right
  configure fd mtu (w, some e, ifr) = fail_closing fd (tunsetiff_failed e) w
  configure fd mtu (w, none, ifr) =
      with_socket fd (record { fd = fd; name = trim_right ifr.name; mtu = mtu })
        (sys.socket datagram w)

  -- The three messages for a device file that does not open.
  unfoldable pub open_error : E → TunError E
  open_error e =
      if sys.is_not_exist e
      then no_tun_module e
      else if sys.is_permission e
      then permission_denied e
      else open_failed e

  unfoldable pub opened : List ℕ → ℤ → W × Answer E ℕ → W × Answer (TunError E) Interface
  unfolding configure open_error request_for
  opened name mtu (w, refused e) = (w, refused (open_error e))
  opened name mtu (w, done fd) =
      configure fd mtu (
        sys.ioctl fd tunsetiff (request_for name (sys.bytes16 (bit_or sys.iff_tun sys.iff_no_pi)))
          w)

  unfoldable pub open_tun : List ℕ → ℤ → W → W × Answer (TunError E) Interface
  unfolding opened
  open_tun name mtu w = opened name mtu (sys.open_tun_file w)

  unfoldable pub close_tun : Interface → W → W × Option (TunError E)
  unfolding close_error
  close_tun device w = let (w', e) = sys.close device.fd w in (w', close_error e)
