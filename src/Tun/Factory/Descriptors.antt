-- ===== src/Tun/Factory/Descriptors.antt =====
-- `Open` leaves no descriptor behind but the device's, and `Close` releases that one.
use gonet.Prelude.{
  ℕ, ◌≡◌, refl, ap, ◌∙◌, inl, inr, Option, none, some, List, [], ◌∷◌, Bool-cases, copy,
}
use gonet.Prelude.Net.{to4, same_bytes}
use gonet.Config.{mode_tun, mode_raw}
use gonet.Tun.System.{Answer, done, refused, raw_ip, System, Opens, HasDescriptors}
use gonet.Tun.Device.{Interface, TunError, open_tun, close_tun}
use gonet.Tun.Device.Descriptors.{Owns, fd_of, without_first, close_lem, open_tun-Owns}
use gonet.Tun.Raw.{
  RawSocket, SocketError, invalid_bind_address, setsockopt_failed, bind_failed, raw_fail_closing,
  raw_bound, raw_bind, bind_address, raw_configure, raw_opened, open_raw, close_raw,
}
use gonet.Tun.Factory.{
  DeviceConfig, PacketIo, tun_device, raw_socket, OpenError, tun_error, raw_error, as_device,
  open_packet_io, close_packet_io,
}

abbrev raw_fd : RawSocket → ℕ
raw_fd s = s.fd

abbrev pub device_fd : PacketIo → ℕ
device_fd (tun_device device) = device.fd
device_fd (raw_socket s) = s.fd

-- What is open behind `Open`, and behind the device's `Close`.
abbrev pub Releases :
    {W E : Type 0} → System W E → (W → List ℕ) → List ℕ → W × Answer (OpenError E) PacketIo → Type 0
Releases sys live before (w, done io) =
    (live w ≡ device_fd io ∷ before) × (live (close_packet_io sys io w) ≡ before)
Releases sys live before (w, refused e) = live w ≡ before

module _ {W E : Type 0} (sys : System W E) (live : W → List ℕ) (laws : HasDescriptors sys live)
    (before : List ℕ) where
  raw_failed-Owns :
      (fd : ℕ) (e : SocketError E) (w : W)
      → live w ≡ fd ∷ before
      → Owns raw_fd live before (raw_fail_closing sys {A = RawSocket} fd e w)
  unfolding raw_fail_closing
  raw_failed-Owns fd e w h =
      close_lem sys live laws before fd w (fd ∷ before) h ∙ without_first fd before

  raw_bound-Owns :
      (fd : ℕ) (bind_ip : List ℕ) (r : W × Option E)
      → live r.0 ≡ fd ∷ before
      → Owns raw_fd live before (raw_bound sys fd bind_ip r)
  unfolding raw_bound
  raw_bound-Owns fd bind_ip (w, some e) h = raw_failed-Owns fd (bind_failed e) w h
  raw_bound-Owns fd bind_ip (w, none) h = h

  raw_bind-Owns :
      (fd : ℕ) (bind_ip : List ℕ) (ip : Option (List ℕ)) (w : W)
      → live w ≡ fd ∷ before
      → Owns raw_fd live before (raw_bind sys fd bind_ip ip w)
  unfolding raw_bind
  raw_bind-Owns fd bind_ip none w h = raw_failed-Owns fd invalid_bind_address w h
  raw_bind-Owns fd bind_ip (some ip) w h =
      let addr = copy (0 ∷ 0 ∷ 0 ∷ 0 ∷ []) ip in
      raw_bound-Owns fd bind_ip (sys.bind fd addr w) (laws.bind_keeps fd addr w ∙ h)

  module _ (parse_ip : List ℕ → Option (List ℕ)) where
    raw_configure-Owns :
        (fd : ℕ) (bind_ip : List ℕ) (r : W × Option E)
        → live r.0 ≡ fd ∷ before
        → Owns raw_fd live before (raw_configure sys parse_ip fd bind_ip r)
    unfolding raw_configure
    raw_configure-Owns fd bind_ip (w, some e) h = raw_failed-Owns fd (setsockopt_failed e) w h
    raw_configure-Owns fd bind_ip (w, none) h =
        raw_bind-Owns fd bind_ip (to4 (bind_address (parse_ip bind_ip))) w h

    raw_opened-Owns :
        (bind_ip : List ℕ) (w0 : W) (r : W × Answer E ℕ)
        → live w0 ≡ before
        → Opens live w0 r
        → Owns raw_fd live before (raw_opened sys parse_ip bind_ip r)
    unfolding raw_opened
    raw_opened-Owns bind_ip w0 (w, refused e) h opens = opens ∙ h
    raw_opened-Owns bind_ip w0 (w, done fd) h opens =
        raw_configure-Owns fd bind_ip (sys.include_header fd w)
          (laws.include_header_keeps fd w ∙ opens.0 ∙ ap (λ xs. fd ∷ xs) h)

    open_raw-Owns :
        (bind_ip : List ℕ) (w : W)
        → live w ≡ before
        → Owns raw_fd live before (open_raw sys parse_ip bind_ip w)
    unfolding open_raw
    open_raw-Owns bind_ip w h =
        raw_opened-Owns bind_ip w (sys.socket raw_ip w) h (laws.socket_opens raw_ip w)

    tun-Releases :
        (r : W × Answer (TunError E) Interface)
        → Owns fd_of live before r
        → Releases sys live before (as_device tun_device tun_error r)
    unfolding as_device close_packet_io close_tun
    tun-Releases (w, done device) h = (
      h,
      close_lem sys live laws before device.fd w (device.fd ∷ before) h
          ∙ without_first device.fd before,
    )
    tun-Releases (w, refused e) h = h

    raw-Releases :
        (r : W × Answer (SocketError E) RawSocket)
        → Owns raw_fd live before r
        → Releases sys live before (as_device raw_socket raw_error r)
    unfolding as_device close_packet_io close_raw
    raw-Releases (w, done s) h =
        (h, close_lem sys live laws before s.fd w (s.fd ∷ before) h ∙ without_first s.fd before)
    raw-Releases (w, refused e) h = h

    open_packet_io-Releases :
        (cfg : DeviceConfig) (w : W)
        → live w ≡ before
        → Releases sys live before (open_packet_io sys parse_ip cfg w)
    unfolding open_packet_io
    open_packet_io-Releases cfg w h = elim (Bool-cases (same_bytes cfg.mode mode_tun)) [
      | inl tun ↦ rw tun (
          tun-Releases (open_tun sys cfg.name cfg.mtu w)
            (open_tun-Owns sys live laws before cfg.name cfg.mtu w h))
      | inr other ↦ elim (Bool-cases (same_bytes cfg.mode mode_raw)) [
        | inl raw ↦
            rw (other, raw)
              (raw-Releases (open_raw sys parse_ip cfg.bind_ip w) (open_raw-Owns cfg.bind_ip w h))
        | inr none_of ↦ rw (other, none_of) h
      ]
    ]

-- `Open` of either device, on a system that keeps its descriptors as Linux does: where it fails,
-- whatever the step, every descriptor that it opened is closed again; where it succeeds, the
-- descriptor of the device is the only new one, and `Close` releases it.
pub close_packet_io-open_packet_io :
    {W E : Type 0} (sys : System W E) (live : W → List ℕ) (parse_ip : List ℕ → Option (List ℕ))
    (cfg : DeviceConfig) (w : W)
    → HasDescriptors sys live
    → Releases sys live (live w) (open_packet_io sys parse_ip cfg w)
close_packet_io-open_packet_io sys live parse_ip cfg w laws =
    open_packet_io-Releases sys live laws (live w) parse_ip cfg w refl
