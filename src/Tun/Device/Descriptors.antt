-- ===== src/Tun/Device/Descriptors.antt =====
-- `OpenTUN` leaves no descriptor behind but the device's.
use gonet.Prelude.{
  ℕ, bit_or, ◌≡◌, refl, sym, ap, ◌∙◌, ◌≢◌, Option, none, some, List, [], ◌∷◌, eq→==, ne→==_false,
  take, All, copy,
}
use mathlib.Core.Path.{subst}
use gonet.Prelude.Integers.{ℤ, bits32}
use gonet.Tun.System.{
  Answer, done, refused, Ifreq, tunsetiff, siocgifflags, siocsifflags, siocsifmtu, datagram, System,
  without, Opens, HasDescriptors,
}
use gonet.Tun.Device.{
  Interface, TunError, tunsetiff_failed, socket_failed, siocsifmtu_failed, siocgifflags_failed,
  siocsifflags_failed, trim_right, request_for, fail_closing, finish, set_flags, bring_up,
  with_socket, configure, opened, open_tun,
}

-- A device that is open owns one descriptor, a failure none.
abbrev pub Owns : {W F A : Type 0} → (A → ℕ) → (W → List ℕ) → List ℕ → W × Answer F A → Type 0
Owns fd_of live before (w, done device) = live w ≡ fd_of device ∷ before
Owns fd_of live before (w, refused e) = live w ≡ before

pub without_first : (fd : ℕ) (xs : List ℕ) → without fd (fd ∷ xs) ≡ xs
without_first fd xs = rw (eq→== fd fd refl) refl

pub without_second : (fd x : ℕ) (xs : List ℕ) → fd ≢ x → without fd (x ∷ fd ∷ xs) ≡ x ∷ xs
without_second fd x xs ne = rw (ne→==_false fd x ne, eq→== fd fd refl) refl

abbrev pub fd_of : Interface → ℕ
fd_of device = device.fd

module _ {W E : Type 0} (sys : System W E) (live : W → List ℕ) (laws : HasDescriptors sys live)
    (before : List ℕ) where
  pub close_lem :
      (fd : ℕ) (w : W) (xs : List ℕ) → live w ≡ xs → live (sys.close fd w).0 ≡ without fd xs
  close_lem fd w xs e = laws.close_releases fd w ∙ ap (without fd) e

  -- With the datagram socket open as well.
  abbrev Under : ℕ → ℕ → W × Answer (TunError E) Interface → Type 0
  Under sock fd (w, done device) = (live w ≡ sock ∷ fd ∷ before) × (device.fd ≡ fd)
  Under sock fd (w, refused e) = live w ≡ sock ∷ before

  module _ (fd sock : ℕ) (device : Interface) (named : device.fd ≡ fd) (ne : fd ≢ sock) where
    fails-Under :
        (e : TunError E) (w : W)
        → live w ≡ sock ∷ fd ∷ before
        → Under sock fd (fail_closing sys fd e w)
    unfolding fail_closing
    fails-Under e w h = close_lem fd w (sock ∷ fd ∷ before) h ∙ without_second fd sock before ne

    finish-Under :
        (r : W × Option E × Ifreq)
        → live r.0 ≡ sock ∷ fd ∷ before
        → Under sock fd (finish sys fd device r)
    unfolding finish
    finish-Under (w, some e, ifr) h = fails-Under (siocsifflags_failed e) w h
    finish-Under (w, none, ifr) h = (h, named)

    set_flags-Under :
        (r : W × Option E × Ifreq)
        → live r.0 ≡ sock ∷ fd ∷ before
        → Under sock fd (set_flags sys fd sock device r)
    unfolding set_flags
    set_flags-Under (w, some e, ifr) h = fails-Under (siocgifflags_failed e) w h
    set_flags-Under (w, none, ifr) h =
        let flags =
          bit_or (sys.number16 (take 2 ifr.payload)) (bit_or sys.iff_up sys.iff_running) in
        let asked = record ifr { payload = copy ifr.payload (sys.bytes16 flags) } in
        finish-Under (sys.ioctl sock siocsifflags asked w)
          (laws.ioctl_keeps sock siocsifflags asked w ∙ h)

    bring_up-Under :
        (r : W × Option E × Ifreq)
        → live r.0 ≡ sock ∷ fd ∷ before
        → Under sock fd (bring_up sys fd sock device r)
    unfolding bring_up
    bring_up-Under (w, some e, ifr) h = fails-Under (siocsifmtu_failed e) w h
    bring_up-Under (w, none, ifr) h =
        let asked = request_for device.name [] in
        set_flags-Under (sys.ioctl sock siocgifflags asked w)
          (laws.ioctl_keeps sock siocgifflags asked w ∙ h)

    -- The deferred `Close` of the socket.
    closed-Owns :
        (r : W × Answer (TunError E) Interface)
        → Under sock fd r
        → Owns fd_of live before ((sys.close sock r.0).0, r.1)
    closed-Owns (w, done d) (h, same) =
        close_lem sock w (sock ∷ fd ∷ before) h
        ∙ without_first sock (fd ∷ before)
        ∙ ap (λ n. n ∷ before) (sym same)
    closed-Owns (w, refused e) h = close_lem sock w (sock ∷ before) h ∙ without_first sock before

  module _ (fd : ℕ) where
    failed-Owns :
        (e : TunError E) (w : W)
        → live w ≡ fd ∷ before
        → Owns fd_of live before (fail_closing sys {A = Interface} fd e w)
    unfolding fail_closing
    failed-Owns e w h = close_lem fd w (fd ∷ before) h ∙ without_first fd before

    with_socket-Owns :
        (device : Interface) (w0 : W) (r : W × Answer E ℕ)
        → device.fd ≡ fd
        → live w0 ≡ fd ∷ before
        → Opens live w0 r
        → Owns fd_of live before (with_socket sys fd device r)
    unfolding with_socket
    with_socket-Owns device w0 (w, refused e) named h opens =
        failed-Owns (socket_failed e) w (opens ∙ h)
    with_socket-Owns device w0 (w, done sock) named h opens =
        let asked = request_for device.name (sys.bytes32 (bits32 device.mtu)) in
        let r = sys.ioctl sock siocsifmtu asked w in
        let held = laws.ioctl_keeps sock siocsifmtu asked w ∙ opens.0 ∙ ap (λ xs. sock ∷ xs) h in
        closed-Owns fd sock device named (different opens.1) (bring_up sys fd sock device r)
          (bring_up-Under fd sock device named (different opens.1) r held)
      where
        different : All (λ x. x ≢ sock) (live w0) → fd ≢ sock
        different apart = (subst (All (λ x. x ≢ sock)) h apart).0

    configure-Owns :
        (mtu : ℤ) (r : W × Option E × Ifreq)
        → live r.0 ≡ fd ∷ before
        → Owns fd_of live before (configure sys fd mtu r)
    unfolding configure
    configure-Owns mtu (w, some e, ifr) h = failed-Owns (tunsetiff_failed e) w h
    configure-Owns mtu (w, none, ifr) h =
        with_socket-Owns (record { fd = fd; name = trim_right ifr.name; mtu = mtu }) w
          (sys.socket datagram w) refl h (laws.socket_opens datagram w)

  opened-Owns :
      (name : List ℕ) (mtu : ℤ) (w0 : W) (r : W × Answer E ℕ)
      → live w0 ≡ before
      → Opens live w0 r
      → Owns fd_of live before (opened sys name mtu r)
  unfolding opened
  opened-Owns name mtu w0 (w, refused e) h opens = opens ∙ h
  opened-Owns name mtu w0 (w, done fd) h opens =
      let asked = request_for name (sys.bytes16 (bit_or sys.iff_tun sys.iff_no_pi)) in
      configure-Owns fd mtu (sys.ioctl fd tunsetiff asked w)
        (laws.ioctl_keeps fd tunsetiff asked w ∙ opens.0 ∙ ap (λ xs. fd ∷ xs) h)

  pub open_tun-Owns :
      (name : List ℕ) (mtu : ℤ) (w : W)
      → live w ≡ before
      → Owns fd_of live before (open_tun sys name mtu w)
  unfolding open_tun
  open_tun-Owns name mtu w h =
      opened-Owns name mtu w (sys.open_tun_file w) h (laws.open_tun_file_opens w)
