-- ===== src/Tun/Factory.antt =====
-- internal/tun/factory.go: `Open` of either device, and `PacketIO` as the two devices that it opens.
pub mod Descriptors
mod Runs
use gonet.Prelude.{ℕ, Option, List, if◌then◌else◌}
use gonet.Prelude.Integers.{ℤ}
use gonet.Prelude.Net.{same_bytes}
use gonet.Config.{mode_tun, mode_raw}
use gonet.Tun.System.{Answer, done, refused, System}
use gonet.Tun.Device.{Interface, TunError, open_tun, close_tun}
use gonet.Tun.Raw.{RawSocket, SocketError, open_raw, close_raw}

-- `Config` of the package tun.
pub record DeviceConfig : Type 0 where
  pub mode : List ℕ
  pub name : List ℕ
  pub mtu : ℤ
  pub bind_ip : List ℕ

pub data PacketIo : Type 0 where
  tun_device : Interface → PacketIo
  raw_socket : RawSocket → PacketIo

pub data OpenError (E : Type 0) : Type 0 where
  tun_error : TunError E → OpenError E
  raw_error : SocketError E → OpenError E
  unknown_mode : OpenError E

-- The result of `OpenTUN` or `OpenRaw` as that of `Open`.
unfoldable pub as_device :
    {W E F A : Type 0}
    → (A → PacketIo)
    → (F → OpenError E)
    → W × Answer F A
    → W × Answer (OpenError E) PacketIo
as_device io error (w, done device) = (w, done (io device))
as_device io error (w, refused e) = (w, refused (error e))

unfoldable pub open_packet_io :
    {W E : Type 0}
    → System W E
    → (List ℕ → Option (List ℕ))
    → DeviceConfig
    → W
    → W × Answer (OpenError E) PacketIo
unfolding as_device
open_packet_io sys parse_ip cfg w =
    if same_bytes cfg.mode mode_tun
    then as_device tun_device tun_error (open_tun sys cfg.name cfg.mtu w)
    else if same_bytes cfg.mode mode_raw
    then as_device raw_socket raw_error (open_raw sys parse_ip cfg.bind_ip w)
    else (w, refused unknown_mode)

-- `Close` of `PacketIO`.
unfoldable pub close_packet_io : {W E : Type 0} → System W E → PacketIo → W → W
close_packet_io sys (tun_device device) w = (close_tun sys device w).0
close_packet_io sys (raw_socket s) w = (close_raw sys s w).0
