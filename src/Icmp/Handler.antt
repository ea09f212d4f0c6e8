-- ===== src/Icmp/Handler.antt =====
-- internal/icmp/handler.go: `ICMPHandler`. The device is an argument, `PacketIO.Write` as a function
-- on a world of its own; the generator of packet IDs, which the program shares, is passed along.
pub mod Reply
pub mod Ping
use gonet.Prelude.{ℕ, Option, none, some, List, map, ◌==◌, if◌then◌else◌, Result, ok, err, panic}
use mathlib.Core.Option
use gonet.Ip.Errors.{Error}
use gonet.Ip.Header.{proto_icmp}
use gonet.Ip.Builder.{IdGenerator, new_packet_builder, build}
use gonet.Ip.Dispatcher.{ProtocolHandler}
use gonet.Icmp.{
  EchoMessage, EchoError, type_echo_request, too_short, not_echo, parse_echo, marshal,
  new_echo_reply,
}

-- `Write` of tun.PacketIO.
pub record PacketIo (W E : Type 0) : Type 0 where
  pub write : List ℕ → W → W × Option E

-- The errors that `HandleIPPayload` passes on, and a run-time panic.
pub data HandlerError (E : Type 0) : Type 0 where
  bad_echo : EchoError → HandlerError E
  build_failed : Error → HandlerError E
  write_failed : E → HandlerError E
  panicked : HandlerError E

module _ {W E : Type 0} where
  -- `_, err = h.io.Write(packetBytes)`
  unfoldable pub write_packet :
      PacketIo W E
      → W
      → Result Error (List ℕ) × IdGenerator
      → (IdGenerator × W) × Option (HandlerError E)
  write_packet io w (ok packet, gen) =
      let (w', failed) = io.write packet w in ((gen, w'), Option.map write_failed failed)
  write_packet io w (err e, gen) = ((gen, w), some (build_failed e))
  write_packet io w (panic, gen) = ((gen, w), some panicked)

  -- The branch of an echo request.
  unfoldable pub answer :
      PacketIo W E
      → List ℕ
      → List ℕ
      → EchoMessage
      → IdGenerator × W
      → (IdGenerator × W) × Option (HandlerError E)
  answer io src_ip dst_ip msg (gen, w) = elim (marshal (new_echo_reply msg)) [
    | ok reply_bytes ↦
        write_packet io w (build (new_packet_builder dst_ip src_ip proto_icmp) gen reply_bytes)
    | err e ↦ ((gen, w), some (bad_echo e))
    | panic ↦ ((gen, w), some panicked)
  ]

  unfoldable pub handle_ip_payload :
      PacketIo W E
      → List ℕ
      → List ℕ
      → List ℕ
      → IdGenerator × W
      → (IdGenerator × W) × Option (HandlerError E)
  handle_ip_payload io src_ip dst_ip payload world = elim (parse_echo payload) [
    | ok msg ↦
        if msg.message_type == type_echo_request
        then answer io src_ip dst_ip msg world
        else (world, none)
    | err not_echo ↦ (world, none)
    | err too_short ↦ (world, some (bad_echo too_short))
    | panic ↦ (world, some panicked)
  ]

  -- `ICMPHandler` as a handler of the dispatcher.
  unfoldable pub new_icmp_handler :
      PacketIo W E → ProtocolHandler (IdGenerator × W) (HandlerError E)
  new_icmp_handler io = record { protocol = proto_icmp; handle_ip_payload = handle_ip_payload io }
