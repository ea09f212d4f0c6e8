-- ===== src/Ip/Dispatcher.antt =====
-- internal/ip/dispatcher.go: the registry of protocol handlers, `Dispatch` and its statistics.
-- The handlers are values of an interface, so they are arguments: a handler acts on a world `W` of
-- its own and may fail with an error of `E`. The lock round the registry is not modelled; the
-- counters are atomic and wrap at 2 ^ 64.
pub mod Announced
pub mod Routes
pub mod Delivery
pub mod Counts
mod Runs
use gonet.Prelude.{
  ℕ, ◌+◌, ◌*◌, bit_and, bit_or, Option, none, some, List, [], ◌∷◌, ◌||◌, not, ltb, ◌==◌,
  if◌then◌else◌, length, byte_at, take, drop, shl, shr, u64,
}
use gonet.Prelude.Net.{ipv4}

pub record ProtocolHandler (W E : Type 0) : Type 0 where
  pub protocol : ℕ
  pub handle_ip_payload : List ℕ → List ℕ → List ℕ → W → W × Option E

pub data DispatchError (E : Type 0) : Type 0 where
  packet_too_short bad_version bad_header_length bad_total_length : DispatchError E
  handler_failed : E → DispatchError E

pub record DispatchStats : Type 0 where
  pub packets_received : ℕ
  pub packets_invalid : ℕ
  pub packets_dropped : ℕ
  pub packets_dispatched : ℕ

pub record Dispatcher (W E : Type 0) : Type 0 where
  pub handlers : ℕ → Option (ProtocolHandler W E)
  pub counts : DispatchStats

abbrev pub Outcome : (W E : Type 0) → Type 0
Outcome W E = Dispatcher W E × W × Option (DispatchError E)

module _ {W E : Type 0} where
  unfoldable pub new_dispatcher : Dispatcher W E
  new_dispatcher = record {
    handlers = λ protocol. none;
    counts = record {
      packets_received = 0;
      packets_invalid = 0;
      packets_dropped = 0;
      packets_dispatched = 0;
    };
  }

  unfoldable pub register : Dispatcher W E → ProtocolHandler W E → Dispatcher W E
  register d h = record d {
    handlers = λ protocol. if protocol == h.protocol then some h else d.handlers protocol;
  }

  unfoldable pub add_received : Dispatcher W E → Dispatcher W E
  add_received d = record d {
    counts = record (d.counts) { packets_received = u64 (d.counts.packets_received + 1) };
  }

  unfoldable pub add_invalid : Dispatcher W E → Dispatcher W E
  add_invalid d = record d {
    counts = record (d.counts) { packets_invalid = u64 (d.counts.packets_invalid + 1) };
  }

  unfoldable pub add_dropped : Dispatcher W E → Dispatcher W E
  add_dropped d = record d {
    counts = record (d.counts) { packets_dropped = u64 (d.counts.packets_dropped + 1) };
  }

  unfoldable pub add_dispatched : Dispatcher W E → Dispatcher W E
  add_dispatched d = record d {
    counts = record (d.counts) { packets_dispatched = u64 (d.counts.packets_dispatched + 1) };
  }

  unfoldable pub reject : Dispatcher W E → W → DispatchError E → Outcome W E
  unfolding add_invalid
  reject d w e = (add_invalid d, w, some e)

  -- `return handler.HandleIPPayload(srcIP, dstIP, payload)`
  unfoldable pub hand_over : Dispatcher W E → W × Option E → Outcome W E
  hand_over d (w, none) = (d, w, none)
  hand_over d (w, some e) = (d, w, some (handler_failed e))

  -- `Dispatch` from the truncated packet on.
  unfoldable pub route : Dispatcher W E → List ℕ → ℕ → W → Outcome W E
  unfolding add_dropped add_dispatched hand_over
  route d packet header_len w =
      let src_ip =
        ipv4 (byte_at packet 12) (byte_at packet 13) (byte_at packet 14) (byte_at packet 15) in
      let dst_ip =
        ipv4 (byte_at packet 16) (byte_at packet 17) (byte_at packet 18) (byte_at packet 19) in
      elim (d.handlers (byte_at packet 9)) [
        | none ↦ (add_dropped d, w, none)
        | some handler ↦
            hand_over (add_dispatched d)
              (handler.handle_ip_payload src_ip dst_ip (drop header_len packet) w)
      ]

  unfoldable pub dispatch : Dispatcher W E → List ℕ → W → Outcome W E
  unfolding add_received reject route
  dispatch d0 raw w =
      let d = add_received d0 in
      if ltb (length raw) 20
      then reject d w packet_too_short
      else let version = shr (byte_at raw 0) 4 in
        if not (version == 4)
        then reject d w bad_version
        else let header_len = bit_and (byte_at raw 0) 0x0f * 4 in
          if ltb header_len 20 || ltb (length raw) header_len
          then reject d w bad_header_length
          else let total_len = bit_or (shl (byte_at raw 2) 8) (byte_at raw 3) in
            if ltb (length raw) total_len || ltb total_len header_len
            then reject d w bad_total_length
            else route d (take total_len raw) header_len w

  -- `HandlePacket`
  unfoldable pub handle_packet : Dispatcher W E → List ℕ → W → Outcome W E
  handle_packet d raw w = dispatch d raw w

  -- `Stats`
  unfoldable pub stats : Dispatcher W E → DispatchStats
  stats d = d.counts

  -- The packets of a read loop, one behind the other.
  unfoldable pub dispatch_all : Dispatcher W E → List (List ℕ) → W → Dispatcher W E × W
  dispatch_all d [] w = (d, w)
  dispatch_all d (raw ∷ raws) w = let (d', w', e) = dispatch d raw w in dispatch_all d' raws w'
