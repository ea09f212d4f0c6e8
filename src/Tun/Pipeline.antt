-- ===== src/Tun/Pipeline.antt =====
-- The read loop and the dispatcher: internal/tun/loop.go hands its packets to `HandlePacket` of
-- internal/ip/dispatcher.go, each in a goroutine of its own.
use gonet.Prelude.{ℕ, ◌+◌, ◌≡◌, sym, ◌∙◌, Option, List, arith, All, u64, ok, err, panic}
use mathlib.Core.Path.{subst}
use gonet.Prelude.Rearranged.{Rearranges, Rearranges-length}
use gonet.Ip.Dispatcher.{ProtocolHandler, new_dispatcher, dispatch_all, stats}
use gonet.Ip.Dispatcher.Counts.{dispatch_all_balanced}
use gonet.Tun.Loop.{Turn, ReadLoop, Progress, Outcome, new_read_loop, loop, loop_stats}
use gonet.Tun.Loop.Deliveries.{IsRead, HasRead, loop-HasRead}

module _ (E : Type 0) (turns : List Turn) (r : ReadLoop) where
  abbrev Reached : Outcome E → Type 0
  Reached (ok (progress, r', packets)) = HasRead turns r progress r' packets
  Reached (err e) = Unit {0}
  Reached panic = Unit {0}

  loop-Reached : All (λ t. IsRead r.buf_size t.result) turns → Reached (loop {E = E} turns r)
  loop-Reached reads =
      let (progress, r', packets, e, h) = loop-HasRead {E = E} turns r reads in
      subst Reached (sym e) h

-- A new read loop in front of a new dispatcher with any handlers: once the goroutines of the
-- packets that the loop handed over have run, in any order, the dispatcher has received as many
-- packets as the loop has read, and each was invalid, dropped or dispatched. The counts are modulo
-- 2 ^ 64, the device obeys `io.Reader`, and a goroutine runs `HandlePacket` to its end before the
-- next one starts.
pub loop-dispatch_all :
    {W E F : Type 0} (turns : List Turn) (buf_size : ℕ)
    (handlers : ℕ → Option (ProtocolHandler W E)) (w : W) (progress : Progress) (r' : ReadLoop)
    (packets served : List (List ℕ))
    → All (λ t. IsRead buf_size t.result) turns
    → loop {E = F} turns (new_read_loop buf_size) ≡ ok (progress, r', packets)
    → Rearranges packets served
    → let counts =
        (stats
          (dispatch_all
            (record (new_dispatcher {W = W} {E = E}) { handlers = handlers })
            served
            w).0) in
      (u64 counts.packets_received ≡ u64 (loop_stats r').packets_read)
      × (counts.packets_received
          ≡ u64 (counts.packets_invalid + counts.packets_dropped + counts.packets_dispatched))
unfolding new_read_loop loop_stats
loop-dispatch_all {F = F} turns buf_size handlers w progress r' packets served reads e order =
    let (received, balanced) = dispatch_all_balanced handlers served w in
    let h =
      subst (Reached F turns (new_read_loop buf_size)) e
        (loop-Reached F turns (new_read_loop buf_size) reads) in
    (received ∙ omega (arith, Rearranges-length order, h.packets_read), balanced)
