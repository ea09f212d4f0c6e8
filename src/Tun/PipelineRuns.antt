-- ===== src/Tun/PipelineRuns.antt =====
-- The read loop in front of a dispatcher without handlers.
use gonet.Prelude.{ℕ, ◌+◌, ◌≡◌, none, [], ◌∷◌, arith, u64}
use gonet.Prelude.Rearranged.{swap}
use gonet.Ip.Dispatcher.{new_dispatcher, dispatch_all, stats}
use gonet.Tun.Loop.{fatal_error, loop_stats}
use gonet.Tun.Loop.Runs.{turns, at_end, loop_run}
use gonet.Tun.Pipeline.{loop-dispatch_all}

loop-dispatch_all_example :
    let counts =
      (stats
        (dispatch_all
          (record (new_dispatcher {W = ℕ} {E = ℕ}) { handlers = λ protocol. none })
          ((3 ∷ []) ∷ (1 ∷ 2 ∷ []) ∷ [])
          0).0) in
    (u64 counts.packets_received ≡ 2)
    × (counts.packets_received
        ≡ u64 (counts.packets_invalid + counts.packets_dropped + counts.packets_dispatched))
unfolding loop_stats
loop-dispatch_all_example =
    loop-dispatch_all turns 4 (λ protocol. none) 0 fatal_error at_end ((1 ∷ 2 ∷ []) ∷ (3 ∷ []) ∷ [])
      ((3 ∷ []) ∷ (1 ∷ 2 ∷ []) ∷ []) (omega arith) loop_run (swap (1 ∷ 2 ∷ []) (3 ∷ []))
