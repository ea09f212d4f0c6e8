-- ===== src/Ip/Dispatcher/Counts.antt =====
-- What `Dispatch` counts.
use gonet.Prelude.{ℕ, ◌+◌, ◌%◌, ◌^◌, ◌≡◌, refl, ap, ◌∙◌, Option, List, [], ◌∷◌, arith, length, u64}
use native.Mathlib.Nat.{zero-add}
use gonet.Ip.Dispatcher.{Dispatcher, ProtocolHandler, new_dispatcher, dispatch, dispatch_all, stats}

-- Every packet received is invalid, dropped or dispatched.
abbrev pub IsBalanced : {W E : Type 0} → Dispatcher W E → Type 0
IsBalanced d =
    d.counts.packets_received
    ≡ u64 (d.counts.packets_invalid + d.counts.packets_dropped + d.counts.packets_dispatched)

module _ {W E : Type 0} where
  pub dispatch-IsBalanced :
      (d : Dispatcher W E) (raw : List ℕ) (w : W) → IsBalanced d → IsBalanced (dispatch d raw w).0
  unfolding dispatch
  dispatch-IsBalanced d raw w h = ground arith

  dispatch_received :
      (d : Dispatcher W E) (raw : List ℕ) (w : W)
      → (dispatch d raw w).0.counts.packets_received ≡ u64 (d.counts.packets_received + 1)
  unfolding dispatch
  dispatch_received d raw w = ground arith

  dispatch_all_counts :
      (d : Dispatcher W E) (raws : List (List ℕ)) (w : W)
      → IsBalanced d
      → IsBalanced (dispatch_all d raws w).0
        × ((dispatch_all d raws w).0.counts.packets_received % 2 ^ 64
            ≡ u64 (d.counts.packets_received + length raws))
  unfolding dispatch_all
  dispatch_all_counts d [] w h = (h, omega arith)
  dispatch_all_counts d (raw ∷ raws) w h =
      let (d', w', e) = dispatch d raw w in
      let (balanced, received) = dispatch_all_counts d' raws w' (dispatch-IsBalanced d raw w h) in
      (balanced, received ∙ omega (arith, dispatch_received d raw w))

  -- From a new dispatcher with any handlers registered, after any packets, the packets received
  -- are those given, modulo 2 ^ 64, and each is invalid, dropped or dispatched.
  pub dispatch_all_balanced :
      (handlers : ℕ → Option (ProtocolHandler W E)) (raws : List (List ℕ)) (w : W)
      → let counts =
          (stats
            (dispatch_all
              (record (new_dispatcher {W = W} {E = E}) { handlers = handlers })
              raws
              w).0) in
        (u64 counts.packets_received ≡ u64 (length raws))
        × (counts.packets_received
            ≡ u64 (counts.packets_invalid + counts.packets_dropped + counts.packets_dispatched))
  unfolding stats new_dispatcher
  dispatch_all_balanced handlers raws w =
      let (balanced, received) =
        dispatch_all_counts (record (new_dispatcher {W = W} {E = E}) { handlers = handlers }) raws w
          refl in
      (received ∙ ap u64 (zero-add (length raws)), balanced)
