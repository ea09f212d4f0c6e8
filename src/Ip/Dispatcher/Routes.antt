-- ===== src/Ip/Dispatcher/Routes.antt =====
-- Which packets `Dispatch` routes, and which it rejects.
use gonet.Prelude.{
  ℕ, ◌/◌, ◌≤◌, ◌<◌, ◌≢◌, ◌≡◌, sym, ap, ◌∙◌, ◌⊎◌, inl, inr, ◌||◌, not, List, ◌++◌, arith, ltb, ◌==◌,
  if◌then◌else◌, Bool-cases, length, take, All, take-append_le, All-append, bit_and-ones, IsByte,
  byte_at,
}
use gonet.Ip.Dispatcher.{
  Dispatcher, dispatch, route, reject, add_received, Outcome, DispatchError, packet_too_short,
  bad_version, bad_header_length, bad_total_length, handler_failed,
}
use gonet.Ip.Dispatcher.Announced.{
  announced_header, announced_total, IsRoutable, total_word, announced_header-append,
  announced_total-append, padded-IsRoutable,
}

-- The first header check that fails, for each of its four errors.
abbrev pub Fails : {E : Type 0} → DispatchError E → List ℕ → Type 0
Fails packet_too_short raw = length raw < 20
Fails bad_version raw = (20 ≤ length raw) × (byte_at raw 0 / 16 ≢ 4)
Fails bad_header_length raw =
    (20 ≤ length raw)
    × (byte_at raw 0 / 16 ≡ 4)
    × ((announced_header raw < 20) ⊎ (length raw < announced_header raw))
Fails bad_total_length raw =
    (20 ≤ length raw)
    × (byte_at raw 0 / 16 ≡ 4)
    × (20 ≤ announced_header raw)
    × (announced_header raw ≤ length raw)
    × ((length raw < announced_total raw) ⊎ (announced_total raw < announced_header raw))
Fails (handler_failed e) raw = ⊥

module _ {W E : Type 0} where
  -- `Dispatch` with its shifts and masks as arithmetic.
  abbrev checked : Dispatcher W E → List ℕ → W → Outcome W E
  checked d raw w =
      if ltb (length raw) 20
      then reject d w packet_too_short
      else if not (byte_at raw 0 / 16 == 4)
      then reject d w bad_version
      else if ltb (announced_header raw) 20 || ltb (length raw) (announced_header raw)
      then reject d w bad_header_length
      else if ltb (length raw) (announced_total raw)
          || ltb (announced_total raw) (announced_header raw)
      then reject d w bad_total_length
      else route d (take (announced_total raw) raw) (announced_header raw) w

  dispatch-checked :
      (d : Dispatcher W E) (raw : List ℕ) (w : W)
      → All IsByte raw
      → dispatch d raw w ≡ checked (add_received d) raw w
  unfolding dispatch
  dispatch-checked d raw w bytes = rw (bit_and-ones 4 (byte_at raw 0), total_word raw bytes)

  checked_cases :
      (d : Dispatcher W E) (raw : List ℕ) (w : W)
      → IsRoutable raw
          × (checked d raw w ≡ route d (take (announced_total raw) raw) (announced_header raw) w)
        ⊎ (¬ IsRoutable raw
            × ((e : DispatchError E) × Fails e raw × (checked d raw w ≡ reject d w e)))
  checked_cases d raw w = elim (Bool-cases (ltb (length raw) 20)) [
    | inl short ↦ inr ((λ r. ground arith), (packet_too_short, ground arith, rw short))
    | inr long ↦ elim (Bool-cases (byte_at raw 0 / 16 == 4)) [
      | inr other ↦ inr ((λ r. ground arith), (bad_version, ground arith, rw (long, other)))
      | inl four ↦
          elim (Bool-cases
            (ltb (announced_header raw) 20 || ltb (length raw) (announced_header raw))) [
              | inl bad ↦
                  inr ((λ r. ground arith), (bad_header_length, ground arith, rw (long, four, bad)))
              | inr header ↦
                  elim (Bool-cases (
                    ltb (length raw) (announced_total raw)
                    || ltb (announced_total raw) (announced_header raw))) [
                      | inl bad ↦ inr (
                        (λ r. ground arith),
                        (bad_total_length, ground arith, rw (long, four, header, bad)),
                      )
                      | inr total ↦ inl (ground arith, rw (long, four, header, total))
                    ]
            ]
    ]
  ]

  -- `Dispatch` routes a packet of bytes by its announced lengths if it is routable, and rejects any
  -- other with the error of the first header check that fails: too short, not version 4, a header
  -- length below 20 or beyond the packet, or a total length beyond the packet or below the header.
  pub dispatch_cases :
      (d : Dispatcher W E) (raw : List ℕ) (w : W)
      → All IsByte raw
      → (IsRoutable raw
          × (dispatch d raw w
              ≡ route (add_received d) (take (announced_total raw) raw) (announced_header raw) w))
        ⊎ (¬ IsRoutable raw
            × ((e : DispatchError E) × Fails e raw
                × (dispatch d raw w ≡ reject (add_received d) w e)))
  dispatch_cases d raw w bytes =
      rw (dispatch-checked d raw w bytes) (checked_cases (add_received d) raw w)

  pub dispatch_routable :
      (d : Dispatcher W E) (raw : List ℕ) (w : W)
      → All IsByte raw
      → IsRoutable raw
      → dispatch d raw w
        ≡ route (add_received d) (take (announced_total raw) raw) (announced_header raw) w
  dispatch_routable d raw w bytes r = elim (dispatch_cases d raw w bytes) [
    | inl (r', e) ↦ e
    | inr (no_route, _) ↦ absurd (no_route r)
  ]

  -- Bytes behind the announced total length of a routable packet, such as the padding of a frame,
  -- make no difference to `Dispatch`.
  dispatch_padding :
      (d : Dispatcher W E) (raw padding : List ℕ) (w : W)
      → All IsByte raw
      → All IsByte padding
      → IsRoutable raw
      → dispatch d (raw ++ padding) w ≡ dispatch d raw w
  dispatch_padding d raw padding w bytes more r =
      dispatch_routable d (raw ++ padding) w (All-append IsByte raw padding bytes more)
        (padded-IsRoutable raw padding r)
      ∙ (λ i.
          route (add_received d) (take_total i) (announced_header-append raw padding r.long i) w)
      ∙ sym (dispatch_routable d raw w bytes r)
    where
      take_total :
          take (announced_total (raw ++ padding)) (raw ++ padding) ≡ take (announced_total raw) raw
      take_total =
          ap (λ n. take n (raw ++ padding)) (announced_total-append raw padding r.long)
          ∙ take-append_le (announced_total raw) raw padding r.total_fits
