-- ===== src/Ip/Dispatcher/Delivery.antt =====
-- What `Dispatch` hands to the handler, against `ParseHeader`.
use gonet.Prelude.{
  ℕ, ◌*◌, ◌%◌, ◌≤◌, ◌<◌, ◌≡◌, refl, sym, ap, ◌∙◌, inl, inr, some, List, ◌∷◌, ◌++◌, arith, leb,
  Bool-cases, length, take, drop, All, drop_all, get_or-take, ok, IsByte, byte_at, slice,
}
use gonet.Prelude.Net.{ipv4, v4_prefix}
use gonet.Ip.Header.{Header, parse_header, read_fields, payload}
use gonet.Ip.Header.Parse.{parse_header_checks, IsAccepted}
use gonet.Ip.Dispatcher.{
  Dispatcher, ProtocolHandler, dispatch, route, hand_over, add_received, add_dispatched,
}
use gonet.Ip.Dispatcher.Announced.{announced_header, announced_total, IsRoutable}
use gonet.Ip.Dispatcher.Routes.{dispatch_routable}

-- The four bytes of an address as `net.IPv4` and as a slice of the packet.
ipv4-slice :
    (raw : List ℕ)
    → 20 ≤ length raw
    → (ipv4 (byte_at raw 12) (byte_at raw 13) (byte_at raw 14) (byte_at raw 15)
        ≡ v4_prefix ++ slice raw 12 16)
      × (ipv4 (byte_at raw 16) (byte_at raw 17) (byte_at raw 18) (byte_at raw 19)
          ≡ v4_prefix ++ slice raw 16 20)
unfolding ipv4
ipv4-slice
      (b0 ∷ b1 ∷ b2 ∷ b3 ∷ b4 ∷ b5 ∷ b6 ∷ b7 ∷ b8 ∷ b9 ∷ b10 ∷ b11 ∷ b12 ∷ b13 ∷ b14 ∷ b15 ∷ b16
        ∷ b17 ∷ b18 ∷ b19 ∷ rest)
      h =
    (refl, refl)
ipv4-slice _ h = absurd (omega arith)

-- The first twenty bytes of a packet that is cut behind them.
byte_at-take : (i t : ℕ) (raw : List ℕ) → i < 20 → 20 ≤ t → byte_at (take t raw) i ≡ byte_at raw i
byte_at-take i t raw h k = get_or-take t i raw 0 (omega arith)

pub payload-drop : (h : Header) (packet : List ℕ) → payload h packet ≡ drop (h.ihl * 4) packet
unfolding payload
payload-drop h packet = elim (Bool-cases (leb (length packet) (h.ihl * 4))) [
  | inl within ↦ rw within (sym (drop_all (h.ihl * 4) packet (ground arith)))
  | inr beyond ↦ rw beyond
]

module _ {W E : Type 0} where
  route_delivers :
      (d : Dispatcher W E) (raw : List ℕ) (t n : ℕ) (w : W) (handler : ProtocolHandler W E)
      → 20 ≤ t
      → 20 ≤ length raw
      → d.handlers (byte_at raw 9) ≡ some handler
      → route d (take t raw) n w
        ≡ hand_over (add_dispatched d) (
            handler.handle_ip_payload
              (v4_prefix ++ slice raw 12 16)
              (v4_prefix ++ slice raw 16 20)
              (drop n (take t raw))
              w)
  unfolding route
  route_delivers d raw t n w handler low long found = rw (
    ap d.handlers (byte_at-take 9 t raw (omega arith) low) ∙ found,
    route,
    byte_at-take 12 t raw (omega arith) low,
    byte_at-take 13 t raw (omega arith) low,
    byte_at-take 14 t raw (omega arith) low,
    byte_at-take 15 t raw (omega arith) low,
    byte_at-take 16 t raw (omega arith) low,
    byte_at-take 17 t raw (omega arith) low,
    byte_at-take 18 t raw (omega arith) low,
    byte_at-take 19 t raw (omega arith) low,
    (ipv4-slice raw long).0,
    (ipv4-slice raw long).1,
  )

  -- A packet that `ParseHeader` accepts, with an IHL of 5 at least and not cut short, goes to the
  -- handler of its protocol: the handler gets the addresses of the parsed header in 16 bytes and the
  -- payload of the packet up to its total length, the packet counts as dispatched, and the handler's
  -- result is the result of `Dispatch`.
  pub dispatch-parse_header :
      (d : Dispatcher W E) (raw : List ℕ) (w : W) (h : Header) (handler : ProtocolHandler W E)
      → All IsByte raw
      → parse_header raw ≡ ok h
      → 5 ≤ h.ihl
      → h.total_len ≤ length raw
      → d.handlers h.protocol ≡ some handler
      → dispatch d raw w
        ≡ hand_over (add_dispatched (add_received d)) (
            handler.handle_ip_payload
              (v4_prefix ++ h.src)
              (v4_prefix ++ h.dst)
              (payload h (take h.total_len raw))
              w)
  unfolding read_fields add_received
  dispatch-parse_header d raw w h handler bytes e low fits here =
      dispatch_routable d raw w bytes routable
      ∙ route_delivers (add_received d) raw (announced_total raw) (announced_header raw) w handler
          (omega (arith, routable.total_covers, routable.header_low)) a.long found
      ∙ (λ i.
          hand_over (add_dispatched (add_received d))
            (handler.handle_ip_payload (v4_prefix ++ src i) (v4_prefix ++ dst i) (carried i) w))
    where
      a : IsAccepted raw
      a = (parse_header_checks raw h e).0

      fields : h ≡ read_fields raw 4 (byte_at raw 0 % 16)
      fields = (parse_header_checks raw h e).1

      ihl : h.ihl ≡ byte_at raw 0 % 16
      ihl = ap (λ (g : Header). g.ihl) fields

      total : h.total_len ≡ announced_total raw
      total = ap (λ (g : Header). g.total_len) fields

      src : slice raw 12 16 ≡ h.src
      src = sym (ap (λ (g : Header). g.src) fields)

      dst : slice raw 16 20 ≡ h.dst
      dst = sym (ap (λ (g : Header). g.dst) fields)

      found : d.handlers (byte_at raw 9) ≡ some handler
      found = ap d.handlers (sym (ap (λ (g : Header). g.protocol) fields)) ∙ here

      routable : IsRoutable raw
      routable = omega (arith, a, ihl, total)

      carried :
          drop (announced_header raw) (take (announced_total raw) raw)
          ≡ payload h (take h.total_len raw)
      carried =
          (λ i. drop (sym ihl i * 4) (take (sym total i) raw))
          ∙ sym (payload-drop h (take h.total_len raw))
