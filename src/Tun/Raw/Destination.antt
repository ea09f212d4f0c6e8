-- ===== src/Tun/Raw/Destination.antt =====
-- Where the raw socket sends a packet.
use gonet.Prelude.{
  ℕ, ◌≡◌, sym, ap, ◌∙◌, List, [], ◌∷◌, arith, le→ltb_false, length, drop, length-take, length-drop,
  ok, slice, copy_same,
}
use gonet.Ip.Header.{Header, parse_header, read_fields}
use gonet.Ip.Header.Parse.{parse_header_checks}
use gonet.Tun.Raw.{Sendto, sent, write}

module _ {W E : Type 0} where
  -- A packet that `ParseHeader` accepts is sent as it is, to its destination address, and the
  -- result is that of `Sendto`: the packet's length, or the error.
  pub write-parse_header :
      (sendto : Sendto W E) (buf : List ℕ) (w : W) (h : Header)
      → parse_header buf ≡ ok h
      → write sendto buf w ≡ sent buf (sendto buf h.dst w)
  unfolding write read_fields
  write-parse_header sendto buf w h e =
      let (accepted, fields) = parse_header_checks buf h e in
      rw (le→ltb_false (length buf) 20 accepted.long) (
        ap (λ dst. sent buf (sendto buf dst w))
          (copy_same (0 ∷ 0 ∷ 0 ∷ 0 ∷ []) (slice buf 16 20)
              (omega (arith, length-take 4 (drop 16 buf), length-drop 16 buf, accepted.long))
            ∙ sym (ap (λ (g : Header). g.dst) fields)))
