-- ===== src/Tun/Raw/Runs.antt =====
-- The raw socket with a concrete packet.
use gonet.Prelude.{ℕ, ◌≡◌, none, List, [], ◌∷◌, ok}
use gonet.Ip.Fragment.Example.{packet_header, packet, parsed}
use gonet.Tun.Raw.{Sendto, sent, write}
use gonet.Tun.Raw.Destination.{write-parse_header}

-- A socket that keeps what it sends.
abbrev keeps : Sendto (List (List ℕ × List ℕ)) ℕ
keeps buf dst w = ((dst, buf) ∷ w, none)

write-parse_header_example : write keeps packet [] ≡ ((10 ∷ 0 ∷ 0 ∷ 2 ∷ [], packet) ∷ [], ok 40)
unfolding sent
write-parse_header_example = write-parse_header keeps packet [] packet_header parsed
