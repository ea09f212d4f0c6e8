-- ===== src/Ip/Header/Panics.antt =====
-- `Marshal` on a header whose IHL is below 5.
use gonet.Prelude.{
  ℕ, zero, suc, ◌*◌, ◌<◌, ◌≡◌, refl, List, [], ◌∷◌, ◌++◌, panic, length, replicate, put_bytes,
  arith, u8, u16, ◌>>=◌, length-append, be16, bit_or, bit_and, shl,
}
use gonet.Prelude.Net.{to4_of_four}
use gonet.Ip.Errors.{Error}
use gonet.Ip.Header.{Header, fill, marshal, put_ip, put_options}
use gonet.Ip.Header.Wire.{put_ip_at}

put_bytes_over :
    (i : ℕ) (b : ℕ) (bs buf : List ℕ)
    → length buf ≡ i
    → put_bytes {E = Error} i (b ∷ bs) buf ≡ panic
put_bytes_over zero b bs [] h = refl
put_bytes_over zero b bs (x ∷ buf) h = absurd (omega arith)
put_bytes_over (suc i) b bs [] h = absurd (omega arith)
put_bytes_over (suc i) b bs (x ∷ buf) h = rw (put_bytes_over i b bs buf (omega arith))

put_ip_over : (i : ℕ) (ip buf : List ℕ) → length buf ≡ i → length ip ≡ 4 → put_ip i ip buf ≡ panic
unfolding put_ip
put_ip_over i [] buf h four = absurd (omega arith)
put_ip_over i (b ∷ ip) buf h four =
    rw (to4_of_four (b ∷ ip) four, put_ip) (put_bytes_over i b ip buf h)

-- A buffer of 16 bytes takes the source address and not the destination.
short_tail :
    (pre src dst options : List ℕ)
    → length pre ≡ 12
    → length src ≡ 4
    → length dst ≡ 4
    → (put_ip 12 src (pre ++ (replicate 4 0 ++ [])) >>= λ buf9.
        put_ip 16 dst buf9 >>= λ buf10. put_options options buf10)
      ≡ panic
short_tail pre src dst options p s d = rw (put_ip_at 12 pre (replicate 4 0) [] src p refl s) (
    rw (
      put_ip_over 16 dst (pre ++ (src ++ []))
        (omega (arith, length-append pre (src ++ []), length-append src [])) d))

-- What `Marshal` has written in front of the addresses.
abbrev twelve : Header → List ℕ
twelve h =
    bit_or (u8 (shl h.version 4)) (bit_and h.ihl 0x0f) ∷ h.tos ∷ be16 h.total_len
    ++ (be16 h.id
        ++ (be16 (bit_or (u16 (shl h.flags 13)) (bit_and h.frag_offset 0x1fff))
            ++ (h.ttl ∷ h.protocol ∷ be16 h.checksum)))

fill_short :
    (h : Header) (n : ℕ)
    → n < 5
    → length h.src ≡ 4
    → length h.dst ≡ 4
    → fill h (replicate (n * 4) 0) ≡ panic
unfolding fill
fill_short h zero lt s d = refl
fill_short h (suc zero) lt s d = refl
fill_short h (suc (suc zero)) lt s d = refl
fill_short h (suc (suc (suc zero))) lt s d = rw (put_ip_over 12 h.src (twelve h) refl s)
fill_short h (suc (suc (suc (suc zero)))) lt s d =
    short_tail (twelve h) h.src h.dst h.options refl s d
fill_short h (suc (suc (suc (suc (suc n))))) lt s d = absurd (omega arith)

-- `Marshal` panics for want of room on every header with an IHL below 5 and IPv4 addresses.
pub marshal_short :
    (h : Header) → h.ihl < 5 → length h.src ≡ 4 → length h.dst ≡ 4 → marshal h ≡ panic
unfolding marshal
marshal_short h lt s d = fill_short h h.ihl lt s d
