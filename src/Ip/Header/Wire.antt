-- ===== src/Ip/Header/Wire.antt =====
-- The wire format of an IPv4 header: what `Marshal` writes, and that `ParseHeader` reads it back.
use mathlib.Core.List.{append_assoc}
use gonet.Ip.Errors.{Error}
use gonet.Prelude.{
  ℕ, zero, suc, ◌+◌, ◌*◌, ◌%◌, List, ◌^◌, ◌<◌, ◌≡◌, refl, ap, ◌∙◌, bit_and, bit_or, List, [], ◌∷◌,
  ◌++◌, ok, ◌>>=◌, be16, length, replicate, copy_same, length-replicate, shl, bit_or-shl,
  bit_and-ones, arith, put_bytes, copy_from, lt→ltb, length-append, take,
}
use gonet.Prelude.Net.{to4_of_four}
use gonet.Ip.Header.{Header, IsValid, marshal, fill, put_ip, put_options}

-- The layout of RFC 791 in plain arithmetic.
abbrev pub wire : Header → List ℕ
wire h =
    (h.version * 16 + h.ihl) ∷ h.tos ∷ be16 h.total_len
    ++ (be16 h.id
        ++ (be16 (h.flags * 8192 + h.frag_offset)
            ++ (h.ttl ∷ h.protocol ∷ be16 h.checksum ++ (h.src ++ (h.dst ++ h.options)))))

pub first_byte : (v i : ℕ) → v ≡ 4 → i < 16 → bit_or (shl v 4 % 2 ^ 8) (bit_and i 0x0f) ≡ v * 16 + i
first_byte v i e h = ground (arith, bit_and-ones 4 i, bit_or-shl 4 v i (omega arith))

pub flags_word :
    (f o : ℕ) → f < 8 → o < 8192 → bit_or (shl f 13 % 2 ^ 16) (bit_and o 0x1fff) ≡ f * 8192 + o
flags_word f o hf ho = ground (arith, bit_and-ones 13 o, bit_or-shl 13 f o (omega arith))

-- The first twenty bytes of the buffer of `Marshal`, in front of the options.
abbrev zeros_then : List ℕ → List ℕ
zeros_then rest = replicate 20 0 ++ rest

zeros_split :
    (n : ℕ) (options : List ℕ)
    → 20 + length options ≡ n
    → replicate n 0 ≡ zeros_then (replicate (length options) 0)
zeros_split n options h = rw (← h) (rw twenty)
  where
    twenty :
        20 + length options
        ≡ suc (
            suc (
              suc (
                suc (
                  suc (
                    suc (
                      suc (
                        suc (
                          suc (
                            suc (
                              suc (
                                suc (
                                  suc (
                                    suc (
                                      suc
                                        (suc (suc (suc (suc (suc (length options))))))))))))))))))))
    twenty = omega arith

put_bytes_at :
    (i : ℕ) (pre mid post bs : List ℕ)
    → length pre ≡ i
    → length mid ≡ length bs
    → put_bytes {E = Error} i bs (pre ++ (mid ++ post)) ≡ ok (pre ++ (bs ++ post))
put_bytes_at zero [] [] post [] h k = refl
put_bytes_at zero [] (m ∷ mid) post [] h k = absurd (omega arith)
put_bytes_at zero [] [] post (b ∷ bs) h k = absurd (omega arith)
put_bytes_at zero [] (m ∷ mid) post (b ∷ bs) h k =
    rw (put_bytes_at zero [] mid post bs refl (omega arith))
put_bytes_at zero (p ∷ pre) mid post bs h k = absurd (omega arith)
put_bytes_at (suc i) [] mid post bs h k = absurd (omega arith)
put_bytes_at (suc i) (p ∷ pre) mid post bs h k = rw (put_bytes_at i pre mid post bs (omega arith) k)

pub put_ip_at :
    (i : ℕ) (pre mid post ip : List ℕ)
    → length pre ≡ i
    → length mid ≡ 4
    → length ip ≡ 4
    → put_ip i ip (pre ++ (mid ++ post)) ≡ ok (pre ++ (ip ++ post))
unfolding put_ip
put_ip_at i pre mid post ip h m four =
    rw (to4_of_four ip four, put_ip) (put_bytes_at i pre mid post ip h (omega arith))

copy_from_at :
    (i : ℕ) (pre buf options : List ℕ)
    → length pre ≡ i
    → length buf ≡ length options
    → copy_from {E = Error} i options (pre ++ buf) ≡ ok (pre ++ options)
copy_from_at zero [] buf options h k = ap ok (copy_same buf options k)
copy_from_at zero (p ∷ pre) buf options h k = absurd (omega arith)
copy_from_at (suc i) [] buf options h k = absurd (omega arith)
copy_from_at (suc i) (p ∷ pre) buf options h k = rw (copy_from_at i pre buf options (omega arith) k)

put_options_at :
    (pre options : List ℕ)
    → length pre ≡ 20
    → put_options options (pre ++ replicate (length options) 0) ≡ ok (pre ++ options)
unfolding put_options
put_options_at pre [] h = refl
put_options_at pre (b ∷ options) h = rw (lt→ltb 0 (suc (length options)) (omega arith)) (
    copy_from_at 20 pre (replicate (suc (length options)) 0) (b ∷ options) h
      (length-replicate (suc (length options)) 0))

-- The addresses and the options behind the twelve bytes in front of them.
put_tail :
    (pre src dst options : List ℕ)
    → length pre ≡ 12
    → length src ≡ 4
    → length dst ≡ 4
    → (put_ip 12 src (pre ++ (replicate 8 0 ++ replicate (length options) 0)) >>= λ buf9.
        put_ip 16 dst buf9 >>= λ buf10. put_options options buf10)
      ≡ ok (pre ++ (src ++ (dst ++ options)))
put_tail pre src dst options p s d =
    rw (put_ip_at 12 pre (replicate 4 0) (replicate 4 0 ++ zeros) src p refl s) (
      rw (← append_assoc pre src (replicate 4 0 ++ zeros)) (
        rw
          (put_ip_at 16 (pre ++ src) (replicate 4 0) zeros dst
            (omega (arith, length-append pre src)) refl d)
          (rw (← append_assoc (pre ++ src) dst zeros) (
            put_options_at ((pre ++ src) ++ dst) options
              (omega (arith, length-append pre src, length-append (pre ++ src) dst))
            ∙ ap ok (simp append_assoc)))))
  where
    zeros : List ℕ
    zeros = replicate (length options) 0

fill_lem :
    (h : Header) → IsValid h → fill h (zeros_then (replicate (length h.options) 0)) ≡ ok (wire h)
unfolding fill
fill_lem h v =
    rw
      (
        first_byte h.version h.ihl v.version_four v.ihl_high,
        flags_word h.flags h.frag_offset v.flags_fit v.frag_offset_fits,
      )
      (put_tail (take 12 (wire h)) h.src h.dst h.options refl v.src_four v.dst_four)

pub marshal-wire : (h : Header) → IsValid h → marshal h ≡ ok (wire h)
unfolding marshal
marshal-wire h v = rw (zeros_split (h.ihl * 4) h.options v.options_length) (fill_lem h v)

pub length-wire : (h : Header) → IsValid h → length (wire h) ≡ h.ihl * 4
length-wire h v = omega (
  arith,
  length-append h.src (h.dst ++ h.options),
  length-append h.dst h.options,
  v.src_four,
  v.dst_four,
  v.options_length,
)
