-- ===== src/Ip/Fragment.antt =====
-- internal/ip/fragment.go: `NeedsFragmentation` and `Fragment`. A length and an MTU are natural
-- numbers; the loop over the payload has a round for each of its bytes as fuel.
pub mod Pieces
pub mod Split
pub mod Example
mod Runs
use gonet.Prelude.{
  ℕ, zero, suc, ◌+◌, ◌-◌, ◌/◌, bit_and, bit_or, Bool, not, List, [], ◌∷◌, ◌++◌, ltb, leb, ◌==◌,
  if◌then◌else◌, length, u16, bit_and_not, Result, ok, err, ◌>>=◌, slice,
}
use gonet.Ip.Errors.{Error, dont_fragment, mtu_too_small}
use gonet.Ip.Header.{Header, parse_header, header_len, payload, flag_df, flag_mf}
use gonet.Ip.Summed.{marshal_summed}

unfoldable pub needs_fragmentation : ℕ → ℕ → Bool
needs_fragmentation packet_len mtu = ltb mtu packet_len

-- `fragHeader`, for the piece of `len` bytes at `offset`.
unfoldable pub fragment_header : Header → ℕ → ℕ → Bool → Header
fragment_header h offset len is_last = record h {
  frag_offset = u16 (h.frag_offset + u16 (offset / 8));
  total_len = u16 (header_len h + len);
  flags = if is_last then h.flags else bit_or h.flags flag_mf;
}

-- `fragPacket`: the header with its checksum, and the bytes of the payload.
unfoldable pub fragment_packet : Header → List ℕ → ℕ → ℕ → Bool → Result Error (List ℕ)
fragment_packet h bytes offset len is_last =
    marshal_summed (fragment_header h offset len is_last) >>= λ header_bytes.
    ok (header_bytes ++ slice bytes offset (offset + len))

-- `for offset < payloadLen { ... }`
unfoldable pub fragment_loop : ℕ → Header → ℕ → List ℕ → ℕ → Result Error (List (List ℕ))
fragment_loop zero h max_len bytes offset = ok []
fragment_loop (suc fuel) h max_len bytes offset =
    let remaining = length bytes - offset in
    let is_last = leb remaining max_len in
    let len = if is_last then remaining else max_len in
    let rounds = fragment_packet h bytes offset len is_last >>= λ packet.
    fragment_loop fuel h max_len bytes (offset + len) >>= λ packets. ok (packet ∷ packets) in
    if ltb offset (length bytes) then rounds else ok []

-- The part of `Fragment` behind `ParseHeader`.
unfoldable pub split_packet : Header → List ℕ → ℕ → Result Error (List (List ℕ))
unfolding header_len
split_packet h packet mtu =
    if not (bit_and h.flags flag_df == 0)
    then err dont_fragment
    else if ltb mtu (header_len h + 8)
    then err mtu_too_small
    else let bytes = payload h packet in
      fragment_loop (length bytes) h (bit_and_not (mtu - header_len h) 7) bytes 0

unfoldable pub fragment : List ℕ → ℕ → Result Error (List (List ℕ))
unfolding needs_fragmentation
fragment packet mtu =
    if not (needs_fragmentation (length packet) mtu)
    then ok (packet ∷ [])
    else parse_header packet >>= λ h. split_packet h packet mtu
