-- ===== src/Tun/Loop.antt =====
-- internal/tun/loop.go: `ReadLoop`. What the device and the context do is an argument, a list of
-- turns of the loop: whether the context is done before the read, what the read returns, and
-- whether the context is done behind it. The goroutines that the loop starts are the list of the
-- packets that it hands to them, in the order of the `go` statements. A list of turns that ends is
-- a loop that still runs.
pub mod Deliveries
pub mod Stopping
pub mod Runs
use gonet.Prelude.{
  ℕ, ◌+◌, Bool, List, [], ◌∷◌, ltb, if◌then◌else◌, length, replicate, u64, Result, ok, panic, ◌>>=◌,
  slice, copy,
}

-- What `io.Read` returns, and what it writes into its buffer.
pub data ReadResult : Type 0 where
  got : ℕ → List ℕ → ReadResult
  interrupted failed : ReadResult

pub record Turn : Type 0 where
  pub cancelled : Bool
  pub result : ReadResult
  pub cancelled_meanwhile : Bool

pub record LoopStats : Type 0 where
  pub packets_read : ℕ
  pub bytes_read : ℕ
  pub errors : ℕ

pub record ReadLoop : Type 0 where
  pub buf_size : ℕ
  pub counts : LoopStats

-- How far the loop is.
pub data Progress : Type 0 where
  running cancelled_loop fatal_error : Progress

unfoldable pub new_read_loop : ℕ → ReadLoop
new_read_loop buf_size = record {
  buf_size = buf_size;
  counts = record { packets_read = 0; bytes_read = 0; errors = 0 };
}

unfoldable pub add_packet : ℕ → ReadLoop → ReadLoop
add_packet n r = record r {
  counts = record (r.counts) {
    packets_read = u64 (r.counts.packets_read + 1);
    bytes_read = u64 (r.counts.bytes_read + n);
  };
}

unfoldable pub add_error : ReadLoop → ReadLoop
add_error r = record r { counts = record (r.counts) { errors = u64 (r.counts.errors + 1) } }

-- `packet := make([]byte, n)`, `copy(packet, buf[:n])`
unfoldable pub packet_of : {E : Type 0} → ℕ → List ℕ → Result E (List ℕ)
packet_of n buf = if ltb (length buf) n then panic else ok (copy (replicate n 0) (slice buf 0 n))

-- What the loop does: how far it gets, and the packets that it hands over.
abbrev pub Outcome : Type 0 → Type 0
Outcome E = Result E (Progress × ReadLoop × List (List ℕ))

unfoldable pub more_packets : {E : Type 0} → List ℕ → Outcome E → Outcome E
more_packets packet rest = rest >>= λ (progress, r, packets). ok (progress, r, packet ∷ packets)

-- The end of a turn, by the result of the read, with the rest of the loop.
unfoldable pub after_read :
    {E : Type 0} → Turn → ReadLoop → (ReadLoop → Outcome E) → ReadResult → Outcome E
unfolding add_packet add_error packet_of more_packets
after_read turn r rest (got n written) =
    packet_of n (copy (replicate r.buf_size 0) written) >>= λ packet.
    more_packets packet (rest (add_packet n r))
after_read turn r rest interrupted = rest r
after_read turn r rest failed =
    if turn.cancelled_meanwhile
    then ok (cancelled_loop, r, [])
    else ok (fatal_error, add_error r, [])

unfoldable pub loop : {E : Type 0} → List Turn → ReadLoop → Outcome E
unfolding after_read
loop [] r = ok (running, r, [])
loop (turn ∷ turns) r =
    if turn.cancelled
    then ok (cancelled_loop, r, [])
    else after_read turn r (loop turns) turn.result

-- `Stats`
unfoldable pub loop_stats : ReadLoop → LoopStats
loop_stats r = r.counts
