-- ===== src/Tun/Loop/Deliveries.antt =====
-- What the read loop hands over and counts.
use gonet.Prelude.{
  ℕ, ◌+◌, ◌-◌, ◌≤◌, ◌≡◌, refl, sym, ap, ◌∙◌, ◌≢◌, ◌⊎◌, inl, inr, Bool, true, false, List, [], ◌∷◌,
  ◌++◌, arith, le→ltb_false, length, take, replicate, All, length-replicate, u64, ok, copy,
  copy_same,
}
use mathlib.Core.Path.{subst}
use gonet.Prelude.Pasted.{take-copy, length-copy}
use gonet.Prelude.Rearranged.{sum_by}
use gonet.Tun.Loop.{
  ReadResult, got, interrupted, failed, Turn, ReadLoop, Progress, running, cancelled_loop,
  fatal_error, add_packet, add_error, packet_of, Outcome, more_packets, after_read, loop,
}

-- `io.Reader`: the count is that of the bytes written, and they fit the buffer.
abbrev pub IsRead : ℕ → ReadResult → Type 0
IsRead size (got n written) = (length written ≡ n) × (n ≤ size)
IsRead size interrupted = Unit {0}
IsRead size failed = Unit {0}

abbrev given_by : ReadResult → List (List ℕ) → List (List ℕ)
given_by (got n written) rest = written ∷ rest
given_by interrupted rest = rest
given_by failed rest = rest

-- The packets that the device gives out in some turns.
abbrev pub packets_given : List Turn → List (List ℕ)
packets_given [] = []
packets_given (turn ∷ turns) = given_by turn.result (packets_given turns)

abbrev failures : Progress → ℕ
failures running = 0
failures cancelled_loop = 0
failures fatal_error = 1

-- A turn behind which the loop goes on: the context is not done, and the read has not failed; it may
-- have been interrupted.
abbrev pub GoesOn : Turn → Type 0
GoesOn turn = (turn.cancelled ≡ false) × (turn.result ≢ failed)

-- What stands at the turn at which the loop is or ends: none is left while it runs; it ends as
-- cancelled where the context is done in front of the read or behind one that failed, and with an
-- error where a read failed and the context is not done.
abbrev pub StopsAt : Progress → List Turn → Type 0
StopsAt running turns = turns ≡ []
StopsAt cancelled_loop [] = ⊥
StopsAt cancelled_loop (turn ∷ turns) =
    (turn.cancelled ≡ true) ⊎ (turn.result ≡ failed) × (turn.cancelled_meanwhile ≡ true)
StopsAt fatal_error [] = ⊥
StopsAt fatal_error (turn ∷ turns) =
    (turn.cancelled ≡ false) × (turn.result ≡ failed) × (turn.cancelled_meanwhile ≡ false)

-- The turns up to the one at which the loop stops, and that one with the others.
pub record IsSplit (turns : List Turn) (progress : Progress) (packets : List (List ℕ))
    : Type 0 where
  pub passed : List Turn
  pub left : List Turn
  pub all_turns : turns ≡ passed ++ left
  pub go_on : All GoesOn passed
  pub stops_at : StopsAt progress left
  pub all_given : packets ≡ packets_given passed

-- The loop has handed over `packets`, and stands at `r'`.
pub record HasRead (turns : List Turn) (r : ReadLoop) (progress : Progress) (r' : ReadLoop)
    (packets : List (List ℕ)) : Type 0 where
  pub in_order : (missed : List (List ℕ)) × (packets_given turns ≡ packets ++ missed)
  pub none_missed : progress ≡ running → packets ≡ packets_given turns
  pub stops : IsSplit turns progress packets
  pub small : All (λ p. length p ≤ r.buf_size) packets
  pub packets_read : u64 r'.counts.packets_read ≡ u64 (r.counts.packets_read + length packets)
  pub bytes_read :
      u64 r'.counts.bytes_read ≡ u64 (r.counts.bytes_read + sum_by (λ p. length p) packets)
  pub errors : u64 r'.counts.errors ≡ u64 (r.counts.errors + failures progress)

module _ {E : Type 0} where
  packet_of-read :
      (size n : ℕ) (written : List ℕ)
      → length written ≡ n
      → n ≤ size
      → packet_of {E = E} n (copy (replicate size 0) written) ≡ ok written
  unfolding packet_of
  packet_of-read size n written e le =
      rw (le→ltb_false (length (copy (replicate size 0) written)) n (omega (arith, size_of, le))) (
        ap ok (
          copy_same (replicate n 0) (take (n - 0) (copy (replicate size 0) written))
            (length-replicate n 0 ∙ e' ∙ ap (λ (bs : List ℕ). length bs) (sym front))
          ∙ front))
    where
      size_of : length (copy (replicate size 0) written) ≡ size
      size_of = length-copy (replicate size 0) written ∙ length-replicate size 0

      e' : n ≡ length written
      e' = sym e

      none_off : n - 0 ≡ n
      none_off = omega arith

      front : take (n - 0) (copy (replicate size 0) written) ≡ written
      front =
          ap (λ k. take k (copy (replicate size 0) written)) none_off
          ∙ take-copy n (replicate size 0) written e
              (omega (arith, length-replicate {A = ℕ} size 0, le))

  abbrev Reads : List Turn → ReadLoop → Outcome E → Type 0
  Reads turns r out =
      (progress : Progress) × (r' : ReadLoop) × (packets : List (List ℕ)) × (out
        ≡ ok (progress, r', packets))
      × HasRead turns r progress r' packets

  module _ (turns : List Turn) (r : ReadLoop)
      (rest : (r1 : ReadLoop) → r1.buf_size ≡ r.buf_size → Reads turns r1 (loop turns r1)) where
    abbrev turn_of : Bool → ReadResult → Bool → Turn
    turn_of cancelled result meanwhile = record {
      cancelled = cancelled;
      result = result;
      cancelled_meanwhile = meanwhile;
    }

    stops-HasRead :
        (turn : Turn) (progress : Progress) (r' : ReadLoop)
        → progress ≢ running
        → StopsAt progress (turn ∷ turns)
        → u64 r'.counts.packets_read ≡ u64 r.counts.packets_read
        → u64 r'.counts.bytes_read ≡ u64 r.counts.bytes_read
        → u64 r'.counts.errors ≡ u64 (r.counts.errors + failures progress)
        → HasRead (turn ∷ turns) r progress r' []
    stops-HasRead turn progress r' stopped here packets bytes errors = record {
      in_order = (packets_given (turn ∷ turns), refl);
      none_missed = λ e. absurd (stopped e);
      stops = record {
        passed = [];
        left = turn ∷ turns;
        all_turns = refl;
        go_on = tt;
        stops_at = here;
        all_given = refl;
      };
      small = tt;
      packets_read = omega (arith, packets);
      bytes_read = omega (arith, bytes);
      errors = errors;
    }

    one_more :
        (turn : Turn) (progress : Progress) (packets : List (List ℕ))
        → GoesOn turn
        → IsSplit turns progress packets
        → IsSplit (turn ∷ turns) progress (given_by turn.result packets)
    one_more turn progress packets goes h = record {
      passed = turn ∷ h.passed;
      left = h.left;
      all_turns = ap (λ ts. turn ∷ ts) h.all_turns;
      go_on = (goes, h.go_on);
      stops_at = h.stops_at;
      all_given = ap (given_by turn.result) h.all_given;
    }

    turn-HasRead :
        (cancelled : Bool) (result : ReadResult) (meanwhile : Bool)
        → IsRead r.buf_size result
        → Reads
            (turn_of cancelled result meanwhile ∷ turns)
            r
            (loop (turn_of cancelled result meanwhile ∷ turns) r)
    unfolding loop after_read add_packet add_error more_packets
    turn-HasRead true result meanwhile ok_read = (
      cancelled_loop,
      r,
      [],
      refl,
      stops-HasRead (turn_of true result meanwhile) cancelled_loop r (λ e. absurd (cc e)) (inl refl)
          refl refl (omega arith),
    )
    turn-HasRead false (got n written) meanwhile ok_read =
        let (progress, r', packets, e, h) = rest (add_packet n r) refl in
        (
          progress,
          r',
          written ∷ packets,
          rw (packet_of-read r.buf_size n written ok_read.0 ok_read.1, e) refl,
          record {
            in_order = (h.in_order.0, ap (λ ps. written ∷ ps) h.in_order.1);
            none_missed = λ e. ap (λ ps. written ∷ ps) (h.none_missed e);
            stops =
                one_more (turn_of false (got n written) meanwhile) progress packets
                  (refl, (λ e. absurd (cc e))) h.stops;
            small = (omega (arith, ok_read), h.small);
            packets_read = omega (arith, h.packets_read);
            bytes_read = omega (arith, h.bytes_read, ok_read.0);
            errors = h.errors;
          },
        )
    turn-HasRead false interrupted meanwhile ok_read =
        let (progress, r', packets, e, h) = rest r refl in
        (
          progress,
          r',
          packets,
          e,
          record {
            in_order = h.in_order;
            none_missed = h.none_missed;
            stops =
                one_more (turn_of false interrupted meanwhile) progress packets
                  (refl, (λ e. absurd (cc e))) h.stops;
            small = h.small;
            packets_read = h.packets_read;
            bytes_read = h.bytes_read;
            errors = h.errors;
          },
        )
    turn-HasRead false failed true ok_read = (
      cancelled_loop,
      r,
      [],
      refl,
      stops-HasRead (turn_of false failed true) cancelled_loop r (λ e. absurd (cc e))
          (inr (refl, refl)) refl refl (omega arith),
    )
    turn-HasRead false failed false ok_read = (
      fatal_error,
      add_error r,
      [],
      refl,
      stops-HasRead (turn_of false failed false) fatal_error (add_error r) (λ e. absurd (cc e))
          (refl, refl, refl) refl refl (omega arith),
    )

  loop-Reads :
      (turns : List Turn) (r : ReadLoop)
      → All (λ t. IsRead r.buf_size t.result) turns
      → Reads turns r (loop turns r)
  unfolding loop
  loop-Reads [] r reads = (
    running,
    r,
    [],
    refl,
    record {
      in_order = ([], refl);
      none_missed = λ e. refl;
      stops = record {
        passed = [];
        left = [];
        all_turns = refl;
        go_on = tt;
        stops_at = refl;
        all_given = refl;
      };
      small = tt;
      packets_read = omega arith;
      bytes_read = omega arith;
      errors = omega arith;
    },
  )
  loop-Reads (turn ∷ turns) r reads =
      turn-HasRead turns r
        (λ r1 same.
          loop-Reads turns r1 (subst (λ n. All (λ t. IsRead n t.result) turns) (sym same) reads.1))
        turn.cancelled turn.result turn.cancelled_meanwhile reads.0

-- The read loop, from any counters on and whatever the device returns that obeys `io.Reader`, does
-- not panic. It goes on behind every packet and every interrupted read, and ends at the first turn
-- at which the context is done or a read fails, as cancelled if the context is done then and else
-- with an error. It hands over all packets that the device gives out up to there, unchanged and in
-- order; each fits the buffer. It counts the packets, their bytes, and an error where it ends by one,
-- all modulo 2 ^ 64.
pub loop-HasRead :
    {E : Type 0} (turns : List Turn) (r : ReadLoop)
    → All (λ t. IsRead r.buf_size t.result) turns
    → (progress : Progress) × (r' : ReadLoop) × (packets : List (List ℕ)) × (loop {E = E} turns r
        ≡ ok (progress, r', packets))
      × HasRead turns r progress r' packets
loop-HasRead turns r reads = loop-Reads turns r reads
