-- ===== src/Tun/Loop/Runs.antt =====
-- The read loop at a concrete device.
use gonet.Prelude.{ℕ, ◌≡◌, refl, true, false, List, [], ◌∷◌, arith, ok}
use gonet.Tun.Loop.{
  ReadResult, got, interrupted, failed, Turn, ReadLoop, Progress, fatal_error, new_read_loop, loop,
  after_read, add_packet, add_error, packet_of, more_packets,
}
use gonet.Tun.Loop.Stopping.{
  Life, reading, gone, new_life, start_loop, signal, return_loop, hand, Run, stays, ended, moves,
  keeps_on, sees_end, takes, gracefully, IsStopped, stop_lem,
}
use gonet.Tun.Loop.Deliveries.{HasRead, loop-HasRead}

abbrev pub turn : ReadResult → Turn
turn result = record { cancelled = false; result = result; cancelled_meanwhile = false }

-- Two packets with an interrupted read between them, a fatal error, and a packet behind it.
abbrev pub turns : List Turn
turns =
    turn (got 2 (1 ∷ 2 ∷ []))
    ∷ turn interrupted
    ∷ turn (got 1 (3 ∷ []))
    ∷ turn failed
    ∷ turn (got 1 (4 ∷ []))
    ∷ []

abbrev pub at_end : ReadLoop
at_end = record { buf_size = 4; counts = record { packets_read = 2; bytes_read = 3; errors = 1 } }

pub loop_run :
    loop {E = ℕ} turns (new_read_loop 4) ≡ ok (fatal_error, at_end, (1 ∷ 2 ∷ []) ∷ (3 ∷ []) ∷ [])
unfolding loop after_read new_read_loop add_packet add_error packet_of more_packets
loop_run = refl

loop-HasRead_example :
    (progress : Progress) × (r' : ReadLoop) × (packets : List (List ℕ)) × (loop {E = ℕ} turns
        (new_read_loop 4)
      ≡ ok (progress, r', packets))
    × HasRead turns (new_read_loop 4) progress r' packets
unfolding new_read_loop
loop-HasRead_example = loop-HasRead turns (new_read_loop 4) (omega arith)

-- A started loop that waits in `Read` with one packet handed over, and the same behind its end.
abbrev waiting_loop : Life
waiting_loop = record {
  read_loop = record {
    buf_size = 4;
    counts = record { packets_read = 1; bytes_read = 2; errors = 0 };
  };
  has_cancel = true;
  done = false;
  waiting = 1;
  place = reading;
  handed = (1 ∷ 2 ∷ []) ∷ [];
}

abbrev ended_loop : Life
ended_loop = record {
  read_loop = record {
    buf_size = 4;
    counts = record { packets_read = 2; bytes_read = 3; errors = 0 };
  };
  has_cancel = true;
  done = true;
  waiting = 0;
  place = gone;
  handed = (1 ∷ 2 ∷ []) ∷ (3 ∷ []) ∷ [];
}

before_stop : Run 3 (start_loop (new_life 4)) waiting_loop
unfolding start_loop new_life new_read_loop hand add_packet packet_of
before_stop =
    moves (keeps_on refl refl)
      (moves (takes 2 (1 ∷ 2 ∷ []) (1 ∷ 2 ∷ []) refl refl) (moves (keeps_on refl refl) stays))

behind_stop : Run 2 (signal waiting_loop) ended_loop
unfolding signal hand add_packet packet_of return_loop
behind_stop = moves (takes 1 (3 ∷ []) (3 ∷ []) refl refl) (moves (sees_end refl refl) stays)

stop_lem_example : IsStopped 2 0 waiting_loop ended_loop ended_loop
stop_lem_example =
    stop_lem 4 3 2 0 waiting_loop ended_loop ended_loop before_stop behind_stop (gracefully refl)
      (ended stays)
