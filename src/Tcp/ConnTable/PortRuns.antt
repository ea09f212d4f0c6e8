-- ===== src/Tcp/ConnTable/PortRuns.antt =====
-- `EphemeralPort` at concrete tables.
use gonet.Prelude.{ℕ, ◌≤◌, ◌<◌, ◌≡◌, refl, none, some, [], arith, leb, ◌==◌, if◌then◌else◌}
use gonet.Tcp.ConnTable.{
  ConnectionTable, ephemeral_port, port_of, counter_after, is_used, is_listener, conn_exists_at,
}
use gonet.Tcp.ConnTable.Rounds.{IsFree, IsVisit, IsCounter}
use gonet.Tcp.ConnTable.Ports.{ephemeral_port-IsFree, ephemeral_port_never}

-- A listener at the first port.
abbrev first_taken : ConnectionTable ℕ ℕ
first_taken = record {
  conns = λ k. none;
  listeners = λ p. if p == 49152 then some (record { port = 49152 }) else none;
  ephemeral_port = 49152;
}

first_taken-IsVisit : IsVisit first_taken []
first_taken-IsVisit = record { visited = λ k conn e. absurd (cc e); present = tt }

first_taken-IsFree : IsFree first_taken 49153
first_taken-IsFree = record {
  in_range = omega arith;
  no_listener = refl;
  no_conn = λ k conn e. absurd (cc e);
}

next_one :
    ephemeral_port 2 [] first_taken ≡ some (49153, record first_taken { ephemeral_port = 49154 })
unfolding ephemeral_port port_of counter_after is_used is_listener conn_exists_at
next_one = refl

ephemeral_port-IsFree_example :
    (port : ℕ) × (c : ℕ) × (ephemeral_port 32768 [] first_taken
      ≡ some (port, record first_taken { ephemeral_port = c }))
    × IsFree first_taken port
    × IsCounter c
ephemeral_port-IsFree_example =
    ephemeral_port-IsFree first_taken [] 49153 first_taken-IsVisit (omega arith) (omega arith)
      first_taken-IsFree

-- Listeners at all ports but the first, and the counter behind it.
abbrev first_left : ConnectionTable ℕ ℕ
first_left = record {
  conns = λ k. none;
  listeners = λ p. if leb 49153 p then some (record { port = p }) else none;
  ephemeral_port = 49153;
}

first_left-IsVisit : IsVisit first_left []
first_left-IsVisit = record { visited = λ k conn e. absurd (cc e); present = tt }

no_other : (p : ℕ) → 49153 ≤ p → p < 65536 → ¬ IsFree first_left p
no_other p lo hi free = ground (arith, free.no_listener)

first_left-IsFree : IsFree first_left 49152
first_left-IsFree = record {
  in_range = omega arith;
  no_listener = refl;
  no_conn = λ k conn e. absurd (cc e);
}

ephemeral_port_never_example : ephemeral_port 1000000 [] first_left ≡ none
ephemeral_port_never_example =
    ephemeral_port_never first_left [] 1000000 first_left-IsVisit (omega arith) (omega arith)
      no_other
