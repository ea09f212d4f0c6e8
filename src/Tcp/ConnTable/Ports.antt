-- ===== src/Tcp/ConnTable/Ports.antt =====
-- The ports that `EphemeralPort` returns, and when it returns.
use gonet.Prelude.{
  ℕ, zero, suc, ◌+◌, ◌-◌, ◌≤◌, ◌<◌, ◌≡◌, refl, sym, ap, ◌∙◌, ◌≢◌, inl, inr, true, false, Option,
  none, some, List, arith, ltb, leb, if◌then◌else◌, ltb→lt, ltb_false→le, Bool-cases,
}
use mathlib.Core.Path.{subst}
use gonet.Tcp.Conn.{ConnKey}
use gonet.Tcp.ConnTable.{ConnectionTable, counter_after, is_used, ephemeral_port}
use gonet.Tcp.ConnTable.Rounds.{
  IsCounter, IsFree, IsVisit, at_counter, counter_after_small, counter_after_end, unused-IsFree,
  IsFree-unused, round_over, round_used, round_unused,
}

-- The rounds from a counter to the one that tries a port.
abbrev rounds_to : ℕ → ℕ → ℕ
rounds_to p c = if leb c p then p - c else (65536 - c) + 1 + (p - 49153)

module _ {W E : Type 0} where
  module _ (ct : ConnectionTable W E) (keys : List ConnKey) (visit : IsVisit ct keys) where
    -- What a call returns.
    abbrev pub Returns : Option (ℕ × ConnectionTable W E) → Type 0
    Returns r =
        (port : ℕ) × (c : ℕ) × (r ≡ some (port, at_counter ct keys visit c))
        × IsFree ct port
        × IsCounter c

    pub ephemeral_port-Returns :
        (fuel c p : ℕ)
        → IsCounter c
        → 49153 ≤ p
        → IsFree ct p
        → rounds_to p c < fuel
        → Returns (ephemeral_port fuel keys (at_counter ct keys visit c))
    unfolding ephemeral_port
    ephemeral_port-Returns zero c p counter low free enough = absurd (omega arith)
    ephemeral_port-Returns (suc fuel) c p counter low free enough =
        elim (Bool-cases (ltb 65535 c)) [
          | inl over ↦
              subst Returns
                (sym (
                  round_over ct keys visit fuel c counter (ltb→lt 65535 c over)
                  ∙ ap (λ n. ephemeral_port fuel keys (at_counter ct keys visit n)) (at_end over)))
                (ephemeral_port-Returns fuel 49153 p (omega arith) low free (nearer_end over))
          | inr inside ↦ elim (Bool-cases (is_used ct keys c)) [
            | inl used ↦
                subst Returns
                  (sym (
                    round_used ct keys visit fuel c counter (below inside) used
                    ∙ ap (λ n. ephemeral_port fuel keys (at_counter ct keys visit n))
                        (counter_after_small c (below inside))))
                  (ephemeral_port-Returns fuel (c + 1) p (omega (arith, counter.0, below inside))
                    low free
                    (nearer inside
                      (λ e. absurd (cc (used, e, IsFree-unused ct keys visit p free)))))
            | inr unused ↦ (
              c,
              c + 1,
              round_unused ct keys visit fuel c counter (below inside) unused
                  ∙ ap (λ n. some (c, at_counter ct keys visit n))
                      (counter_after_small c (below inside)),
              unused-IsFree ct keys visit c (counter.0, below inside) unused,
              omega (arith, counter.0, below inside),
            )
          ]
        ]
      where
        below : ltb 65535 c ≡ false → c < 65536
        below h = omega (arith, ltb_false→le 65535 c h)

        at_end : ltb 65535 c ≡ true → counter_after c ≡ 49153
        at_end h = ap counter_after (last (ltb→lt 65535 c h)) ∙ counter_after_end
          where
            last : 65535 < c → c ≡ 65536
            last lt = omega (arith, counter.1)

        nearer_end : ltb 65535 c ≡ true → rounds_to p 49153 < fuel
        nearer_end h = ground (arith, free.in_range, enough, ltb→lt 65535 c h)

        nearer : ltb 65535 c ≡ false → c ≢ p → rounds_to p (c + 1) < fuel
        nearer h ne = ground (arith, enough, ltb_false→le 65535 c h)

    ephemeral_port_misses :
        (fuel c : ℕ)
        → 49153 ≤ c
        → c ≤ 65536
        → ((p : ℕ) → 49153 ≤ p → p < 65536 → is_used ct keys p ≡ true)
        → ephemeral_port fuel keys (at_counter ct keys visit c) ≡ none
    unfolding ephemeral_port
    ephemeral_port_misses zero c low high full = refl
    ephemeral_port_misses (suc fuel) c low high full = elim (Bool-cases (ltb c 65536)) [
      | inl inside ↦
          round_used ct keys visit fuel c (omega arith) (ltb→lt c 65536 inside)
            (full c low (ltb→lt c 65536 inside))
          ∙ ap (λ n. ephemeral_port fuel keys (at_counter ct keys visit n))
              (counter_after_small c (ltb→lt c 65536 inside))
          ∙ ephemeral_port_misses fuel (c + 1) (omega arith) (omega (arith, ltb→lt c 65536 inside))
              full
      | inr end ↦
          round_over ct keys visit fuel c (omega arith) (omega (arith, ltb_false→le c 65536 end))
          ∙ ap (λ n. ephemeral_port fuel keys (at_counter ct keys visit (counter_after n)))
              (last (ltb_false→le c 65536 end))
          ∙ ap (λ n. ephemeral_port fuel keys (at_counter ct keys visit n)) counter_after_end
          ∙ ephemeral_port_misses fuel 49153 (omega arith) (omega arith) full
    ]
      where
        last : 65536 ≤ c → c ≡ 65536
        last le = omega (arith, high)

-- Where a port from 49153 to 65535 is free, `EphemeralPort` returns within 32768 rounds, from every
-- counter from 49152 to 65536: a port from 49152 to 65535 that no listener and no connection uses.
-- It leaves the counter in that range and the maps as they are. The loop over the keys visits the
-- keys of all connections.
pub ephemeral_port-IsFree :
    {W E : Type 0} (ct : ConnectionTable W E) (keys : List ConnKey) (p : ℕ)
    → IsVisit ct keys
    → IsCounter ct.ephemeral_port
    → 49153 ≤ p
    → IsFree ct p
    → (port : ℕ) × (c : ℕ) × (ephemeral_port 32768 keys ct
        ≡ some (port, record ct { ephemeral_port = c }))
      × IsFree ct port
      × IsCounter c
ephemeral_port-IsFree ct keys p visit counter low free =
    ephemeral_port-Returns ct keys visit 32768 ct.ephemeral_port p counter low free
      (ground (arith, counter, low, free.in_range))

-- Where every port from 49153 to 65535 is used, `EphemeralPort` does not return once its counter is
-- beyond 49152, whatever the number of rounds, though port 49152 may be free.
pub ephemeral_port_never :
    {W E : Type 0} (ct : ConnectionTable W E) (keys : List ConnKey) (fuel : ℕ)
    → IsVisit ct keys
    → 49153 ≤ ct.ephemeral_port
    → ct.ephemeral_port ≤ 65536
    → ((p : ℕ) → 49153 ≤ p → p < 65536 → ¬ IsFree ct p)
    → ephemeral_port fuel keys ct ≡ none
ephemeral_port_never ct keys fuel visit low high full =
    ephemeral_port_misses ct keys visit fuel ct.ephemeral_port low high used
  where
    used : (p : ℕ) → 49153 ≤ p → p < 65536 → is_used ct keys p ≡ true
    used p lo hi = elim (Bool-cases (is_used ct keys p)) [
      | inl e ↦ e
      | inr e ↦ absurd (full p lo hi (unused-IsFree ct keys visit p (omega arith) e))
    ]
