-- ===== src/Tcp/ConnTable/Rounds.antt =====
-- One round of `EphemeralPort`, and what a free port is.
use gonet.Prelude.{
  ℕ, suc, ◌+◌, ◌≤◌, ◌<◌, ◌≡◌, refl, sym, ap, ◌∙◌, ◌≢◌, inl, inr, Bool, true, false, ◌||◌, Option,
  none, some, List, [], ◌∷◌, arith, ◌==◌, lt→ltb, le→ltb_false, eq→==, ne→==_false, Bool-cases, All,
  u16,
}
use gonet.Prelude.Rearranged.{Any}
use gonet.Tcp.Conn.{ConnKey, TcpConn}
use gonet.Tcp.ConnTable.{
  Listener, ConnectionTable, conn_exists_at, is_listener, port_of, counter_after, is_used,
  ephemeral_port,
}

abbrev pub IsEphemeral : ℕ → Type 0
IsEphemeral port = (49152 ≤ port) × (port < 65536)

-- The counter between two calls.
abbrev pub IsCounter : ℕ → Type 0
IsCounter counter = (49152 ≤ counter) × (counter ≤ 65536)

port_of_small : (c : ℕ) → c ≤ 65536 → port_of c ≡ c
unfolding port_of
port_of_small c h = omega arith

pub counter_after_small : (c : ℕ) → c < 65536 → counter_after c ≡ c + 1
unfolding counter_after
counter_after_small c h =
    rw (port_of_small c (omega arith), le→ltb_false 65535 c (omega arith)) (omega arith)

pub counter_after_end : counter_after 65536 ≡ 49153
unfolding counter_after port_of
counter_after_end = refl

conn_exists_at-ne :
    (port : ℕ) (keys : List ConnKey) (k : ConnKey)
    → conn_exists_at port keys ≡ false
    → Any (λ j. k ≡ j) keys
    → k.src_port ≢ port
unfolding conn_exists_at
conn_exists_at-ne port [] k e h = elim h [ ]
conn_exists_at-ne port (j ∷ keys) k e (inl same) = λ at.
    absurd (cc (rw (eq→== j.src_port port (ap (λ (x : ConnKey). x.src_port) (sym same) ∙ at)) at e))
conn_exists_at-ne port (j ∷ keys) k e (inr h) = elim (Bool-cases (j.src_port == port)) [
  | inl at_port ↦ absurd (cc (rw at_port at e))
  | inr elsewhere ↦ conn_exists_at-ne port keys k (rw elsewhere at e) h
]

conn_exists_at-false :
    (port : ℕ) (keys : List ConnKey)
    → All (λ k. k.src_port ≢ port) keys
    → conn_exists_at port keys ≡ false
unfolding conn_exists_at
conn_exists_at-false port [] h = refl
conn_exists_at-false port (j ∷ keys) h =
    rw (ne→==_false j.src_port port h.0) (conn_exists_at-false port keys h.1)

no_listener_of : (l : Option Listener) → is_listener l ≡ false → l ≡ none
unfolding is_listener
no_listener_of none e = refl
no_listener_of (some l) e = absurd (cc e)

same_port : (c : ℕ) → c < 65536 → u16 c ≡ c
same_port c h = omega arith

both : (a b : Bool) → (a || b) ≡ false → (a ≡ false) × (b ≡ false)
both a b h = ground (arith, h)

module _ {W E : Type 0} where
  -- A port of the dynamic range that no listener and no connection uses.
  pub record IsFree (ct : ConnectionTable W E) (port : ℕ) : Type 0 where
    pub in_range : IsEphemeral port
    pub no_listener : ct.listeners port ≡ none
    pub no_conn : (k : ConnKey) (conn : TcpConn W E) → ct.conns k ≡ some conn → k.src_port ≢ port

  -- The keys that a loop over the map of connections visits: those of all connections.
  pub record IsVisit (ct : ConnectionTable W E) (keys : List ConnKey) : Type 0 where
    pub visited :
        (k : ConnKey) (conn : TcpConn W E) → ct.conns k ≡ some conn → Any (λ j. k ≡ j) keys
    pub present : All (λ k. (conn : TcpConn W E) × (ct.conns k ≡ some conn)) keys

  module _ (ct : ConnectionTable W E) (keys : List ConnKey) (visit : IsVisit ct keys) where
    abbrev pub at_counter : ℕ → ConnectionTable W E
    at_counter c = record ct { ephemeral_port = c }

    pub unused-IsFree :
        (port : ℕ) → IsEphemeral port → is_used ct keys port ≡ false → IsFree ct port
    unfolding is_used
    unused-IsFree port range e = record {
      in_range = range;
      no_listener =
          no_listener_of (ct.listeners port)
            (both (is_listener (ct.listeners port)) (conn_exists_at port keys) e).0;
      no_conn = λ k conn found.
          conn_exists_at-ne port keys k
            (both (is_listener (ct.listeners port)) (conn_exists_at port keys) e).1
            (visit.visited k conn found);
    }

    pub IsFree-unused : (port : ℕ) → IsFree ct port → is_used ct keys port ≡ false
    unfolding is_used is_listener
    IsFree-unused port free =
        rw (free.no_listener) (conn_exists_at-false port keys (apart keys visit.present))
      where
        apart :
            (ks : List ConnKey)
            → All (λ k. (conn : TcpConn W E) × (ct.conns k ≡ some conn)) ks
            → All (λ k. k.src_port ≢ port) ks
        apart [] h = tt
        apart (k ∷ ks) ((conn, found), h) = (free.no_conn k conn found, apart ks h)

    module _ (fuel c : ℕ) (counter : IsCounter c) where
      pub round_over :
          65535 < c
          → ephemeral_port (suc fuel) keys (at_counter c)
            ≡ ephemeral_port fuel keys (at_counter (counter_after c))
      unfolding ephemeral_port
      round_over over = rw (port_of_small c counter.1, lt→ltb 65535 c over) refl

      pub round_used :
          c < 65536
          → is_used ct keys c ≡ true
          → ephemeral_port (suc fuel) keys (at_counter c)
            ≡ ephemeral_port fuel keys (at_counter (counter_after c))
      unfolding ephemeral_port is_used
      round_used inside used =
          rw
            (
              port_of_small c counter.1,
              le→ltb_false 65535 c (omega arith),
              same_port c inside,
              used,
            )
            refl

      pub round_unused :
          c < 65536
          → is_used ct keys c ≡ false
          → ephemeral_port (suc fuel) keys (at_counter c) ≡ some (c, at_counter (counter_after c))
      unfolding ephemeral_port is_used
      round_unused inside unused =
          rw
            (
              port_of_small c counter.1,
              le→ltb_false 65535 c (omega arith),
              same_port c inside,
              unused,
            )
            refl
