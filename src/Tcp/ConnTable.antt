-- ===== src/Tcp/ConnTable.antt =====
-- internal/tcp/conn_table.go: the table of connections and listeners. The maps are functions from
-- keys to values; the lock is left out, and nothing else runs while `EphemeralPort` does. Its loop
-- over the keys of the map takes them as an argument, and its outer loop is on fuel.
pub mod Lookup
pub mod Rounds
pub mod Ports
mod Runs
mod PortRuns
use gonet.Prelude.{
  ℕ, Bool, ◌&&◌, ◌==◌, if◌then◌else◌, Option, none, some, List, [], ◌∷◌, copy, u16, u32, zero, suc,
  ◌+◌, ltb, false, true, ◌||◌, ◌^◌, ◌-◌,
}
use gonet.Prelude.Net.{to4, same_bytes}
use gonet.Tcp.Conn.{ConnKey, TcpConn}

pub record Listener : Type 0 where
  pub port : ℕ

-- ErrConnExists, ErrListenerExists, and the error of `LookupOrListener`.
pub data TableError : Type 0 where
  conn_exists listener_exists nothing_found : TableError

-- Equality of keys in Go: of their arrays and ports.
unfoldable pub same_key : ConnKey → ConnKey → Bool
same_key a b =
    same_bytes a.src_ip b.src_ip
    && (a.src_port == b.src_port && (same_bytes a.dst_ip b.dst_ip && a.dst_port == b.dst_port))

-- What `LookupOrListener` finds.
pub data Found (W E : Type 0) : Type 0 where
  found_conn : TcpConn W E → Found W E
  found_listener : Listener → Found W E
  found_none : TableError → Found W E

pub record ConnectionTable (W E : Type 0) : Type 0 where
  pub conns : ConnKey → Option (TcpConn W E)
  pub listeners : ℕ → Option Listener
  pub ephemeral_port : ℕ

-- `var src [4]byte; if srcIP4 := srcIP.To4(); srcIP4 != nil { copy(src[:], srcIP4) }`
unfoldable pub key_ip : List ℕ → List ℕ
key_ip ip = elim (to4 ip) [ some four ↦ copy (0 ∷ 0 ∷ 0 ∷ 0 ∷ []) four | none ↦ 0 ∷ 0 ∷ 0 ∷ 0 ∷ [] ]

unfoldable pub tuple_key : List ℕ → List ℕ → ℕ → ℕ → ConnKey
unfolding key_ip
tuple_key src_ip dst_ip src_port dst_port = record {
  src_ip = key_ip src_ip;
  src_port = src_port;
  dst_ip = key_ip dst_ip;
  dst_port = dst_port;
}

-- The loop `for k := range ct.conns`, over the keys in the order of the visit.
unfoldable pub conn_exists_at : ℕ → List ConnKey → Bool
conn_exists_at p16 [] = false
conn_exists_at p16 (k ∷ keys) = if k.src_port == p16 then true else conn_exists_at p16 keys

unfoldable pub is_listener : Option Listener → Bool
is_listener none = false
is_listener (some _) = true

-- `ct.ephemeralPort.Add(1) - 1`, the port that is tried.
unfoldable pub port_of : ℕ → ℕ
port_of counter = u32 (u32 (counter + 1) + (2 ^ 32 - 1))

-- The counter behind one round: `Add(1)`, and the `CompareAndSwap` of a port that is too large.
unfoldable pub counter_after : ℕ → ℕ
counter_after counter =
    if ltb 65535 (port_of counter) && u32 (counter + 1) == u32 (port_of counter + 1)
    then 49152 + 1
    else u32 (counter + 1)

module _ {W E : Type 0} where
  unfoldable pub new_connection_table : ConnectionTable W E
  new_connection_table = record {
    conns = λ key. none;
    listeners = λ port. none;
    ephemeral_port = 49152;
  }

  unfoldable pub register_conn :
      ConnectionTable W E → TcpConn W E → ConnectionTable W E × Option TableError
  register_conn ct conn = elim (ct.conns conn.key) [
    | some _ ↦ (ct, some conn_exists)
    | none ↦ (
      record ct { conns = λ key. if same_key key conn.key then some conn else ct.conns key },
      none,
    )
  ]

  unfoldable pub remove_conn : ConnectionTable W E → ConnKey → ConnectionTable W E
  remove_conn ct key = record ct { conns = λ k. if same_key k key then none else ct.conns k }

  unfoldable pub lookup : ConnectionTable W E → ConnKey → Option (TcpConn W E)
  lookup ct key = ct.conns key

  unfoldable pub register_listener :
      ConnectionTable W E → ℕ → Listener → ConnectionTable W E × Option TableError
  register_listener ct port l = elim (ct.listeners port) [
    | some _ ↦ (ct, some listener_exists)
    | none ↦ (record ct { listeners = λ p. if p == port then some l else ct.listeners p }, none)
  ]

  unfoldable pub remove_listener : ConnectionTable W E → ℕ → ConnectionTable W E
  remove_listener ct port = record ct {
    listeners = λ p. if p == port then none else ct.listeners p;
  }

  unfoldable pub lookup_or_listener : ConnectionTable W E → List ℕ → List ℕ → ℕ → ℕ → Found W E
  unfolding tuple_key
  lookup_or_listener ct src_ip dst_ip src_port dst_port =
      elim (ct.conns (tuple_key src_ip dst_ip src_port dst_port)) [
        | some conn ↦ found_conn conn
        | none ↦ elim (ct.listeners dst_port) [
          | some listener ↦ found_listener listener
          | none ↦ found_none nothing_found
        ]
      ]

  unfoldable pub is_used : ConnectionTable W E → List ConnKey → ℕ → Bool
  is_used ct keys p16 = is_listener (ct.listeners p16) || conn_exists_at p16 keys

  -- `none` says that the fuel is used up.
  unfoldable pub ephemeral_port :
      ℕ → List ConnKey → ConnectionTable W E → Option (ℕ × ConnectionTable W E)
  unfolding port_of counter_after is_used
  ephemeral_port zero keys ct = none
  ephemeral_port (suc fuel) keys ct =
      let port = port_of ct.ephemeral_port in
      let ct' = record ct { ephemeral_port = counter_after ct.ephemeral_port } in
      let next_round = ephemeral_port fuel keys ct' in
      if ltb 65535 port
      then next_round
      else if is_used ct keys (u16 port)
      then next_round
      else some (u16 port, ct')
