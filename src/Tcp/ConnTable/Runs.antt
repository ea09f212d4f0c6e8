-- ===== src/Tcp/ConnTable/Runs.antt =====
-- The connection table at a concrete connection.
use gonet.Prelude.{ℕ, ◌+◌, ◌≡◌, ◌≢◌, ◌⊎◌, none, some, [], ◌∷◌}
use gonet.Tcp.Conn.{ConnKey, TcpConn, new_tcp_conn}
use gonet.Tcp.ConnTable.{
  ConnectionTable, conn_exists, new_connection_table, register_conn, remove_conn, lookup,
}
use gonet.Tcp.ConnTable.Lookup.{lookup-register_conn}

abbrev key : ConnKey
key = record {
  src_ip = 10 ∷ 0 ∷ 0 ∷ 1 ∷ [];
  src_port = 50000;
  dst_ip = 10 ∷ 0 ∷ 0 ∷ 2 ∷ [];
  dst_port = 80;
}

abbrev conn : TcpConn ℕ ℕ
conn = new_tcp_conn key (λ segment n. (n + 1, none))

abbrev empty : ConnectionTable ℕ ℕ
empty = new_connection_table

abbrev one : ConnectionTable ℕ ℕ
one = (register_conn empty conn).0

lookup-register_conn_example :
    ((lookup empty conn.key ≡ none)
      × ((register_conn empty conn).1 ≡ none)
      × (lookup (register_conn empty conn).0 conn.key ≡ some conn)
      × ((k : ConnKey) → k ≢ conn.key → lookup (register_conn empty conn).0 k ≡ lookup empty k)
      × (lookup (remove_conn (register_conn empty conn).0 conn.key) conn.key ≡ none))
    ⊎ (lookup empty conn.key ≢ none) × (register_conn empty conn ≡ (empty, some conn_exists))
lookup-register_conn_example = lookup-register_conn empty conn
