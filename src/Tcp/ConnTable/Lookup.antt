-- ===== src/Tcp/ConnTable/Lookup.antt =====
-- What the table finds behind its updates.
use gonet.Prelude.{
  ℕ, ◌≡◌, refl, sym, ◌≢◌, ◌⊎◌, inl, inr, Bool, true, false, ◌&&◌, none, some, List, [], ◌∷◌, ◌==◌,
  ==_iff, eq→==, Bool-cases, Option-cases, length, copy_same,
}
use gonet.Prelude.Net.{to4, same_bytes, same_bytes-eq, same_bytes_refl}
use gonet.Tcp.Conn.{ConnKey, TcpConn}
use gonet.Tcp.ConnTable.{
  ConnectionTable, found_conn, conn_exists, same_key, key_ip, tuple_key, register_conn, remove_conn,
  lookup, lookup_or_listener,
}

and_split : (a b : Bool) → (a && b) ≡ true → (a ≡ true) × (b ≡ true)
and_split true b h = (refl, h)
and_split false b h = absurd (cc h)

pub same_key_refl : (k : ConnKey) → same_key k k ≡ true
unfolding same_key
same_key_refl k = rw (
  same_bytes_refl k.src_ip,
  eq→== k.src_port k.src_port refl,
  same_bytes_refl k.dst_ip,
  eq→== k.dst_port k.dst_port refl,
)

pub same_key-eq : (a b : ConnKey) → same_key a b ≡ true → a ≡ b
unfolding same_key
same_key-eq a b h =
    let (src, h1) =
      and_split (same_bytes a.src_ip b.src_ip)
        (a.src_port == b.src_port && (same_bytes a.dst_ip b.dst_ip && a.dst_port == b.dst_port))
        h in
    let (src_port, h2) =
      and_split (a.src_port == b.src_port)
        (same_bytes a.dst_ip b.dst_ip && a.dst_port == b.dst_port) h1 in
    let (dst, dst_port) = and_split (same_bytes a.dst_ip b.dst_ip) (a.dst_port == b.dst_port) h2 in
    λ i. record {
      src_ip = same_bytes-eq a.src_ip b.src_ip src i;
      src_port = (==_iff a.src_port b.src_port).0 src_port i;
      dst_ip = same_bytes-eq a.dst_ip b.dst_ip dst i;
      dst_port = (==_iff a.dst_port b.dst_port).0 dst_port i;
    }

same_key-ne : (a b : ConnKey) → a ≢ b → same_key a b ≡ false
same_key-ne a b ne = elim (Bool-cases (same_key a b)) [
  | inl same ↦ absurd (ne (same_key-eq a b same))
  | inr other ↦ other
]

module _ {W E : Type 0} where
  -- `Register` of a connection whose key is free returns no error; then `Lookup` finds the connection
  -- under its key and under every other key what it found before, and `Remove` of the key makes it
  -- free again. With the key taken, `Register` returns ErrConnExists and changes nothing.
  pub lookup-register_conn :
      (ct : ConnectionTable W E) (conn : TcpConn W E)
      → ((lookup ct conn.key ≡ none)
          × ((register_conn ct conn).1 ≡ none)
          × (lookup (register_conn ct conn).0 conn.key ≡ some conn)
          × ((key : ConnKey)
              → key ≢ conn.key
              → lookup (register_conn ct conn).0 key ≡ lookup ct key)
          × (lookup (remove_conn (register_conn ct conn).0 conn.key) conn.key ≡ none))
        ⊎ (lookup ct conn.key ≢ none) × (register_conn ct conn ≡ (ct, some conn_exists))
  unfolding lookup register_conn remove_conn
  lookup-register_conn ct conn = elim (Option-cases (ct.conns conn.key)) [
    | inl free ↦ inl (
      free,
      rw (register_conn, free),
      rw (register_conn, free, same_key_refl conn.key),
      λ key other. rw (register_conn, free, same_key-ne key conn.key other),
      rw (same_key_refl conn.key),
    )
    | inr (old, taken) ↦ inr ((λ e. cc (taken, e)), rw (register_conn, taken))
  ]

  -- `LookupOrListener` finds a registered connection by its addresses in 4 or in 16 bytes, before any
  -- listener.
  lookup_or_listener-conn :
      (ct : ConnectionTable W E) (conn : TcpConn W E) (src dst : List ℕ)
      → lookup ct conn.key ≡ some conn
      → to4 src ≡ some conn.key.src_ip
      → to4 dst ≡ some conn.key.dst_ip
      → length conn.key.src_ip ≡ 4
      → length conn.key.dst_ip ≡ 4
      → lookup_or_listener ct src dst conn.key.src_port conn.key.dst_port ≡ found_conn conn
  unfolding lookup_or_listener lookup key_ip tuple_key
  lookup_or_listener-conn ct conn src dst here s d ls ld = rw (
    lookup_or_listener,
    tuple_key,
    key_ip,
    s,
    d,
    copy_same (0 ∷ 0 ∷ 0 ∷ 0 ∷ []) conn.key.src_ip (sym ls),
    copy_same (0 ∷ 0 ∷ 0 ∷ 0 ∷ []) conn.key.dst_ip (sym ld),
    here,
  )
