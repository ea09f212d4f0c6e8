-- ===== src/Tcp.antt =====
-- internal/tcp: the state machine, the header with its options, checksums, the connection table.
pub mod State
pub mod Header
pub mod Checksum
pub mod Conn
pub mod ConnTable
pub mod Handshake
