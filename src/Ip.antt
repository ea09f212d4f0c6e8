-- ===== src/Ip.antt =====
-- internal/ip: IPv4 headers, checksums, packet building and dispatch.
pub mod Errors
pub mod Header
pub mod Checksum
pub mod Builder
pub mod Dispatcher
pub mod Summed
pub mod Fragment
pub mod Reassembly
pub mod Parser
pub mod EndToEnd
mod EndToEndRuns
