-- ===== src/Tun.antt =====
-- internal/tun: the TUN device, the raw socket and the choice between them, over the calls of the
-- system, and the read loop.
pub mod System
pub mod Device
pub mod Loop
pub mod Raw
pub mod Factory
pub mod Pipeline
mod PipelineRuns
