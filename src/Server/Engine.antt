-- ===== src/Server/Engine.antt =====
-- The external engine (server/src/engine.rs): the ports of its processes, its configuration, and the
-- probes through it.
pub mod Ports
pub mod Config
pub mod Probe
pub mod Batches
