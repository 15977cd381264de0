-- ===== src/Telemetry.antt =====
-- substrate/crates/nemesis-telemetry: the per-GPU rings and the store of them.
pub mod Ring
pub mod Store
pub mod Service
pub mod Bus
