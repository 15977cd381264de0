-- ===== src/Nccl.antt =====
-- substrate/crates/nemesis-nccl: the communicator back ends behind the healer service.
pub mod Backend
pub mod Sim
pub mod Healer
pub mod Contract
pub mod Real
