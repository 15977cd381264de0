-- ===== src/Simulator.antt =====
-- sim/crates/nemesis-sim: the simulator of a cluster around the services.
pub mod Scenario
pub mod Bandwidth
pub mod Cluster
pub mod Metrics
mod Tests
