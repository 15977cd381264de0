-- ===== src/Graph.antt =====
-- substrate/crates/nemesis-graph/src/graph.rs: the cluster graph over petgraph's `UnGraph`.
pub mod Petgraph
pub mod Cluster
pub mod Clique
pub mod IbPath
pub mod Sample
mod Tests
