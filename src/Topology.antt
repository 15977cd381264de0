-- ===== src/Topology.antt =====
-- substrate/crates/nemesis-topology: the topology language and the placement of jobs.
pub mod RustStd
pub mod Syntax
pub mod Lexer
pub mod Parser
pub mod Printer
pub mod Checker
pub mod Solver
pub mod Service
