-- ===== src/Lib.antt =====
-- Verification of the Rust core of nemesis, a control plane for GPU clusters: it keeps telemetry,
-- places jobs on a graph of the cluster by a small language of topology specifications, and
-- shrinks or grows NCCL communicators when GPUs fail.
--
-- The parts, with the files that model them (paths of the source from the repository's root):
--
-- Telemetry/Ring: `MetricRing` of substrate/crates/nemesis-telemetry/src/ring.rs, the sliding
-- window of samples of one GPU. `push` and `window` are the methods; a `none` stands for the
-- panic of an index out of range. The number of slots is a parameter, 36,000 in the program.
--
-- Telemetry/Store: the rings by GPU id, `TelemetryStore` of store.rs beside it. `ingest` and
-- `gpu_window` are its methods `ingest` and `window`.
--
-- Telemetry/Bus: its bus of events, with `publish_event` and `subscribe_events` of service.rs: a
-- receiver is polled as often as a number or a sequence of steps says. Order and Window say what a
-- subscriber gets, Lists is a channel that keeps the laws.
--
-- Telemetry/Service: the calls of `TelemetryServiceImpl` of service.rs beside it on the store and
-- the graph; a stream is the list of its items.
--
-- Topology/Syntax, Lexer, Parser, Checker: the specification language of
-- substrate/crates/nemesis-topology/src (lexer.rs, parser.rs, checker.rs): text to tokens, tokens
-- to a `TopologySpec`, and the type rules. A loop takes fuel, the number of characters or tokens
-- that are left, and each round takes one away at least. Messages are constructors with the
-- values that the code puts into the text.
--
-- Topology/Printer prints a specification, which the code does not; reading the print back tests
-- the lexer and the parser together.
--
-- Topology/Solver: `TopologySolver::solve` of solver.rs, which places a specification on the
-- cluster graph that it reads. Limits says which limits it takes from the constraints, Satisfies what
-- a placement is in terms of the graph's edges, Numa what becomes of `_NUMA`.
--
-- Topology/Service: `SchedulerServiceImpl` of service.rs, with the reserved GPUs and the GPUs of
-- each job as its state. Each call is one step, since it holds both locks to its end; the graph
-- of the moment is an argument. Held has the invariant, Calls the sequences of calls, Release,
-- Reuse and Exact what a release gives back, and Pipeline follows a request from its text to its
-- GPUs. The set and the map are lists; Sets and Abstract say that their order does not matter.
--
-- Graph/Cluster, Clique, IbPath: `ClusterGraph` of substrate/crates/nemesis-graph/src/graph.rs,
-- its operations and its two searches. The clique search recurses on the candidates; the path
-- search takes the number of healthy nodes as fuel, since a path never visits a node twice.
--
-- Nccl/Backend, Sim: the trait as a record of operations, with its metrics, and the simulated back
-- end of substrate/crates/nemesis-nccl/src (backend.rs, sim.rs). Its mutex is released between the
-- check, the sampling and the subtraction of a shrink; Nccl/Sim/Race takes them as steps.
--
-- Nccl/Real: the back end of real.rs beside it, which shrinks a live communicator. What the hook in
-- the training process, the NCCL library and the clock answer is an argument of a call, and a call
-- returns what it did to them. Phases has the order of a call, Paused what an error leaves behind,
-- Handle the communicators that are split, Race two concurrent calls as steps.
--
-- Nccl/Contract: what backend.rs promises of a back end, as laws over the record; BackEnds has both
-- back ends as implementations, Shrunk the playbooks over any of them.
--
-- Nccl/Healer: `HealerServiceImpl` of service.rs beside it over any back end of the trait: its jobs,
-- and below Playbook its playbooks: Templates and Ranks read a step's parameters, Requests and
-- Excluded say what the steps ask of the back end, Listing is `list_playbooks`. The directory and
-- the parser of YAML are arguments, and a hash map is a list of its entries in the order of its
-- iteration.
--
-- Simulator: sim/crates/nemesis-sim/src: Cluster builds the graph of a configuration and makes its
-- samples (cluster.rs, config.rs), Metrics is the task of main.rs that puts them into the store, and
-- Scenario the times of scenario.rs. The operations on floats are arguments.
--
-- Simulator/Bandwidth: bandwidth.rs, over any type of `f64` that keeps the laws of Faster; Exact has
-- whole numbers in its place.
--
-- Server: the servers of substrate/crates/nemesis-substrate/src/main.rs and of the simulator: the
-- three services over one graph, one store, one bus and one back end, as a function `serve` of a
-- call. An argument says whether the build has overflow checks, by which a product of degrees can
-- panic; elsewhere products wrap around. The calls come one after another; what happens inside one that awaits is in Race. Start has
-- the arguments and the states that they start from, Safe, Empty and Placed what follows for calls
-- of all services.
--
-- Prelude: results, tests, lists, maps and predicates that the parts share, and texts as lists of
-- code points with what Rust's library does with them.
--
-- Outside the repository, and so parameters: the graphs of petgraph (Graph/Petgraph, a record of
-- operations, with the documented laws that the theorems use; Graph/Petgraph/Lists has an
-- instance; adding a node or an edge has laws only where there is room for its index, a `u32`), the
-- broadcast channel of tokio (Telemetry/Bus), what the code takes of Rust's library
-- on `f32` and Unicode (Topology/RustStd), and `f64`. Numbers of w bits are natural numbers with the
-- wrap-around written out where the code can reach it.
--
-- Not modelled: sockets, logging and the shutdown of the binaries, the time that a simulated call
-- or the simulator's task sleeps, the generated protobuf code, and the Python agents.
pub mod Prelude
pub mod Graph
pub mod Nccl
pub mod Telemetry
pub mod Topology
pub mod Server
pub mod Simulator
