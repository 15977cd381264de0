-- ===== src/Server/Tests.antt =====
-- The two servers over the libraries as lists. A sample is its GPU and a number, an event a number.
use nemesis.Topology.Checker.{check_overflows}
use nemesis.Topology.Parser.{
  expect_number, parse_dim, constraints, parse_atom, conjunction_tail, parse_conjunction,
  alternatives, from_alternatives, parse_disjunction, finish, parse_tokens,
}
use nemesis.Topology.Lexer.{
  parse_u32, collect_digits, collect_alpha, nvl, constraint, dim, piece, lex_loop, lex,
}
use nemesis.Prelude.{
  false, ℕ, ◌<◌, true, Bool, List, [], ◌∷◌, ◌++◌, some, ok, String, codes, decimal, decimal-digits,
  decimal-ne-nil, value-decimal, ◌≡◌, refl, ap, All, arith, length, leb, get, parse_unsigned, value,
  false,
}
use nemesis.Topology.Lexer.Whole.{whole_std}
use nemesis.Topology.Printer.{render, Shown}
use nemesis.Topology.Solver.{placement as on_gpus}
use nemesis.Topology.Service.{parse, counts_overflow, answer}
use nemesis.Graph.Petgraph.Lists.{
  ListGraph, list_graph, list_graph-UnGraphLaws, list_graph-EdgeLaws, list_graph-CountLaws,
}
use nemesis.Graph.Cluster.{GpuNode, Link}
use nemesis.Telemetry.Bus.Lists.{ListBus, list_bus}
use nemesis.Simulator.Cluster.{SimConfig, default_config}
use nemesis.Server.{
  Server, Call, ingest_call, publish_call, snapshot_call, schedule_call, shrink_call, Answer,
  placement, serve, run, counts_overflow,
}
use nemesis.Server.Start.{port_of, start_substrate, start_simulator, argument}
use nemesis.Server.Safe.{samples_of, IsSound, run-IsSound, start_substrate-IsSound}
use nemesis.Server.Empty.{GpuFree, run-GpuFree}
use nemesis.Server.Placed.{tensor_parallel, first_job_placed}

abbrev Graph : Type 0
Graph = ListGraph GpuNode (Link ℕ)

abbrev Sample : Type 0
Sample = String × ℕ

abbrev source : Sample → String
source x = x.0

abbrev slots : 0 < 2
slots = omega arith

port_test : port_of (codes "nemesis" ∷ codes "--port" ∷ codes "6000" ∷ []) ≡ ok 6_000
unfolding port_of argument parse_unsigned value
port_test = refl

abbrev calls : List (Call Sample ℕ)
calls =
    ingest_call ("g0", 1)
    ∷ publish_call 7
    ∷ schedule_call (record { job_id = "j1"; topology_dsl = codes "TP2_NVL600" })
    ∷ shrink_call
        (record { communicator_id = codes "c1"; job_id = codes "j1"; exclude_ranks = 3 ∷ [] })
    ∷ snapshot_call 9
    ∷ []

abbrev fresh : Server Graph Sample (ListBus ℕ)
fresh = start_substrate list_graph list_bus source 2

text_calm :
    counts_overflow whole_std (record { job_id = "j1"; topology_dsl = codes "TP2_NVL600" }) ≡ false
unfolding counts_overflow check_overflows parse lex lex_loop piece dim constraint nvl collect_alpha
    collect_digits parse_u32 value parse_tokens finish parse_disjunction from_alternatives
    alternatives parse_conjunction conjunction_tail parse_atom constraints parse_dim expect_number
text_calm = refl

run-IsSound_example :
    (answers : List (Answer ℕ Sample ℕ)) × (s' : Server Graph Sample (ListBus ℕ)) × (run whole_std
        list_graph list_bus source 2 true fresh calls
      ≡ some (answers, s'))
    × (length answers ≡ length calls)
    × IsSound whole_std list_graph list_bus source 2 slots ([] ++ samples_of calls) s'
    × (s'.graph ≡ fresh.graph)
run-IsSound_example =
    run-IsSound whole_std list_graph list_bus source 2 slots true calls [] fresh
      (tt, (tt, (text_calm, (tt, (tt, tt)))))
      (start_substrate-IsSound whole_std list_graph list_bus source 2 slots)

run-GpuFree_example :
    (answers : List (Answer ℕ Sample ℕ)) × (s' : Server Graph Sample (ListBus ℕ)) × (run whole_std
        list_graph list_bus source 2 false fresh calls
      ≡ some (answers, s'))
    × (length answers ≡ length calls)
    × All GpuFree answers
run-GpuFree_example =
    run-GpuFree whole_std list_graph list_graph-UnGraphLaws list_bus source 2 calls slots

-- A job of four GPUs on the simulator's standard cluster of eight.
abbrev standard : SimConfig ℕ ℕ
standard = default_config (λ n. n) 1

shown : (n : ℕ) → Shown whole_std decimal n
shown n = (decimal-ne-nil n, decimal-digits n, ap (λ k. some k) (value-decimal n))

abbrev positive : ℕ → Bool
positive d = leb 1 d

first_job_placed_example :
    (server server' : Server Graph Sample (ListBus ℕ)) × (found : List String) × (start_simulator
        list_graph list_bus source 2 positive
        (λ d. true)
        (λ n. n)
        standard
      ≡ some (ok server))
    × (serve whole_std list_graph list_bus source 2 true server (
          schedule_call (record {
            job_id = "j1";
            topology_dsl = render whole_std decimal (tensor_parallel 4 300);
          }))
        ≡ some (placement (ok (answer (on_gpus found))), server'))
    × (length found ≡ 4)
    × (get "j1" server'.scheduler.job_reservations ≡ some found)
first_job_placed_example =
    first_job_placed whole_std list_graph list_graph-UnGraphLaws list_graph-CountLaws
      list_graph-EdgeLaws (λ c h. refl) decimal list_bus source 2 true positive (λ d. true) (λ n. n)
      standard "j1" 4 300 refl refl refl (2, refl) (omega arith) (omega arith) (omega arith)
      (shown 300) refl
