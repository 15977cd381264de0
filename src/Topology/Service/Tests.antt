-- ===== src/Topology/Service/Tests.antt =====
-- Calls of the scheduler service on a small cluster.
use nemesis.Prelude.{
  codes, value, get, has_id, ℕ, true, List, [], ◌∷◌, ◌≡◌, refl, some, none, Mem, All, inl, ok,
  String, inr,
}
use nemesis.Topology.Syntax.{TopologySpec}
use nemesis.Topology.Lexer.{
  collect_digits, parse_u32, collect_alpha, nvl, constraint, dim, piece, lex_loop, lex,
}
use nemesis.Topology.Lexer.Whole.{whole_std}
use nemesis.Topology.Parser.{
  expect_number, parse_dim, constraints, parse_atom, conjunction_tail, parse_conjunction,
  alternatives, from_alternatives, parse_disjunction, finish, parse_tokens,
}
use nemesis.Topology.Checker.{bad_degree, has_nvl, check_atom, check, type_check}
use nemesis.Topology.Checker.Counts.{wrapping}
use nemesis.Topology.Checker.Sound.{WellTyped}
use nemesis.Topology.Solver.{
  PlacementResult, empty, placement, min_bandwidth, solve_tp, solve_atom, solve,
}
use nemesis.Topology.Solver.Satisfies.{Satisfies}
use nemesis.Topology.Service.{
  JobSpec, ServiceState, initial, Placement, solver_reason, refused_by, already_reserved, parse,
  reserve, release, schedule,
}
use nemesis.Topology.Service.Held.{IsValid, IsValid-initial}
use nemesis.Topology.Service.Calls.{
  Call, schedule_call, release_call, run_calls, reservations-IsValid, reserve-IsValid,
}
use nemesis.Topology.Service.Release.{rescheduled_job_leaks}
use mathlib.Core.Quot
use nemesis.Topology.Service.Exact.{IsExact, reservations-IsExact}
use nemesis.Topology.Service.Sets.{SameState}
use nemesis.Topology.Service.Abstract.{Scheduler, release_job, release_job_comm}
use nemesis.Topology.Service.Refused.{schedule_twice}
use nemesis.Topology.Service.Reuse.{schedule-release}
use nemesis.Topology.Service.Pipeline.{schedule_sound}
use nemesis.Graph.Petgraph.Lists.{ListGraph, list_graph, list_graph-UnGraphLaws}
use nemesis.Graph.Cluster.{GpuNode, Link, candidates}
use nemesis.Graph.Clique.{enter, search_loop, clique_search, has_nvlink_edge, find_nvlink_clique}
use nemesis.Graph.Sample.{pair}

abbrev job : JobSpec
job = record { job_id = "j1"; topology_dsl = codes "TP2_NVL600" }

abbrev both : Placement ℕ
both = record { placed = true; gpu_ids = "g0" ∷ "g1" ∷ []; rejection_reason = solver_reason empty }

job_placed : (schedule whole_std list_graph pair initial job).0 ≡ ok both
unfolding schedule parse lex lex_loop piece dim constraint nvl collect_alpha collect_digits
    parse_u32 value parse_tokens finish parse_disjunction from_alternatives alternatives
    parse_conjunction conjunction_tail parse_atom constraints parse_dim expect_number type_check
    check check_atom has_nvl bad_degree solve solve_atom solve_tp min_bandwidth find_nvlink_clique
    candidates clique_search enter search_loop has_nvlink_edge reserve has_id
job_placed = refl

schedule_sound_example :
    (spec : TopologySpec ℕ) × (parse whole_std job.topology_dsl ≡ ok spec)
    × WellTyped wrapping spec
    × Satisfies whole_std list_graph list_graph-UnGraphLaws pair spec both.gpu_ids
    × All (λ id. ¬ Mem id initial.reserved) both.gpu_ids
schedule_sound_example =
    schedule_sound whole_std list_graph list_graph-UnGraphLaws pair initial job both job_placed refl

abbrev calls : List (Call (ListGraph GpuNode (Link ℕ)))
calls = schedule_call pair job ∷ schedule_call pair job ∷ release_call "j1" ∷ []

reservations-IsValid_example : IsValid (run_calls whole_std list_graph initial calls)
reservations-IsValid_example =
    reservations-IsValid whole_std list_graph initial calls IsValid-initial

abbrev on_g0 : PlacementResult ℕ
on_g0 = placement ("g0" ∷ [])

abbrev on_g1 : PlacementResult ℕ
on_g1 = placement ("g1" ∷ [])

abbrev holding : ServiceState
holding = record { reserved = "g0" ∷ []; job_reservations = ("j1", "g0" ∷ []) ∷ [] }

placed_first : (reserve initial "j1" on_g0).0.placed ≡ true
unfolding reserve has_id
placed_first = refl

placed_again : (reserve holding "j1" on_g1).0.placed ≡ true
unfolding reserve has_id
placed_again = refl

nothing_held : get "j1" initial.job_reservations ≡ none
unfolding get
nothing_held = refl

g0_held : get "j1" holding.job_reservations ≡ some ("g0" ∷ [])
unfolding get
g0_held = refl

holding-IsValid : IsValid holding
unfolding reserve has_id
holding-IsValid = reserve-IsValid initial "j1" on_g0 IsValid-initial

rescheduled_job_leaks_example :
    let s' = release (reserve holding "j1" on_g1).1 "j1" in
    Mem "g0" s'.reserved × All (λ e. ¬ Mem "g0" e.1) s'.job_reservations
rescheduled_job_leaks_example =
    rescheduled_job_leaks holding "j1" on_g1 ("g0" ∷ []) "g0" holding-IsValid g0_held (inl refl)
      placed_again

schedule-release_example :
    (schedule whole_std list_graph pair
      (release (schedule whole_std list_graph pair initial job).1 "j1")
      (record job { job_id = "j2" })).0
    ≡ ok both
schedule-release_example =
    schedule-release whole_std list_graph pair initial job "j2" both nothing_held job_placed refl

abbrev once : List (Call (ListGraph GpuNode (Link ℕ)))
once = schedule_call pair job ∷ release_call "j1" ∷ []

reservations-IsExact_example : IsExact (run_calls whole_std list_graph initial once)
reservations-IsExact_example =
    reservations-IsExact whole_std list_graph initial once IsValid-initial (λ id m. absurd m)
      (nothing_held, tt)

-- One state in two orders.
abbrev in_order : ServiceState
in_order = record {
  reserved = "g0" ∷ "g1" ∷ [];
  job_reservations = ("j1", "g0" ∷ []) ∷ ("j2", "g1" ∷ []) ∷ [];
}

abbrev reversed : ServiceState
reversed = record { reserved = "g1" ∷ "g0" ∷ []; job_reservations = in_order.job_reservations }

swapped : {a b id : String} → Mem id (a ∷ b ∷ []) → Mem id (b ∷ a ∷ [])
swapped (inl e) = inr (inl e)
swapped (inr (inl e)) = inl e
swapped (inr (inr m)) = elim m [ ]

one_state : SameState in_order reversed
one_state = record { set = λ id. (swapped, swapped); jobs = λ k. refl }

abbrev both_jobs : Scheduler
both_jobs = Quot.mk in_order

release_job_comm_example :
    release_job "j1" (release_job "j2" both_jobs) ≡ release_job "j2" (release_job "j1" both_jobs)
release_job_comm_example = release_job_comm "j1" "j2" both_jobs

schedule_twice_example :
    let s' = (schedule whole_std list_graph pair initial job).1 in
    schedule whole_std list_graph pair s' (record job { job_id = "j2" })
    ≡ (ok (refused_by already_reserved), s')
schedule_twice_example =
    schedule_twice whole_std list_graph pair initial job "j2" both job_placed refl (λ e. cc)
