-- ===== src/Topology/Service/Abstract.antt =====
-- The scheduler's state as a set and a map, whatever order they are kept in: a quotient, in which
-- what does not depend on the order is an equation.
use text.Mathlib.Text.{◌==◌ as str_eq}
use text.Mathlib.TextEquality.{eq_iff}
use mathlib.Core.Quot
use mathlib.Core.Quot.{Quot, Quot-set}
use nemesis.Prelude.{
  get, get-remove_key, remove_key, false, List, [], ◌∷◌, Option, none, some, String, ◌≡◌, refl, sym,
  ap, ◌∙◌, subst, Mem, Bool-cases, Option-cases, Result-cases, inl, inr, Result, ok, ap₂,
}
use nemesis.Topology.RustStd.{RustStd}
use nemesis.Topology.Checker.{type_check}
use nemesis.Topology.Solver.{solve}
use nemesis.Topology.Service.{
  JobSpec, ServiceState, Placement, DslError, remove_all, parse, release, schedule, is_empty,
}
use nemesis.Graph.Petgraph.{UnGraph}
use nemesis.Graph.Cluster.{GpuNode, Link, ClusterGraph}
use nemesis.Topology.Service.Held.{remove_all_keeps}
use nemesis.Topology.Service.Calls.{Call, schedule_call, release_call, run_calls}
use nemesis.Topology.Service.Release.{remove_all-parts, remove_key_fresh}
use nemesis.Topology.Service.Sets.{SameState, reserve-SameState, release-SameState}

module _ {F G : Type 0} (std : RustStd F) (lib : UnGraph GpuNode (Link F) G) where
  -- The answers to the calls of `schedule`, in order.
  unfoldable pub answers_of :
      ServiceState → List (Call G) → List (Result (Placement F) (DslError F))
  unfolding schedule release
  answers_of s [] = []
  answers_of s (schedule_call c job ∷ calls) =
      let (answer, s') = schedule std lib c s job in answer ∷ answers_of s' calls
  answers_of s (release_call job_id ∷ calls) = answers_of (release s job_id) calls

  schedule-SameState :
      (c : ClusterGraph G) (s t : ServiceState) (job : JobSpec)
      → SameState s t
      → ((schedule std lib c s job).0 ≡ (schedule std lib c t job).0)
        × SameState (schedule std lib c s job).1 (schedule std lib c t job).1
  unfolding schedule
  schedule-SameState c s t job same = elim (Result-cases (parse std job.topology_dsl)) [
    | inr (e, bad) ↦ rw (schedule, bad) (refl, same)
    | inl (spec, good) ↦ elim (Bool-cases (is_empty (type_check spec))) [
      | inl fine ↦
          let (answer, next) = reserve-SameState s t job.job_id (solve std lib c spec) same in
          rw (schedule, good, fine) (ap ok answer, next)
      | inr wrong ↦ rw (schedule, good, wrong) (refl, same)
    ]
  ]

  -- Two states of one set of reserved GPUs and one map of jobs, in whatever order they are kept,
  -- give the same answers to any calls of `schedule` and `release`, on whatever graphs, and end in
  -- states of one set and one map.
  pub answers_of-SameState :
      (calls : List (Call G)) (s t : ServiceState)
      → SameState s t
      → (answers_of s calls ≡ answers_of t calls)
        × SameState (run_calls std lib s calls) (run_calls std lib t calls)
  unfolding answers_of run_calls
  answers_of-SameState [] s t same = (refl, same)
  answers_of-SameState (schedule_call c job ∷ calls) s t same =
      let (answer, next) = schedule-SameState c s t job same in
      let (answers, last) =
        answers_of-SameState calls (schedule std lib c s job).1 (schedule std lib c t job).1 next in
      (ap₂ (λ a rest. a ∷ rest) answer answers, last)
  answers_of-SameState (release_call job_id ∷ calls) s t same =
      answers_of-SameState calls (release s job_id) (release t job_id)
        (release-SameState s t job_id same)

abbrev pub Scheduler : Type 0
Scheduler = Quot SameState

unfoldable pub release_job : String → Scheduler → Scheduler
unfolding release
release_job job_id =
    Quot.lift Quot-set (λ s. Quot.mk (release s job_id))
      (λ s t h. Quot.sound (release-SameState s t job_id h))

-- What a release leaves, whether or not the job held GPUs.
abbrev ids_of : Option (List String) → List String
ids_of none = []
ids_of (some ids) = ids

abbrev without : ServiceState → String → ServiceState
without s job_id = record {
  reserved = remove_all (ids_of (get job_id s.job_reservations)) s.reserved;
  job_reservations = remove_key job_id s.job_reservations;
}

SameState-refl : (s : ServiceState) → SameState s s
SameState-refl s = record { set = λ id. (λ m. m, λ m. m); jobs = λ k. refl }

SameState-sym : (s t : ServiceState) → SameState s t → SameState t s
SameState-sym s t h = record {
  set = λ id. ((h.set id).1, (h.set id).0);
  jobs = λ k. sym (h.jobs k);
}

SameState-trans : (s t u : ServiceState) → SameState s t → SameState t u → SameState s u
SameState-trans s t u h k = record {
  set = λ id. (λ m. (k.set id).0 ((h.set id).0 m), λ m. (h.set id).1 ((k.set id).1 m));
  jobs = λ j. h.jobs j ∙ k.jobs j;
}

release-without :
    (s : ServiceState) (job_id : String) → SameState (release s job_id) (without s job_id)
unfolding release
release-without s job_id = elim (Option-cases (get job_id s.job_reservations)) [
  | inl e ↦
      rw (release, e, remove_key_fresh job_id s.job_reservations e)
        (record {
          set = λ id. (
            λ m. remove_all_keeps [] s.reserved id (λ k. k) m,
            λ m. (remove_all-parts [] s.reserved id m).1,
          );
          jobs = λ k. refl;
        })
  | inr (ids, e) ↦ rw (release, e) (SameState-refl _)
]

remove_key_comm :
    (a b : String) (m : List (String × List String))
    → remove_key a (remove_key b m) ≡ remove_key b (remove_key a m)
remove_key_comm a b [] = refl
remove_key_comm a b ((j, v) ∷ m) = elim (Bool-cases (str_eq j a)) [
  | inl e ↦ elim (Bool-cases (str_eq j b)) [
    | inl e' ↦ rw (e, e') (remove_key_comm a b m)
    | inr e' ↦ rw (e, e', e) (remove_key_comm a b m)
  ]
  | inr e ↦ elim (Bool-cases (str_eq j b)) [
    | inl e' ↦ rw (e, e') (remove_key_comm a b m)
    | inr e' ↦ rw (e, e', e) (ap (λ l. (j, v) ∷ l) (remove_key_comm a b m))
  ]
]

remove_all_comm :
    (xs ys set : List String) (id : String)
    → Mem id (remove_all xs (remove_all ys set))
    → Mem id (remove_all ys (remove_all xs set))
remove_all_comm xs ys set id m =
    let (out, m') = remove_all-parts xs (remove_all ys set) id m in
    let (out', old) = remove_all-parts ys set id m' in
    remove_all_keeps ys (remove_all xs set) id out' (remove_all_keeps xs set id out old)

flipped : (a b : String) → str_eq a b ≡ false → str_eq b a ≡ false
flipped a b apart = elim (Bool-cases (str_eq b a)) [
  | inl e ↦ cc ((eq_iff a b).1 (sym ((eq_iff b a).0 e)))
  | inr e ↦ e
]

without_comm :
    (s : ServiceState) (a b : String)
    → str_eq a b ≡ false
    → SameState (without (without s b) a) (without (without s a) b)
without_comm s a b apart =
    let m = s.job_reservations in
    let other : get a (remove_key b m) ≡ get a m = get-remove_key b a m (flipped a b apart) in
    let other' : get b (remove_key a m) ≡ get b m = get-remove_key a b m apart in
    let xs = ids_of (get a m) in
    let ys = ids_of (get b m) in
    record {
      set =
          rw (other, other')
            λ id. (remove_all_comm xs ys s.reserved id, remove_all_comm ys xs s.reserved id);
      jobs = λ k. ap (get k) (remove_key_comm a b m);
    }

twice :
    (s : ServiceState) (a b : String)
    → SameState (release (release s b) a) (without (without s b) a)
twice s a b =
    SameState-trans (release (release s b) a) (release (without s b) a) (without (without s b) a)
      (release-SameState (release s b) (without s b) a (release-without s b))
      (release-without (without s b) a)

release-SameState_comm :
    (s : ServiceState) (a b : String)
    → SameState (release (release s b) a) (release (release s a) b)
release-SameState_comm s a b = elim (Bool-cases (str_eq a b)) [
  | inl same ↦
      let at = (eq_iff a b).0 same in
      subst (λ c. SameState (release (release s c) a) (release (release s a) c)) at
        (SameState-refl (release (release s a) a))
  | inr apart ↦
      let both = twice s a b in
      let both' = SameState-sym _ _ (twice s b a) in
      SameState-trans _ _ _ both (SameState-trans _ _ _ (without_comm s a b apart) both')
]

-- The order in which jobs are released does not matter.
pub release_job_comm :
    (a b : String) (q : Scheduler)
    → release_job a (release_job b q) ≡ release_job b (release_job a q)
unfolding release_job
release_job_comm a b = Quot.ind (λ q. Quot-set _ _) (λ s. Quot.sound (release-SameState_comm s a b))
