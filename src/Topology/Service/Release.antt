-- ===== src/Topology/Service/Release.antt =====
-- What a release gives back, and what it does not.
use text.Mathlib.Text.{◌==◌ as str_eq}
use text.Mathlib.TextEquality.{eq_iff}
use nemesis.Prelude.{
  Sub-remove_key, get, has_id, has_id_sound, remove_key, true, List, [], ◌∷◌, none, some, String,
  ◌≡◌, refl, ap, Mem, All, All-Sub, All-map, Bool-cases, inl, inr, ◌⊎◌, ◌↔◌, ◌∙◌,
}
use nemesis.Topology.Solver.{PlacementResult}
use nemesis.Topology.Service.{ServiceState, insert_all, remove_all, reserve, release}
use nemesis.Topology.Service.Held.{
  IsValid, Within, Apart, Entry, insert_all_old, remove_all_keeps, remove_key-Apart, All-get,
}
use nemesis.Topology.Service.Calls.{taken, fresh_ids, reserve-placed}

pub insert_all-cases :
    (ids set : List String) (id : String) → Mem id (insert_all ids set) → Mem id ids ⊎ Mem id set
insert_all-cases [] set id m = inr m
insert_all-cases (i ∷ ids) set id m = elim (Bool-cases (has_id set i)) [
  | inl e ↦ elim (insert_all-cases ids set id (rw e at m)) [ inl k ↦ inl (inr k) | inr k ↦ inr k ]
  | inr e ↦ elim (insert_all-cases ids (i ∷ set) id (rw e at m)) [
    | inl k ↦ inl (inr k)
    | inr (inl at) ↦ inl (inl at)
    | inr (inr k) ↦ inr k
  ]
]

pub remove_all-parts :
    (ids set : List String) (id : String)
    → Mem id (remove_all ids set)
    → (¬ Mem id ids) × Mem id set
remove_all-parts ids [] id m = absurd m
remove_all-parts ids (t ∷ set) id m = elim (Bool-cases (has_id ids t)) [
  | inl e ↦ let (out, k) = remove_all-parts ids set id (rw e at m) in (out, inr k)
  | inr e ↦
      let m' : Mem id (t ∷ remove_all ids set) = rw e at m in
      elim m' [
        | inl at ↦ (rw at (has_id_sound ids t e), inl at)
        | inr k ↦ let (out, k') = remove_all-parts ids set id k in (out, inr k')
      ]
]

pub remove_key_fresh : (k : String) (m : List Entry) → get k m ≡ none → remove_key k m ≡ m
unfolding get
remove_key_fresh k [] h = refl
remove_key_fresh k ((j, v) ∷ m) h = elim (Bool-cases (str_eq j k)) [
  | inl e ↦ cc (rw e at h)
  | inr e ↦ rw e (ap (λ l. (j, v) ∷ l) (remove_key_fresh k m (rw e at h)))
]

module _ {F : Type 0} (s : ServiceState) (job_id : String) (r : PlacementResult F) where
  abbrev given_back : ServiceState
  given_back = record {
    reserved = remove_all r.gpu_ids (insert_all r.gpu_ids s.reserved);
    job_reservations = remove_key job_id (remove_key job_id s.job_reservations);
  }

  pub reserve-taken :
      (reserve s job_id r).0.placed ≡ true → (reserve s job_id r).1 ≡ taken s job_id r
  unfolding reserve
  reserve-taken h = let (p, free) = reserve-placed s job_id r h in rw (reserve, p, free)

  release-taken : release (taken s job_id r) job_id ≡ given_back
  unfolding release get
  release-taken =
      let self : str_eq job_id job_id ≡ true = (eq_iff job_id job_id).1 refl in
      let left : remove_key job_id (taken s job_id r).job_reservations
          ≡ given_back.job_reservations =
        rw self in
      rw (release, get, self)
        (ap {A = List Entry} (λ m. record given_back { job_reservations = m }) left)

  -- The state behind a placement that is answered and the release of its job.
  after : (reserve s job_id r).0.placed ≡ true → release (reserve s job_id r).1 job_id ≡ given_back
  after h = ap (λ t. release t job_id) (reserve-taken h) ∙ release-taken

  -- A job that held nothing, is placed and then released leaves the reservations as they were:
  -- the same jobs hold the same GPUs, and the same GPUs are reserved.
  pub release-reserve :
      (id : String)
      → get job_id s.job_reservations ≡ none
      → (reserve s job_id r).0.placed ≡ true
      → let s' = release (reserve s job_id r).1 job_id in
        (s'.job_reservations ≡ s.job_reservations) × (Mem id s'.reserved ↔ Mem id s.reserved)
  release-reserve id fresh h =
      let (p, free) = reserve-placed s job_id r h in
      let same = remove_key_fresh job_id s.job_reservations fresh in
      rw (after h) (
        ap (remove_key job_id) same ∙ same,
        (
          λ m.
              let (out, k) = remove_all-parts r.gpu_ids _ id m in
              elim (insert_all-cases r.gpu_ids s.reserved id k) [
                | inl new ↦ absurd (out new)
                | inr old ↦ old
              ],
          λ m.
              remove_all_keeps r.gpu_ids _ id (λ new. fresh_ids s job_id r free id new m)
                (insert_all_old r.gpu_ids s.reserved id m),
        ),
      )

  -- In a valid state, a job that already holds GPUs and is placed again loses its old GPUs for
  -- good: when the job is released they stay reserved, and no job holds them.
  pub rescheduled_job_leaks :
      (old : List String) (id : String)
      → IsValid s
      → get job_id s.job_reservations ≡ some old
      → Mem id old
      → (reserve s job_id r).0.placed ≡ true
      → let s' = release (reserve s job_id r).1 job_id in
        Mem id s'.reserved × All (λ e. ¬ Mem id e.1) s'.job_reservations
  rescheduled_job_leaks old id v found m h =
      let (p, free) = reserve-placed s job_id r h in
      let reserved =
        All-get (λ ids. Within ids s.reserved) job_id s.job_reservations v.held found id m in
      let rest = remove_key job_id s.job_reservations in
      let apart : All (λ e. Apart old e.1) rest =
        remove_key-Apart job_id s.job_reservations v.apart found in
      rw (after h) (
        remove_all_keeps r.gpu_ids _ id (λ new. fresh_ids s job_id r free id new reserved)
            (insert_all_old r.gpu_ids s.reserved id reserved),
        All-Sub (λ e. ¬ Mem id e.1) (Sub-remove_key job_id rest)
            (All-map (λ e. Apart old e.1) (λ e. ¬ Mem id e.1) rest (λ e a k. a id m k) apart),
      )
