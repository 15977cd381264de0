-- ===== src/Topology/Service/Sets.antt =====
-- The scheduler's set and map forget the order of what they hold: two lists that stand for one set,
-- or for one map, make no difference to any call.
use text.Mathlib.Text.{◌==◌ as str_eq}
use text.Mathlib.TextEquality.{eq_iff}
use nemesis.Prelude.{
  any, has_id, has_id_sound, has_id_complete, get, get-remove_key, get-insert_key, insert_key,
  remove_key, List, [], ◌∷◌, none, some, String, ◌≡◌, ◌↔◌, refl, sym, ap, ◌∙◌, subst, Mem,
  Bool-cases, Option-cases, inl, inr, if◌then◌else◌,
}
use nemesis.Topology.Solver.{PlacementResult}
use nemesis.Topology.Service.{ServiceState, insert_all, remove_all, reserve, release}
use nemesis.Topology.Service.Held.{Entry, insert_all_old, insert_all_new, remove_all_keeps}
use nemesis.Topology.Service.Calls.{taken}
use nemesis.Topology.Service.Release.{insert_all-cases, remove_all-parts}

abbrev pub SameSet : List String → List String → Type 0
SameSet xs ys = (id : String) → Mem id xs ↔ Mem id ys

abbrev pub SameMap : List Entry → List Entry → Type 0
SameMap m n = (k : String) → get k m ≡ get k n

-- Two states that hold one set and one map.
pub record SameState (s t : ServiceState) : Type 0 where
  pub set : SameSet s.reserved t.reserved
  pub jobs : SameMap s.job_reservations t.job_reservations

has_id-SameSet : (xs ys : List String) (id : String) → SameSet xs ys → has_id xs id ≡ has_id ys id
has_id-SameSet xs ys id same = elim (Bool-cases (has_id xs id)) [
  | inl e ↦ elim (Bool-cases (has_id ys id)) [
    | inl e' ↦ e ∙ sym e'
    | inr e' ↦ absurd (has_id_sound ys id e' ((same id).0 (has_id_complete xs id e)))
  ]
  | inr e ↦ elim (Bool-cases (has_id ys id)) [
    | inl e' ↦ absurd (has_id_sound xs id e ((same id).1 (has_id_complete ys id e')))
    | inr e' ↦ e ∙ sym e'
  ]
]

any-SameSet : (xs ys ids : List String) → SameSet xs ys → any (has_id xs) ids ≡ any (has_id ys) ids
any-SameSet xs ys [] same = refl
any-SameSet xs ys (id ∷ ids) same =
    rw (has_id-SameSet xs ys id same, any-SameSet xs ys ids same) refl

insert_all-Within :
    (ids xs ys : List String) (id : String)
    → (Mem id xs → Mem id ys)
    → Mem id (insert_all ids xs)
    → Mem id (insert_all ids ys)
insert_all-Within ids xs ys id f m = elim (insert_all-cases ids xs id m) [
  | inl new ↦ insert_all_new ids ys id new
  | inr old ↦ insert_all_old ids ys id (f old)
]

remove_all-Within :
    (ids xs ys : List String) (id : String)
    → (Mem id xs → Mem id ys)
    → Mem id (remove_all ids xs)
    → Mem id (remove_all ids ys)
remove_all-Within ids xs ys id f m =
    let (out, old) = remove_all-parts ids xs id m in remove_all_keeps ids ys id out (f old)

get-remove_key_self : (k : String) (m : List Entry) → get k (remove_key k m) ≡ none
unfolding get
get-remove_key_self k [] = refl
get-remove_key_self k ((j, v) ∷ m) = elim (Bool-cases (str_eq j k)) [
  | inl e ↦ rw e (get-remove_key_self k m)
  | inr e ↦ rw (e, get, e) (get-remove_key_self k m)
]

remove_key-SameMap :
    (k : String) (m n : List Entry) → SameMap m n → SameMap (remove_key k m) (remove_key k n)
remove_key-SameMap k m n same j = elim (Bool-cases (str_eq k j)) [
  | inl e ↦
      let at = (eq_iff k j).0 e in
      subst (λ i. get i (remove_key k m) ≡ get i (remove_key k n)) at
        (get-remove_key_self k m ∙ sym (get-remove_key_self k n))
  | inr e ↦ get-remove_key k j m e ∙ same j ∙ sym (get-remove_key k j n e)
]

insert_key-SameMap :
    (k : String) (ids : List String) (m n : List Entry)
    → SameMap m n
    → SameMap (insert_key k ids m) (insert_key k ids n)
insert_key-SameMap k ids m n same j =
    get-insert_key k j ids m
    ∙ ap (λ o. if str_eq k j then some ids else o) (same j)
    ∙ sym (get-insert_key k j ids n)

module _ {F : Type 0} (s t : ServiceState) (job_id : String) (r : PlacementResult F)
    (same : SameState s t) where
  taken-SameState : SameState (taken s job_id r) (taken t job_id r)
  taken-SameState = record {
    set = λ id. (
      insert_all-Within r.gpu_ids s.reserved t.reserved id (same.set id).0,
      insert_all-Within r.gpu_ids t.reserved s.reserved id (same.set id).1,
    );
    jobs = insert_key-SameMap job_id r.gpu_ids s.job_reservations t.job_reservations same.jobs;
  }

  pub reserve-SameState :
      ((reserve s job_id r).0 ≡ (reserve t job_id r).0)
      × SameState (reserve s job_id r).1 (reserve t job_id r).1
  unfolding reserve
  reserve-SameState =
      let tests = any-SameSet s.reserved t.reserved r.gpu_ids same.set in
      elim (Bool-cases r.placed) [
        | inl p ↦ elim (Bool-cases (any (has_id t.reserved) r.gpu_ids)) [
          | inl e ↦ rw (reserve, p, tests, e) (refl, same)
          | inr e ↦ rw (reserve, p, tests, e) (refl, taken-SameState)
        ]
        | inr p ↦ rw (reserve, p) (refl, same)
      ]

pub release-SameState :
    (s t : ServiceState) (job_id : String)
    → SameState s t
    → SameState (release s job_id) (release t job_id)
unfolding release
release-SameState s t job_id same = elim (Option-cases (get job_id t.job_reservations)) [
  | inl e ↦ rw (release, same.jobs job_id, e) same
  | inr (ids, e) ↦
      rw (release, same.jobs job_id, e)
        (record {
          set = λ id. (
            remove_all-Within ids s.reserved t.reserved id (same.set id).0,
            remove_all-Within ids t.reserved s.reserved id (same.set id).1,
          );
          jobs = remove_key-SameMap job_id s.job_reservations t.job_reservations same.jobs;
        })
]
