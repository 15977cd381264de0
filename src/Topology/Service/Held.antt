-- ===== src/Topology/Service/Held.antt =====
-- Which GPUs the jobs of the scheduler hold, and how its sets and maps keep that.
use text.Mathlib.Text.{◌==◌ as str_eq}
use nemesis.Prelude.{
  Sub-remove_key, get, has_id, has_id_complete, remove_key, not, List, [], ◌∷◌, some, String, ◌≡◌,
  refl, sym, ◌≢◌, if◌then◌else◌, Mem, All, Pairs, All-Sub, Mem-filter_by, Bool-cases, inl, inr,
}
use nemesis.Topology.Service.{ServiceState, initial, insert_all, remove_all}

abbrev pub Within : List String → List String → Type 0
Within ids set = (id : String) → Mem id ids → Mem id set

abbrev pub Apart : List String → List String → Type 0
Apart xs ys = (id : String) → Mem id xs → Mem id ys → ⊥

abbrev pub Entry : Type 0
Entry = String × List String

-- The GPUs of each job are reserved, no two jobs hold one GPU, and a job has one entry.
pub record IsValid (s : ServiceState) : Type 0 where
  pub held : All (λ e. Within e.1 s.reserved) s.job_reservations
  pub apart : Pairs (λ d e. Apart d.1 e.1) s.job_reservations
  pub one_entry : Pairs (λ d e. d.0 ≢ e.0) s.job_reservations

pub IsValid-initial : IsValid initial
IsValid-initial = record { held = tt; apart = tt; one_entry = tt }

pub insert_all_old : (ids set : List String) → Within set (insert_all ids set)
insert_all_old [] set id m = m
insert_all_old (i ∷ ids) set id m = elim (Bool-cases (has_id set i)) [
  | inl e ↦ rw e (insert_all_old ids set id m)
  | inr e ↦ rw e (insert_all_old ids (i ∷ set) id (inr m))
]

pub insert_all_new : (ids set : List String) → Within ids (insert_all ids set)
insert_all_new (i ∷ ids) set id (inr m) =
    insert_all_new ids (if has_id set i then set else i ∷ set) id m
insert_all_new (i ∷ ids) set id (inl at) = elim (Bool-cases (has_id set i)) [
  | inl e ↦ rw e (insert_all_old ids set id (rw at (has_id_complete set i e)))
  | inr e ↦ rw e (insert_all_old ids (i ∷ set) id (inl at))
]
insert_all_new [] set id m = absurd m

pub remove_all_keeps :
    (ids set : List String) (id : String) → ¬ Mem id ids → Mem id set → Mem id (remove_all ids set)
remove_all_keeps ids set id out m =
    Mem-filter_by (λ i. not (has_id ids i)) id set m
      (elim (Bool-cases (has_id ids id)) [
        | inl e ↦ absurd (out (has_id_complete ids id e))
        | inr e ↦ rw e
      ])

pub All-get :
    (P : List String → Type 0) (k : String) (m : List Entry) {v : List String}
    → All (λ e. P e.1) m
    → get k m ≡ some v
    → P v
unfolding get
All-get P k [] h e = cc
All-get P k ((j, v) ∷ m) {v = w} h e = elim (Bool-cases (str_eq j k)) [
  | inl same ↦ let at : v ≡ w = cc (rw same at e) in rw (sym at) (h.0)
  | inr other ↦ All-get P k m h.1 (rw other at e)
]

-- The entries that are left share no GPU with the one that is removed.
pub remove_key-Apart :
    (k : String) (m : List Entry) {v : List String}
    → Pairs (λ d e. Apart d.1 e.1) m
    → get k m ≡ some v
    → All (λ e. Apart v e.1) (remove_key k m)
unfolding get
remove_key-Apart k [] h e = cc
remove_key-Apart k ((j, v) ∷ m) {v = w} h e = elim (Bool-cases (str_eq j k)) [
  | inl same ↦
      let at : v ≡ w = cc (rw same at e) in
      rw (same, sym at) (All-Sub (λ e. Apart v e.1) (Sub-remove_key k m) h.0)
  | inr other ↦
      let found = rw other at e in
      rw other (
        (λ id a b. All-get (λ ids. Apart v ids) k m h.0 found id b a),
        remove_key-Apart k m h.1 found,
      )
]

pub All-self_of : (P : Entry → Type 0) (m : List Entry) → ((e : Entry) → Mem e m → P e) → All P m
All-self_of P [] f = tt
All-self_of P (e ∷ m) f = (f e (inl refl), All-self_of P m (λ d k. f d (inr k)))
