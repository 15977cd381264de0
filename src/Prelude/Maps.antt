-- ===== src/Prelude/Maps.antt =====
-- `HashMap` as an association list with at most one entry of a key; `HashSet` of strings as a list.
use text.Mathlib.Text.{◌==◌ as str_eq}
use text.Mathlib.TextEquality.{eq_iff}
use mathlib.Core.Path.{◌≡◌, refl, sym}
use mathlib.Core.Bool.{Bool, true, false}
use mathlib.Core.Logic.{◌≢◌, inl, inr}
use mathlib.Core.Option.{Option, none, some}
use mathlib.Core.List.{List, [], ◌∷◌}
use Prim.Native.String.{String}
use nemesis.Prelude.Tests.{Bool-cases, if◌then◌else◌}
use nemesis.Prelude.Predicates.{All, Mem, Sub, none_left, keep, skip}

-- `contains` on a list or a set of strings.
unfoldable pub has_id : List String → String → Bool
has_id [] s = false
has_id (t ∷ ts) s = if str_eq t s then true else has_id ts s

pub has_id_sound : (ids : List String) (id : String) → has_id ids id ≡ false → ¬ Mem id ids
unfolding has_id
has_id_sound [] id h m = m
has_id_sound (t ∷ ts) id h m = elim (Bool-cases (str_eq t id)) [
  | inl e ↦ cc (rw e at h)
  | inr e ↦ elim m [
    | inl at ↦ cc ((eq_iff t id).1 (sym at))
    | inr m' ↦ has_id_sound ts id (rw e at h) m'
  ]
]

pub has_id_complete : (ids : List String) (id : String) → has_id ids id ≡ true → Mem id ids
unfolding has_id
has_id_complete [] id h = cc
has_id_complete (t ∷ ts) id h = elim (Bool-cases (str_eq t id)) [
  | inl e ↦ inl (sym ((eq_iff t id).0 e))
  | inr e ↦ inr (has_id_complete ts id (rw e at h))
]

module _ {V : Type 0} where
  -- `HashMap::get`.
  unfoldable pub get : String → List (String × V) → Option V
  get k [] = none
  get k ((j, v) ∷ m) = if str_eq j k then some v else get k m

  -- `HashMap::remove` and `HashMap::insert`.
  abbrev pub remove_key : String → List (String × V) → List (String × V)
  remove_key k [] = []
  remove_key k ((j, v) ∷ m) = if str_eq j k then remove_key k m else (j, v) ∷ remove_key k m

  abbrev pub insert_key : String → V → List (String × V) → List (String × V)
  insert_key k v m = (k, v) ∷ remove_key k m

  pub Sub-remove_key : (k : String) (m : List (String × V)) → Sub (remove_key k m) m
  Sub-remove_key k [] = none_left
  Sub-remove_key k ((j, v) ∷ m) = elim (Bool-cases (str_eq j k)) [
    | inl e ↦ rw e (skip (j, v) (Sub-remove_key k m))
    | inr e ↦ rw e (keep (j, v) (Sub-remove_key k m))
  ]

  pub remove_key_gone : (k : String) (m : List (String × V)) → All (λ e. k ≢ e.0) (remove_key k m)
  remove_key_gone k [] = tt
  remove_key_gone k ((j, v) ∷ m) = elim (Bool-cases (str_eq j k)) [
    | inl e ↦ rw e (remove_key_gone k m)
    | inr e ↦ rw e ((λ p. cc ((eq_iff j k).1 (sym p))), remove_key_gone k m)
  ]

  pub get-remove_key :
      (k j : String) (m : List (String × V)) → str_eq k j ≡ false → get j (remove_key k m) ≡ get j m
  unfolding get
  get-remove_key k j [] apart = refl
  get-remove_key k j ((i, v) ∷ m) apart = elim (Bool-cases (str_eq i k)) [
    | inl e ↦
        let other : str_eq i j ≡ false = rw ((eq_iff i k).0 e) apart in
        rw (e, get, other) (get-remove_key k j m apart)
    | inr e ↦ elim (Bool-cases (str_eq i j)) [
      | inl same ↦ rw (e, get, same)
      | inr other ↦ rw (e, get, other) (get-remove_key k j m apart)
    ]
  ]

  pub get-insert_key :
      (k j : String) (v : V) (m : List (String × V))
      → get j (insert_key k v m) ≡ (if str_eq k j then some v else get j m)
  unfolding get
  get-insert_key k j v m = elim (Bool-cases (str_eq k j)) [
    | inl e ↦ rw (get, e)
    | inr e ↦ rw (get, e) (get-remove_key k j m e)
  ]
