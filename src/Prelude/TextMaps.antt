-- ===== src/Prelude/TextMaps.antt =====
-- `HashMap` whose keys are texts, as an association list with at most one entry of a key.
use mathlib.Core.Path.{◌≡◌, refl}
use mathlib.Core.Bool.{false}
use mathlib.Core.Logic.{inl, inr}
use mathlib.Core.Option.{Option, none, some}
use mathlib.Core.List.{List, [], ◌∷◌}
use nemesis.Prelude.Tests.{Bool-cases, if◌then◌else◌}
use nemesis.Prelude.Texts.{Text, text_eq, text_eq_sound}

module _ {V : Type 0} where
  -- `HashMap::get`, `HashMap::remove` and `HashMap::insert`.
  unfoldable pub text_get : Text → List (Text × V) → Option V
  text_get k [] = none
  text_get k ((j, v) ∷ m) = if text_eq j k then some v else text_get k m

  abbrev pub text_remove : Text → List (Text × V) → List (Text × V)
  text_remove k [] = []
  text_remove k ((j, v) ∷ m) = if text_eq j k then text_remove k m else (j, v) ∷ text_remove k m

  abbrev pub text_insert : Text → V → List (Text × V) → List (Text × V)
  text_insert k v m = (k, v) ∷ text_remove k m

  text_get-text_remove :
      (k other : Text) (m : List (Text × V))
      → text_eq k other ≡ false
      → text_get other (text_remove k m) ≡ text_get other m
  unfolding text_get
  text_get-text_remove k other [] apart = refl
  text_get-text_remove k other ((j, v) ∷ m) apart = elim (Bool-cases (text_eq j k)) [
    | inl e ↦
        let same = text_eq_sound j k e in
        let skipped : text_eq j other ≡ false = rw same apart in
        rw (e, text_get, skipped) (text_get-text_remove k other m apart)
    | inr e ↦ rw (e, text_get, text_get-text_remove k other m apart)
  ]

  -- What a map holds once `v` is put in at `k`.
  pub text_get-text_insert :
      (k other : Text) (v : V) (m : List (Text × V))
      → text_get other (text_insert k v m) ≡ (if text_eq k other then some v else text_get other m)
  unfolding text_get
  text_get-text_insert k other v m = elim (Bool-cases (text_eq k other)) [
    | inl e ↦ rw (text_get, e)
    | inr e ↦ rw (text_get, e, text_get-text_remove k other m e)
  ]
