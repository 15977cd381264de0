-- ===== src/Prelude/Outcome.antt =====
-- Fallible code: a value or an error, as Rust's `Result`.
use mathlib.Core.Bool.{Bool, true, false}
use nemesis.Prelude.Tests.{if◌then◌else◌}
use mathlib.Core.Logic.{◌⊎◌, inl, inr}
use mathlib.Core.Path.{◌≡◌, refl, subst}

pub data Result {ℓ κ} (A : Type ℓ) (E : Type κ) : Type (ℓ ⊔ κ) where
  ok : A → Result A E
  err : E → Result A E

-- The operator `?`: an error ends the function.
infixl 5 ◌>>=◌
abbrev pub ◌>>=◌ {ℓ κ ι} :
    {A : Type ℓ} {E : Type κ} {B : Type ι} → Result A E → (A → Result B E) → Result B E
ok a >>= f = f a
err e >>= f = err e

-- A value of which `P` holds, or an error of which `Q` holds.
pub data Ensures {ℓ κ ι ι'} {A : Type ℓ} {E : Type κ} (P : A → Type ι) (Q : E → Type ι')
    : Result A E → Type (ℓ ⊔ κ ⊔ ι ⊔ ι') where
  holds : {a : A} → P a → Ensures P Q (ok a)
  fails : {e : E} → Q e → Ensures P Q (err e)

module _ {ℓ κ ι ι'} {A : Type ℓ} {E : Type κ} {P : A → Type ι} {Q : E → Type ι'} where
  pub Ensures-ok : {r : Result A E} {a : A} → Ensures P Q r → r ≡ ok a → P a
  Ensures-ok (holds p) e = subst P (cc) p
  Ensures-ok (fails q) e = cc

  pub Ensures-err : {r : Result A E} {e : E} → Ensures P Q r → r ≡ err e → Q e
  Ensures-err (holds p) e = cc
  Ensures-err (fails q) e = subst Q (cc) q

  pub Ensures->>= {ℓ' κ'} :
      {B : Type ℓ'} {P' : B → Type κ'} {m : Result A E} {f : A → Result B E}
      → Ensures P Q m
      → ((a : A) → P a → Ensures P' Q (f a))
      → Ensures P' Q (m >>= f)
  Ensures->>= (holds {a} p) k = k a p
  Ensures->>= (fails q) k = fails q

  -- A test whose outcome both branches may know.
  pub Ensures-if :
      (b : Bool) {x y : Result A E}
      → (b ≡ true → Ensures P Q x)
      → (b ≡ false → Ensures P Q y)
      → Ensures P Q (if b then x else y)
  Ensures-if true hx hy = hx refl
  Ensures-if false hx hy = hy refl

pub Result-cases {ℓ κ} :
    {A : Type ℓ} {E : Type κ} (r : Result A E) → ((a : A) × (r ≡ ok a)) ⊎ ((e : E) × (r ≡ err e))
Result-cases (ok a) = inl (a, refl)
Result-cases (err e) = inr (e, refl)
