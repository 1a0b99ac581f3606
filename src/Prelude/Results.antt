-- ===== src/Prelude/Results.antt =====
-- What holds of the result of a chain of Options, if it has one.
use fast.Prelude.Tests.{if◌then◌else◌, ◌>>=◌}
use mathlib.Core.Path.{◌≡◌, refl, subst}
use mathlib.Core.Bool.{Bool, false, true}
use mathlib.Core.Option.{Option, none, some, some-injective}
use native.Mathlib.Omega.{arith}

abbrev pub Every {ℓ κ} : {A : Type ℓ} → (A → Type κ) → Option A → Type (ℓ ⊔ κ)
Every {A} P o = (a : A) → o ≡ some a → P a

module _ {ℓ κ} {A : Type ℓ} (P : A → Type κ) where
  pub Every-some : (a : A) → P a → Every P (some a)
  Every-some a holds b e = subst P (some-injective a b e) holds

  pub Every-none : Every P none
  Every-none b e = absurd (ground (arith, e))

  pub Every-if : (b : Bool) {x y : Option A} → Every P x → Every P y → Every P (if b then x else y)
  Every-if true first second = first
  Every-if false first second = second

pub Every-choice {ℓ κ} :
    {A : Type ℓ} (P : A → Type κ) (b : Bool) (x y : Option A)
    → Every P x
    → Every P y
    → Every P (elim b [ false ↦ x | true ↦ y ])
Every-choice P false x y first second = first
Every-choice P true x y first second = second

pub Every-elim {ℓ ℓ' κ} :
    {A : Type ℓ} {B : Type ℓ'} (P : B → Type κ) (o : Option A) (x : Option B) (f : A → Option B)
    → Every P x
    → ((a : A) → Every P (f a))
    → Every P (elim o [ none ↦ x | some a ↦ f a ])
Every-elim P none x f first second = first
Every-elim P (some a) x f first second = second a

pub Every-bind {ℓ ℓ' κ} :
    {A : Type ℓ} {B : Type ℓ'} (P : B → Type κ) (o : Option A) (f : A → Option B)
    → ((a : A) → o ≡ some a → Every P (f a))
    → Every P (o >>= f)
Every-bind P none f holds = Every-none P
Every-bind P (some a) f holds = holds a refl
