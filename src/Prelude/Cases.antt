-- ===== src/Prelude/Cases.antt =====
-- Splits on a computed value that keep the equation.
use mathlib.Core.Path.{◌≡◌, refl}
use mathlib.Core.Logic.{◌⊎◌, inl, inr}
use mathlib.Core.Bool.{Bool, true, false}
use mathlib.Core.Option.{Option, none, some}
use cpfbuddies.Prelude.Tests.{if◌then◌else◌}

pub Bool-cases : (b : Bool) → (b ≡ true) ⊎ (b ≡ false)
Bool-cases true = inl refl
Bool-cases false = inr refl

pub Option-cases {ℓ} : {A : Type ℓ} (o : Option A) → (o ≡ none) ⊎ ((a : A) × (o ≡ some a))
Option-cases none = inl refl
Option-cases (some a) = inr (a, refl)

-- `x is not None`
abbrev pub is_some {ℓ} : {A : Type ℓ} → Option A → Bool
is_some none = false
is_some (some a) = true

-- What holds of a test between two calls.
pub if_post :
    {S X : Type 0} (Q : X → Type 0) (b : Bool) (m n : S → X) (s : S)
    → (b ≡ true → Q (m s))
    → (b ≡ false → Q (n s))
    → Q ((if b then m else n) s)
if_post Q true m n s h k = h refl
if_post Q false m n s h k = k refl
