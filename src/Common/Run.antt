-- ===== src/Common/Run.antt =====
-- Methods that may throw or exit, and change a state in any case; a monad of their own.
use mathlib.Core.Path.{◌≡◌, refl}
use rs_jerry_driver.Common.Results.{Error, Result, ok, err}

-- The result and the new state.
abbrev pub Run {ℓ} : Type 0 → Type ℓ → Type ℓ
Run World A = World → Result A × World

-- What follows a result.
abbrev pub continue {ℓ κ} :
    {World : Type 0} {A : Type ℓ} {B : Type κ}
    → Result A × World
    → (A → Run World B)
    → Result B × World
continue (ok a, world) next = next a world
continue (err e, world) next = (err e, world)

infixl 5 ◌>>=◌
abbrev pub ◌>>=◌ {ℓ κ} :
    {World : Type 0} {A : Type ℓ} {B : Type κ} → Run World A → (A → Run World B) → Run World B
(call >>= next) world = continue (call world) next

infixl 5 ◌>>◌
abbrev pub ◌>>◌ : {World : Type 0} {A B : Type 0} → Run World A → Run World B → Run World B
(call >> following) world = continue (call world) (λ a. following)

abbrev pub returns {ℓ} : {World : Type 0} {A : Type ℓ} → A → Run World A
returns a world = (ok a, world)

abbrev pub throws {ℓ} : {World : Type 0} {A : Type ℓ} → Error → Run World A
throws e world = (err e, world)

abbrev pub lift {ℓ} : {World : Type 0} {A : Type ℓ} → Result A → Run World A
lift result world = (result, world)

-- Inversion of a run that returned.
pub continue-eq-ok {ℓ κ} :
    {World : Type 0} {A : Type ℓ} {B : Type κ} (r : Result A × World) (next : A → Run World B)
    {b : B} {last : World}
    → continue r next ≡ (ok b, last)
    → (a : A) × (mid : World) × (r ≡ (ok a, mid)) × (next a mid ≡ (ok b, last))
continue-eq-ok (ok a, world) next h = (a, world, refl, h)
continue-eq-ok (err e, world) next h = absurd (cc)
