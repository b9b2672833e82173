-- ===== src/Common/Family.antt =====
-- Families over the numbers: a change at one index, and sums below a bound.
use Prim.Native.Nat.{ℕ, zero, suc, ◌+◌, ◌≤◌, ◌<◌}
use mathlib.Core.Path.{◌≡◌, refl, ap, ◌∙◌}
use mathlib.Core.Logic.{◌≢◌, inl, inr}
use mathlib.Core.Bool.{true, false}
use native.Mathlib.Decide.{dec_lt}
use native.Mathlib.Omega.{arith}
use rs_jerry_driver.Common.Tests.{Bool-cases, ◌==◌, if◌then◌else◌}

abbrev pub update {ℓ} : {A : Type ℓ} → ℕ → A → (ℕ → A) → ℕ → A
update i a f j = if j == i then a else f j

pub update_here {ℓ} : {A : Type ℓ} (i : ℕ) (a : A) (f : ℕ → A) → update i a f i ≡ a
update_here i a f = let here : (i == i) ≡ true = ground arith in rw here refl

pub update_there {ℓ} : {A : Type ℓ} (i j : ℕ) (a : A) (f : ℕ → A) → j ≢ i → update i a f j ≡ f j
update_there i j a f h = let there : (j == i) ≡ false = ground arith in rw there refl

-- What holds of a family and of the new member holds afterwards.
pub update_all {ℓ} :
    {A : Type ℓ} (P : A → Type 0) (i : ℕ) (a : A) (f : ℕ → A)
    → P a
    → ((j : ℕ) → P (f j))
    → (j : ℕ) → P (update i a f j)
update_all P i a f here all j = elim (Bool-cases (j == i)) [
  | inl same ↦ rw same here
  | inr other ↦ rw other (all j)
]

module _ {ℓ} {A : Type ℓ} (weight : A → ℕ) where
  -- The sum of the weights below a bound.
  abbrev pub total : ℕ → (ℕ → A) → ℕ
  total zero f = 0
  total (suc n) f = total n f + weight (f n)

  total-update_above : (n i : ℕ) (a : A) (f : ℕ → A) → n ≤ i → total n (update i a f) ≡ total n f
  total-update_above zero i a f h = refl
  total-update_above (suc n) i a f h =
      let there = update_there i n a f (λ e. absurd (omega arith)) in
      rw there (omega (arith, total-update_above n i a f (omega arith)))

  -- A change below the bound changes the sum by the difference of the weights.
  pub total-update :
      (n i : ℕ) (a : A) (f : ℕ → A)
      → i < n
      → total n (update i a f) + weight (f i) ≡ total n f + weight a
  total-update zero i a f h = absurd (omega arith)
  total-update (suc n) i a f h = elim (dec_lt i n) [
    | yes below ↦
        let there = update_there i n a f (λ e. absurd (omega arith)) in
        rw there (omega (arith, total-update n i a f below))
    | no last ↦
        let same : n ≡ i = omega arith in
        let here : weight (update i a f n) ≡ weight a =
          ap weight (ap (update i a f) same ∙ update_here i a f) in
        let there : weight (f n) ≡ weight (f i) = ap (λ j. weight (f j)) same in
        omega (arith, here, there, total-update_above n i a f (omega arith))
  ]

-- What the new member has in common with the old one is in common afterwards.
pub update_alike {ℓ} :
    {A B : Type ℓ} (g : A → B) (i : ℕ) (a : A) (f : ℕ → A)
    → g a ≡ g (f i)
    → (j : ℕ) → g (update i a f j) ≡ g (f j)
update_alike g i a f same j = elim (Bool-cases (j == i)) [
  | inl here ↦ let e : i ≡ j = ground arith in rw here (same ∙ ap (λ k. g (f k)) e)
  | inr other ↦ rw other refl
]
