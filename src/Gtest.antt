-- ===== src/Gtest.antt =====
-- The repository's own tests (gtest/) and the reader of their files: a test is a function to whether
-- all its expectations hold, or to the exception that leaves it.
pub mod Binary
pub mod HeaderTest
pub mod MetadataTest
pub mod Words
pub mod Text
pub mod ParserTest
pub mod NormTest
pub mod ClientTest
mod Examples
use Prim.Native.String.{String}
use rs_jerry_driver.Common.{
  ℕ, suc, ◌+◌, ◌*◌, ◌≡◌, refl, ap, ◌∙◌, Bool, true, ◌&&◌, List, [], ◌∷◌, Option, none, some, Result,
  ok, err, ◌>>=◌, out_of_range, get_elem?, arith,
}

-- The files that can be opened, by name.
abbrev pub Files : Type 0
Files = String → Option (List ℕ)

-- `at` of a container.
abbrev pub checked {ℓ} : {A : Type ℓ} → Option A → Result A
checked none = err out_of_range
checked (some a) = ok a

unfoldable pub at {ℓ} : {A : Type ℓ} → List A → ℕ → Result A
at input i = checked (get_elem? input i)

-- The loops that expect something of the input at the index of each member of an array, from an
-- index on.
unfoldable pub expect_each {ℓ} :
    {A : Type ℓ} → (A → ℕ → Result Bool) → ℕ → List A → List ℕ → Result Bool
unfolding at
expect_each expect i [] input = ok true
expect_each expect i (a ∷ members) input = do
  word ← at input i
  holds ← expect a word
  others ← expect_each expect (suc i) members input
  ok (holds && others)

-- Members and words that fit each other, with their index.
abbrev pub Along {ℓ} : {A : Type ℓ} → (ℕ → A → ℕ → Type 0) → ℕ → List A → List ℕ → Type 0
Along Fits i [] words = Unit {0}
Along Fits i (a ∷ members) (word ∷ words) = Fits i a word × Along Fits (suc i) members words
Along Fits i (a ∷ members) [] = ⊥

-- The loop passes where every word is as expected.
pub expect_each-Along {ℓ} :
    {A : Type ℓ} (expect : A → ℕ → Result Bool) (Fits : ℕ → A → ℕ → Type 0)
    → ((i : ℕ) (a : A) (word : ℕ) → Fits i a word → expect a word ≡ ok true)
    → (i : ℕ) (members : List A) (words input : List ℕ)
    → ((k : ℕ) → get_elem? input (i + k) ≡ get_elem? words k)
    → Along Fits i members words
    → expect_each expect i members input ≡ ok true
unfolding expect_each at
expect_each-Along expect Fits sound i [] words input found fit = refl
expect_each-Along expect Fits sound i (a ∷ members) [] input found fit = absurd fit
expect_each-Along expect Fits sound i (a ∷ members) (word ∷ words) input found fit =
    let here : get_elem? input i ≡ some word = ap (get_elem? input) (omega arith) ∙ found 0 in
    let rest =
      expect_each-Along expect Fits sound (suc i) members words input
        (λ k. ap (get_elem? input) (omega arith) ∙ found (suc k)) fit.1 in
    rw (here, sound i a word fit.0, rest) refl
