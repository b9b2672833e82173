-- ===== src/Common/Results.antt =====
-- What a call that does not return normally does, and the monad of fallible code.
use mathlib.Core.Path.{◌≡◌, refl}
use mathlib.Core.Option.{Option, none, some}
use Prim.Native.Nat.{ℕ, ◌^◌, ◌≤◌, ◌<◌}
use native.Mathlib.Omega.{arith}
use rs_jerry_driver.Common.Tests.{ltb, if◌then◌else◌}

-- The exceptions of common/exceptions.h, the one of jsoncpp and three of the standard library, `exit`,
-- an access that C++ leaves undefined, and a call that waits for input that never comes.
pub data Error : Type 0 where
  invalid_hrzr_header invalid_value not_implemented logic_error runtime_error invalid_argument
        out_of_range exit_process undefined blocked :
      Error

pub data Result {ℓ} (A : Type ℓ) : Type ℓ where
  err : Error → Result A
  ok : A → Result A

-- A read that may be out of range.
abbrev pub defined {ℓ} : {A : Type ℓ} → Option A → Result A
defined none = err undefined
defined (some a) = ok a

-- A sum of `int`, which is undefined where it does not fit.
unfoldable pub checked_int : ℕ → Result ℕ
checked_int n = if ltb n (2 ^ 31) then ok n else err undefined

pub checked_int_fits : (n : ℕ) → n < 2 ^ 31 → checked_int n ≡ ok n
unfolding checked_int
checked_int_fits n h = ground arith

pub checked_int_overflow : (n : ℕ) → 2 ^ 31 ≤ n → checked_int n ≡ err undefined
unfolding checked_int
checked_int_overflow n h = ground arith

-- The next call, where this one returned.
infixl 5 ◌>>=◌
abbrev pub ◌>>=◌ {κ ℓ} : {B : Type κ} {A : Type ℓ} → Result B → (B → Result A) → Result A
err why >>= next = err why
ok b >>= next = next b

-- Inversion of a call that returned.
pub >>=-eq-ok {κ ℓ} :
    {B : Type κ} {A : Type ℓ} (m : Result B) (next : B → Result A) {a : A}
    → (m >>= next) ≡ ok a
    → (b : B) × (m ≡ ok b) × (next b ≡ ok a)
>>=-eq-ok (err why) next h = cc
>>=-eq-ok (ok b) next h = (b, refl, h)

-- A call before two others that follow each other.
pub >>=_through {κ ℓ μ} :
    {A : Type κ} {B : Type ℓ} {C : Type μ} (r : Result A) (f : A → Result C) (g : A → Result B)
    (h : B → Result C)
    → ((a : A) → f a ≡ (g a >>= h))
    → (r >>= f) ≡ ((r >>= g) >>= h)
>>=_through (err why) f g h same = refl
>>=_through (ok a) f g h same = same a

pub defined-eq-ok {ℓ} : {A : Type ℓ} (o : Option A) (a : A) → defined o ≡ ok a → o ≡ some a
defined-eq-ok none a h = absurd (cc)
defined-eq-ok (some b) a h = cc

pub ok-inj {ℓ} : {A : Type ℓ} {a b : A} → ok a ≡ ok b → a ≡ b
ok-inj h = cc
