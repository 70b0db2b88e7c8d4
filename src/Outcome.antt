-- ===== src/Outcome.antt =====
-- base/error.hpp: what an operation may throw, and the two monads of the model: a result that may
-- be an error, and a stateful operation whose writes before a throw stay written.
use likelib_utonhack.Prelude.{Bool, true, false, ◌≡◌, refl, ◌⊎◌, inl, inr}

-- The classes of base/error.hpp that the modelled code throws; `overflow_error` stands for the
-- standard exceptions of the checked integers, `assertion` for an ASSERT that fails,
-- and `undefined` for what C++ leaves undefined.
pub data Error : Type 0 where
  invalid_argument logic_error runtime_error crypto_error database_error : Error
  use_of_uninitialized_value overflow_error assertion undefined : Error

-- What `catch (const base::Error&)` takes.
abbrev pub is_base_error : Error → Bool
is_base_error Error.overflow_error = false
is_base_error Error.assertion = false
is_base_error Error.undefined = false
is_base_error _ = true

pub data Outcome {ℓ} (A : Type ℓ) : Type ℓ where
  ok : A → Outcome A
  raise : Error → Outcome A

infixl 10 ◌>>=◌
abbrev pub ◌>>=◌ {ℓ κ} : {A : Type ℓ} {B : Type κ} → Outcome A → (A → Outcome B) → Outcome B
ok a >>= f = f a
raise e >>= f = raise e

-- To split on how a method ended and keep the equation.
pub Outcome-cases : (r : Outcome (Unit {0})) → (r ≡ ok tt) ⊎ ((e : Error) × (r ≡ raise e))
Outcome-cases (ok tt) = inl refl
Outcome-cases (raise e) = inr (e, refl)

pub Outcome-split :
    {A : Type 0} (r : Outcome A) → ((a : A) × (r ≡ ok a)) ⊎ ((e : Error) × (r ≡ raise e))
Outcome-split (ok a) = inl (a, refl)
Outcome-split (raise e) = inr (e, refl)
