-- ===== src/Base/Results.antt =====
-- Exceptions as values, and methods that change a state and may throw. The state that a method
-- leaves behind is kept also when it throws.
use mathlib.Core.Logic.{◌⊎◌, inl, inr}
use mathlib.Core.Path.{◌≡◌, refl}

-- The exception classes that the sources throw.
pub data Error : Type 0 where
  invalid_argument out_of_range overflow_error logic_error capacity_error : Error
  store_error corrupt_error miss_error quota_error cuda_error : Error

pub data Result {ℓ} (A : Type ℓ) : Type ℓ where
  ok : A → Result A
  err : Error → Result A

-- What follows a call: the rest of the body if the call returned, nothing if it threw.
abbrev pub on_result {ℓ κ} :
    {A : Type ℓ} {B : Type κ} {S : Type 0} → Result A → S → (A → S → Result B × S) → Result B × S
on_result (ok a) s f = f a s
on_result (err e) s f = (err e, s)

infixl 5 ◌>>=◌ ◌>>◌
abbrev pub ◌>>=◌ {ℓ κ} :
    {A : Type ℓ} {B : Type κ} {S : Type 0}
    → (S → Result A × S)
    → (A → S → Result B × S)
    → S
    → Result B × S
◌>>=◌ m f s = on_result (m s).0 (m s).1 f

abbrev pub ◌>>◌ {ℓ κ} :
    {A : Type ℓ} {B : Type κ} {S : Type 0}
    → (S → Result A × S)
    → (S → Result B × S)
    → S
    → Result B × S
◌>>◌ m k = m >>= λ _. k

abbrev pub return {ℓ} : {A : Type ℓ} {S : Type 0} → A → S → Result A × S
return a s = (ok a, s)

abbrev pub throw {ℓ} : {A : Type ℓ} {S : Type 0} → Error → S → Result A × S
throw e s = (err e, s)

-- `try { m } catch (...) { cleanup; throw; }`
abbrev pub rethrow_after {ℓ} : {A : Type ℓ} {S : Type 0} → Result A × S → (S → S) → Result A × S
rethrow_after (ok a, s) cleanup = (ok a, s)
rethrow_after (err e, s) cleanup = (err e, cleanup s)

pub Result-cases {ℓ} :
    {A : Type ℓ} (r : Result A) → ((a : A) × (r ≡ ok a)) ⊎ ((e : Error) × (r ≡ err e))
Result-cases (ok a) = inl (a, refl)
Result-cases (err e) = inr (e, refl)

pub ok-injective {ℓ} : {A : Type ℓ} {x y : A} → ok x ≡ ok y → x ≡ y
ok-injective e = cc
