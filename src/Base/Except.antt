-- ===== src/Base/Except.antt =====
-- Python's exceptions as values.
use mathlib.Core.Path.{◌≡◌, refl}
use mathlib.Core.Logic.{◌⊎◌, inl, inr}
use mathlib.Core.Bool.{Bool, true, false}

-- The exceptions that the sources raise, and those of the library calls that they make.
pub data Error : Type 0 where
  value_error runtime_error connection_error memory_error os_error struct_error key_error
        attribute_error :
      Error

-- `stuck` is no outcome of the program: a loop of the model ran out of fuel.
pub data Result {ℓ} (A : Type ℓ) : Type ℓ where
  ok : A → Result A
  err : Error → Result A
  stuck : Result A

infixl 5 ◌>>=◌ ◌>>◌
abbrev pub ◌>>=◌ {ℓ κ} : {A : Type ℓ} {B : Type κ} → Result A → (A → Result B) → Result B
ok a >>= f = f a
err e >>= f = err e
stuck >>= f = stuck

abbrev pub ◌>>◌ {ℓ} : {B : Type ℓ} → Result (Unit {0}) → Result B → Result B
m >> k = m >>= λ _. k

-- `if c: raise e`
abbrev pub raise_if : Bool → Error → Result (Unit {0})
raise_if true e = err e
raise_if false e = ok tt

pub Result-cases {ℓ} :
    {A : Type ℓ} (r : Result A)
    → ((a : A) × (r ≡ ok a)) ⊎ (((e : Error) × (r ≡ err e)) ⊎ (r ≡ stuck))
Result-cases (ok a) = inl (a, refl)
Result-cases (err e) = inr (inl (e, refl))
Result-cases stuck = inr (inr refl)
