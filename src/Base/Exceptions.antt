-- ===== src/Base/Exceptions.antt =====
-- pefa/utils/exceptions.h and exceptions.cpp: the exceptions of the library, and the outcome of
-- code that may throw one, or may do what C++ leaves undefined.
use mathlib.Core.Path.{◌≡◌, refl}
use mathlib.Core.Logic.{◌⊎◌, inl, inr}
use mathlib.Core.Option.{Option, none, some}
use Prim.Native.String.{String}

-- `bad_variant_access` is the one exception of the standard library that the code can raise.
pub data Exception : Type 0 where
  not_implemented : String → Exception
  kernel_not_compiled unreachable bad_variant_access : Exception

-- What stops the program other than an exception: undefined behaviour (in C++ or in
-- the emitted code, where `poison` is a shift by too much), or a failed assertion.
-- `llvm_error` is a call of LLVM that must not fail, and has.
-- `no_function` is a call of an address at which there is no function of the kind.
-- `no_fuel` is not the program's: the fuel of a loop of the model is used up.
pub data Fault : Type 0 where
  out_of_bounds null_pointer int_overflow poison assert_failed llvm_error no_function no_fuel :
      Fault

pub data Outcome {ℓ} (A : Type ℓ) : Type ℓ where
  ok : A → Outcome A
  throw : Exception → Outcome A
  fault : Fault → Outcome A

-- `BaseException::what`.
unfoldable pub what : Exception → String
what (not_implemented msg) = msg
what kernel_not_compiled = "Kernel must be compiled before query_compiler"
what unreachable = "Unreachable branch invoked"
what bad_variant_access = "std::get: wrong index for variant"

infixl 5 ◌>>=◌
abbrev pub ◌>>=◌ {ℓ κ} : {A : Type ℓ} {B : Type κ} → Outcome A → (A → Outcome B) → Outcome B
ok a >>= f = f a
throw e >>= f = throw e
fault e >>= f = fault e

-- A value that may be missing, and what its absence leads to.
abbrev pub deref {ℓ} : {A : Type ℓ} → Option A → Fault → Outcome A
deref none e = fault e
deref (some a) e = ok a

pub bind_assoc {ℓ κ μ} :
    {A : Type ℓ} {B : Type κ} {C : Type μ} (m : Outcome A) (f : A → Outcome B) (g : B → Outcome C)
    → (m >>= f >>= g) ≡ (m >>= λ a. f a >>= g)
bind_assoc (ok a) f g = refl
bind_assoc (throw e) f g = refl
bind_assoc (fault e) f g = refl

-- To split on an outcome and keep the equation.
pub Outcome-cases {ℓ} :
    {A : Type ℓ} (m : Outcome A)
    → ((a : A) × (m ≡ ok a)) ⊎ (((e : Exception) × (m ≡ throw e)) ⊎ ((e : Fault) × (m ≡ fault e)))
Outcome-cases (ok a) = inl (a, refl)
Outcome-cases (throw e) = inr (inl (e, refl))
Outcome-cases (fault e) = inr (inr (e, refl))

-- Code that has returned went through each of its steps.
pub returned_step {ℓ κ} :
    {A : Type ℓ} {B : Type κ} {step : A → Outcome B} {b : B} (first : Outcome A)
    → (first >>= step) ≡ ok b
    → (a : A) × (step a ≡ ok b) × (first ≡ ok a)
returned_step (ok a) runs = (a, runs, refl)
returned_step (throw e) runs = cc
returned_step (fault e) runs = cc

pub ok_inj {ℓ} : {A : Type ℓ} {a b : A} → ok a ≡ ok b → a ≡ b
ok_inj e = cc
