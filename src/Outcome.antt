-- ===== src/Outcome.antt =====
-- `CompileResult` of src/runner/compiler.rs, with the panics of the source (`unreachable!`,
-- `todo!`, `unwrap` on nothing, an index out of bounds) as a third result.
use xob.Base.{ℕ, ◌≡◌, refl, Option, none, some, List, [], ◌∷◌, zero, suc}

pub data CompileError : Type 0 where
  iced_error unsupported_instruction invalid_instruction : CompileError

pub data Outcome {ℓ} (A : Type ℓ) : Type ℓ where
  ok : A → Outcome A
  err : CompileError → Outcome A
  panic : Outcome A

infixl 5 ◌>>=◌
abbrev pub ◌>>=◌ {ℓ κ} : {A : Type ℓ} {B : Type κ} → Outcome A → (A → Outcome B) → Outcome B
ok a >>= f = f a
err e >>= f = err e
panic >>= f = panic

-- `.unwrap()` and `.expect(...)`.
abbrev pub unwrap {ℓ} : {A : Type ℓ} → Option A → Outcome A
unwrap none = panic
unwrap (some a) = ok a

-- `xs[i]`
abbrev pub index {ℓ} : {A : Type ℓ} → List A → ℕ → Outcome A
index [] i = panic
index (x ∷ xs) zero = ok x
index (x ∷ xs) (suc i) = index xs i

-- A chain that succeeds has succeeded at each step.
pub ok-bind {ℓ κ} :
    {A : Type ℓ} {B : Type κ} (m : Outcome A) (f : A → Outcome B) (b : B)
    → m >>= f ≡ ok b
    → (a : A) × (m ≡ ok a) × (f a ≡ ok b)
ok-bind (ok a) f b h = (a, refl, h)
ok-bind (err e) f b h = cc
ok-bind panic f b h = cc

pub ok-unwrap {ℓ} : {A : Type ℓ} (o : Option A) (a : A) → unwrap o ≡ ok a → o ≡ some a
ok-unwrap none a h = cc
ok-unwrap (some x) a h = cc

pub ok-injective {ℓ} : {A : Type ℓ} {x y : A} → ◌≡◌ {A = Outcome A} (ok x) (ok y) → x ≡ y
ok-injective h = cc
