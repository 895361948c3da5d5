-- ===== src/Prelude/Outcomes.antt =====
-- What a fallible Rust function does: it returns `Ok`, it returns an `anyhow` error (known by its
-- message, without the values formatted into it), or it panics. `stuck` is no Rust outcome: a loop
-- that is modelled on fuel ran out of it.
use Prim.Native.String.{String}
use mathlib.Core.Path.{◌≡◌, ap}

pub data Outcome {ℓ} (A : Type ℓ) : Type ℓ where
  ok : A → Outcome A
  err : String → Outcome A
  panic : Outcome A
  stuck : Outcome A

infixl 5 ◌>>=◌
abbrev pub ◌>>=◌ {ℓ κ} : {A : Type ℓ} {B : Type κ} → Outcome A → (A → Outcome B) → Outcome B
ok a >>= f = f a
err e >>= f = err e
panic >>= f = panic
stuck >>= f = stuck

module _ {ℓ} {A : Type ℓ} where
  abbrev pub value_or : A → Outcome A → A
  value_or d (ok a) = a
  value_or d (err e) = d
  value_or d panic = d
  value_or d stuck = d

  pub ok-injective : {a b : A} → ok a ≡ ok b → a ≡ b
  ok-injective {a} e = ap (value_or a) e

-- A call that returns, so neither fails nor panics nor gets stuck, with a property of the result.
abbrev pub Returns {ℓ} : {A : Type ℓ} → Outcome A → (A → Type 0) → Type 0
Returns (ok a) P = P a
Returns (err e) P = ⊥
Returns panic P = ⊥
Returns stuck P = ⊥

pub Returns-map {ℓ} :
    {A : Type ℓ} (P Q : A → Type 0) (m : Outcome A)
    → Returns m P
    → ((a : A) → P a → Q a)
    → Returns m Q
Returns-map P Q (ok a) h f = f a h
Returns-map P Q (err e) h f = h
Returns-map P Q panic h f = h
Returns-map P Q stuck h f = h

pub Returns-bind {ℓ κ} :
    {A : Type ℓ} {B : Type κ} (P : A → Type 0) (Q : B → Type 0) (m : Outcome A) (f : A → Outcome B)
    → Returns m P
    → ((a : A) → P a → Returns (f a) Q)
    → Returns (m >>= f) Q
Returns-bind P Q (ok a) f h k = k a h
Returns-bind P Q (err e) f h k = absurd h
Returns-bind P Q panic f h k = absurd h
Returns-bind P Q stuck f h k = absurd h

-- A property of the result, where there is one.
abbrev pub IfReturns {ℓ} : {A : Type ℓ} → Outcome A → (A → Type 0) → Type 0
IfReturns (ok a) P = P a
IfReturns (err e) P = Unit
IfReturns panic P = Unit
IfReturns stuck P = Unit

pub IfReturns-bind {ℓ κ} :
    {A : Type ℓ} {B : Type κ} (P : A → Type 0) (Q : B → Type 0) (m : Outcome A) (f : A → Outcome B)
    → IfReturns m P
    → ((a : A) → P a → IfReturns (f a) Q)
    → IfReturns (m >>= f) Q
IfReturns-bind P Q (ok a) f h k = k a h
IfReturns-bind P Q (err e) f h k = tt
IfReturns-bind P Q panic f h k = tt
IfReturns-bind P Q stuck f h k = tt

pub Returns-and {ℓ} :
    {A : Type ℓ} (P Q : A → Type 0) (m : Outcome A)
    → Returns m P
    → IfReturns m Q
    → Returns m (λ a. P a × Q a)
Returns-and P Q (ok a) h k = (h, k)
Returns-and P Q (err e) h k = h
Returns-and P Q panic h k = h
Returns-and P Q stuck h k = h

pub IfReturns-all {ℓ} :
    {A : Type ℓ} {J : Type 0} (H : J → Type 0) (Q : J → A → Type 0) (m : Outcome A)
    → ((j : J) → H j → IfReturns m (Q j))
    → IfReturns m (λ a. (j : J) → H j → Q j a)
IfReturns-all H Q (ok a) h = h
IfReturns-all H Q (err e) h = tt
IfReturns-all H Q panic h = tt
IfReturns-all H Q stuck h = tt

-- What does not end with an error.
abbrev pub IsFaultless {ℓ} : {A : Type ℓ} → Outcome A → Type 0
IsFaultless (ok a) = Unit
IsFaultless (err e) = ⊥
IsFaultless panic = Unit
IsFaultless stuck = Unit

pub IsFaultless-bind {ℓ κ} :
    {A : Type ℓ} {B : Type κ} (m : Outcome A) (f : A → Outcome B)
    → IsFaultless m
    → ((a : A) → IsFaultless (f a))
    → IsFaultless (m >>= f)
IsFaultless-bind (ok a) f h k = k a
IsFaultless-bind (err e) f h k = absurd h
IsFaultless-bind panic f h k = tt
IsFaultless-bind stuck f h k = tt

-- What does not panic.
abbrev pub IsPanicFree {ℓ} : {A : Type ℓ} → Outcome A → Type 0
IsPanicFree (ok a) = Unit
IsPanicFree (err e) = Unit
IsPanicFree panic = ⊥
IsPanicFree stuck = Unit
