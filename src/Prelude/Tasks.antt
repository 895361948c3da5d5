-- ===== src/Prelude/Tasks.antt =====
-- A call that changes a state and may fail. What was done before a failure stays done, so the state
-- comes back beside the error too.
use Prim.Native.String.{String}
use mathlib.Core.Path.{◌≡◌, refl, ap}
use mathlib.Core.Option.{Option, none, some}
use nesquic.Prelude.Outcomes.{Outcome, ok, err, panic, stuck}

abbrev pub Task : Type 0 → Type 0 → Type 0
Task W A = W → Outcome A × W

module _ {W A B : Type 0} where
  abbrev pub continue : Outcome A → (A → Task W B) → Task W B
  continue (ok a) f w = f a w
  continue (err e) f w = (err e, w)
  continue panic f w = (panic, w)
  continue stuck f w = (stuck, w)

  infixl 5 ◌>>=◌
  abbrev pub ◌>>=◌ : Task W A → (A → Task W B) → Task W B
  ◌>>=◌ m f w = let (r, w') = m w in continue r f w'

  -- Inversion of a bind that returns.
  pub bind-eq-ok :
      (m : Task W A) (f : A → Task W B) (w w' : W) {b : B}
      → (m >>= f) w ≡ (ok b, w')
      → (a : A) × (u : W) × (m w ≡ (ok a, u)) × (f a u ≡ (ok b, w'))
  bind-eq-ok m f w w' {b} h = go (m w) refl h
    where
      go :
          (p : Outcome A × W)
          → m w ≡ p
          → continue p.0 f p.1 ≡ (ok b, w')
          → (a : A) × (u : W) × (m w ≡ (ok a, u)) × (f a u ≡ (ok b, w'))
      go (ok a, u) e k = (a, u, e, k)
      go (err x, u) e k = cc
      go (panic, u) e k = cc
      go (stuck, u) e k = cc

module _ {A : Type 0} where
  -- `map_err` and `context`: a failing call of a library gets the message of the program.
  abbrev pub message : String → Option A → Outcome A
  message e none = err e
  message e (some a) = ok a

  abbrev pub map_err : String → Outcome A → Outcome A
  map_err e (ok a) = ok a
  map_err e (err x) = err e
  map_err e panic = panic
  map_err e stuck = stuck

module _ {W A : Type 0} where
  abbrev pub pure : A → Task W A
  pure a w = (ok a, w)

  abbrev pub fail : String → Task W A
  fail e w = (err e, w)

  abbrev pub lift : Outcome A → Task W A
  lift r w = (r, w)

  abbrev pub or_fail : (W → Option A × W) → String → Task W A
  or_fail call e w = let (r, w') = call w in (message e r, w')

  pub or_fail-eq-ok :
      (call : W → Option A × W) (e : String) (w w' : W) {a : A}
      → or_fail call e w ≡ (ok a, w')
      → call w ≡ (some a, w')
  or_fail-eq-ok call e w w' {a} h = go (call w) refl h
    where
      go :
          (p : Option A × W)
          → call w ≡ p
          → ◌≡◌ {A = Outcome A × W} (message e p.0, p.1) (ok a, w')
          → call w ≡ (some a, w')
      go (none, u) q k = cc
      go (some b, u) q k = cc

  -- `ok_or_else`
  abbrev pub require : Option A → String → Task W A
  require none e = fail e
  require (some a) e = pure a

  -- `unwrap()`
  abbrev pub unwrap : Option A → Task W A
  unwrap none = lift panic
  unwrap (some a) = pure a

  pub require-eq-ok :
      (o : Option A) (e : String) (w w' : W) {a : A}
      → require o e w ≡ (ok a, w')
      → (o ≡ some a) × (w ≡ w')
  require-eq-ok none e w w' h = cc
  require-eq-ok (some b) e w w' {a} h =
      (ap (λ (p : Outcome A × W). as_option p.0) h, ap (λ (p : Outcome A × W). p.1) h)
    where
      as_option : Outcome A → Option A
      as_option (ok c) = some c
      as_option (err x) = none
      as_option panic = none
      as_option stuck = none
