-- ===== src/Prelude/Keeps.antt =====
-- What a task keeps true of its state, whether it returns or fails.
use Prim.Native.String.{String}
use mathlib.Core.Path.{◌≡◌}
use mathlib.Core.Option.{Option, none, some}
use nesquic.Prelude.Outcomes.{Outcome, ok, err, panic, stuck, IsFaultless, IsPanicFree}
use nesquic.Prelude.Tasks.{Task, ◌>>=◌, continue, or_fail, require, message}

module _ {W : Type 0} (P : W → Type 0) where
  abbrev pub Keeps : {A : Type 0} → Task W A → Type 0
  Keeps m = (w : W) → P w → P (m w).1

  module _ {A : Type 0} where
    -- A call of a library keeps what its own state change keeps.
    pub or_fail-Keeps :
        (call : W → Option A × W) (e : String)
        → ((w : W) → P w → P (call w).1)
        → Keeps (or_fail call e)
    or_fail-Keeps call e h = h

    module _ {B : Type 0} where
      pub continue-Keeps :
          (r : Outcome A) (f : A → Task W B) (w : W)
          → ((a : A) → Keeps (f a))
          → P w
          → P (continue r f w).1
      continue-Keeps (ok a) f w hf k = hf a w k
      continue-Keeps (err e) f w hf k = k
      continue-Keeps panic f w hf k = k
      continue-Keeps stuck f w hf k = k

      pub bind-Keeps :
          (m : Task W A) (f : A → Task W B) → Keeps m → ((a : A) → Keeps (f a)) → Keeps (m >>= f)
      bind-Keeps m f hm hf w h = continue-Keeps (m w).0 f (m w).1 hf (hm w h)

module _ {W A : Type 0} where
  -- A property of what a task returns and of the state then, where it returns.
  abbrev pub Holds : (A → W → Type 0) → Outcome A × W → Type 0
  Holds Q (ok a, w) = Q a w
  Holds Q (err e, w) = Unit
  Holds Q (panic, w) = Unit
  Holds Q (stuck, w) = Unit

  abbrev pub Ensures : (W → Type 0) → Task W A → (A → W → Type 0) → Type 0
  Ensures P m Q = (w : W) → P w → Holds Q (m w)

  pub Holds-at :
      (Q : A → W → Type 0) (p : Outcome A × W) (a : A) (w : W) → p ≡ (ok a, w) → Holds Q p → Q a w
  Holds-at Q p a w e h = rw e at h

  pub Holds-map :
      (R Q : A → W → Type 0) (p : Outcome A × W)
      → ((a : A) (w : W) → R a w → Q a w)
      → Holds R p
      → Holds Q p
  Holds-map R Q (ok a, w) f h = f a w h
  Holds-map R Q (err e, w) f h = h
  Holds-map R Q (panic, w) f h = h
  Holds-map R Q (stuck, w) f h = h

module _ {W A B : Type 0} where
  pub bind-Ensures :
      (P : W → Type 0) (R : A → W → Type 0) (Q : B → W → Type 0) (m : Task W A) (f : A → Task W B)
      → Ensures P m R
      → ((a : A) → Ensures (R a) (f a) Q)
      → Ensures P (m >>= f) Q
  bind-Ensures P R Q m f hm hf w h = go (m w).0 (m w).1 (hm w h)
    where
      go : (r : Outcome A) (u : W) → Holds R (r, u) → Holds Q (continue r f u)
      go (ok a) u k = hf a u k
      go (err e) u k = tt
      go panic u k = tt
      go stuck u k = tt

module _ {W A B : Type 0} where
  pub bind-IsFaultless :
      (m : Task W A) (f : A → Task W B)
      → ((w : W) → IsFaultless (m w).0)
      → ((a : A) (w : W) → IsFaultless (f a w).0)
      → (w : W) → IsFaultless ((m >>= f) w).0
  bind-IsFaultless m f hm hf w = go (m w).0 (m w).1 (hm w)
    where
      go : (r : Outcome A) (u : W) → IsFaultless r → IsFaultless (continue r f u).0
      go (ok a) u k = hf a u
      go (err e) u k = absurd k
      go panic u k = tt
      go stuck u k = tt

module _ {W A : Type 0} where
  pub require-IsPanicFree : (o : Option A) (e : String) (w : W) → IsPanicFree (require o e w).0
  require-IsPanicFree none e w = tt
  require-IsPanicFree (some a) e w = tt

  pub or_fail-IsPanicFree :
      (call : W → Option A × W) (e : String) (w : W) → IsPanicFree (or_fail call e w).0
  or_fail-IsPanicFree call e w = go (call w).0
    where
      go : (r : Option A) → IsPanicFree (message e r)
      go none = tt
      go (some a) = tt

module _ {W A B : Type 0} where
  pub bind-IsPanicFree :
      (m : Task W A) (f : A → Task W B)
      → ((w : W) → IsPanicFree (m w).0)
      → ((a : A) (w : W) → IsPanicFree (f a w).0)
      → (w : W) → IsPanicFree ((m >>= f) w).0
  bind-IsPanicFree m f hm hf w = go (m w).0 (m w).1 (hm w)
    where
      go : (r : Outcome A) (u : W) → IsPanicFree r → IsPanicFree (continue r f u).0
      go (ok a) u k = hf a u
      go (err e) u k = tt
      go panic u k = absurd k
      go stuck u k = tt

-- A first part that keeps one property, behind which another one holds however it ends.
module _ {W A B : Type 0} (P Q : W → Type 0) (weaken : (w : W) → P w → Q w) where
  pub bind-Leads :
      (m : Task W A) (f : A → Task W B)
      → Keeps P m
      → ((a : A) (w : W) → P w → Q (f a w).1)
      → (w : W) → P w
      → Q ((m >>= f) w).1
  bind-Leads m f hm hf w h = go (m w).0 (m w).1 (hm w h)
    where
      go : (r : Outcome A) (u : W) → P u → Q (continue r f u).1
      go (ok a) u k = hf a u k
      go (err e) u k = weaken u k
      go panic u k = weaken u k
      go stuck u k = weaken u k
