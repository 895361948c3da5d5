-- ===== src/Neqo/Drive/Rounds.antt =====
-- Rules for `drive_until`: what holds when it returns, and when it returns.
use nesquic.Prelude.{
  ℕ, ◌≡◌, ◌<◌, ok, true, false, Bool, suc, Bool-cases, inl, inr, zero, ap, arith, Outcome, refl,
}
use nesquic.Prelude.Tasks.{Task, ◌>>=◌, bind-eq-ok}
use nesquic.Prelude.Keeps.{Ensures, Holds-at}
use nesquic.Neqo.Driver.{Driver}
use nesquic.Neqo.Drive.{round, drive_until, beside, unless_done}
use mathlib.Core.Path.{subst}

module _ (d : Driver) {S : Type 0} where
  open d use {World}

  -- A loop that returns has its check say so last, in a state in which every invariant of the check
  -- and of the rounds holds.
  pub drive_until-eq-ok :
      (J : World × S → Type 0) (rounds fuel : ℕ) (check : Task (World × S) Bool) (x y : World × S)
      → Ensures J check (λ _. J)
      → ((w : World) (s : S) → J (w, s) → J ((round d fuel w).1, s))
      → J x
      → drive_until d rounds fuel check x ≡ (ok tt, y)
      → (z : World × S) × J z × (check z ≡ (ok true, y))
  unfolding drive_until unless_done
  drive_until-eq-ok J zero fuel check x y hc hr h e = cc
  drive_until-eq-ok J (suc rounds) fuel check x y hc hr h e =
      let again = beside d (round d fuel) >>= λ _. drive_until d rounds fuel check in
      let (finished, z, checked, rest) = bind-eq-ok check (unless_done d again) x y e in
      elim (Bool-cases finished) [
        | inl stop ↦
            let last : z ≡ y =
              ap (λ (p : Outcome (Unit {0}) × (World × S)). p.1) (rw stop at rest) in
            (x, h, rw (checked, stop, last) refl)
        | inr more ↦
            let (_, u, ran, later) =
              bind-eq-ok (beside d (round d fuel)) (λ _. drive_until d rounds fuel check) z y
                (rw more at rest) in
            drive_until-eq-ok J rounds fuel check u y hc hr
              (subst J (ap (λ (p : Outcome (Unit {0}) × (World × S)). p.1) ran)
                (hr z.0 z.1 (Holds-at (λ _. J) (check x) finished z checked (hc x h))))
              later
      ]

  -- A check that returns, and where it says that more is to be done a round that ends and brings a
  -- measure down.
  abbrev pub Advances : (World × S → Type 0) → (World × S → ℕ) → ℕ → Task (World × S) Bool → Type 0
  Advances J m fuel check =
      (x : World × S)
      → J x
      → (finished : Bool) × (w : World) × (s : S) × (check x ≡ (ok finished, (w, s)))
        × (finished ≡ false
            → (w' : World) × (round d fuel w ≡ (ok tt, w')) × J (w', s) × (m (w', s) < m x))

  -- Where the rounds bring a measure down, more rounds than the measure are enough.
  drive_until-Returns :
      (J : World × S → Type 0) (m : World × S → ℕ) (rounds fuel : ℕ) (check : Task (World × S) Bool)
      (x : World × S)
      → Advances J m fuel check
      → J x
      → m x < rounds
      → (y : World × S) × (drive_until d rounds fuel check x ≡ (ok tt, y))
  unfolding drive_until unless_done
  drive_until-Returns J m zero fuel check x adv h enough = absurd (omega arith)
  drive_until-Returns J m (suc rounds) fuel check x adv h enough =
      let (finished, w, s, checked, more) = adv x h in
      elim (Bool-cases finished) [
        | inl stop ↦ ((w, s), rw (checked, stop) refl)
        | inr again ↦
            let (w', ran, h', less) = more again in
            let (y, rest) =
              drive_until-Returns J m rounds fuel check (w', s) adv h' (omega arith) in
            (y, rw checked (rw again (rw ran rest)))
      ]
