-- ===== src/Common/Connectivity/Passes.antt =====
-- When the test passes.
use nesquic.Prelude.{◌∙◌, err, panic, stuck, none, ℕ, String, Outcome, ok, some, ◌≡◌, refl, Option}
use nesquic.Bin.{ClientArgs, ClientImpl}
use nesquic.Perf.Stats.{Floats}
use nesquic.Common.Client.{run_client}
use nesquic.Common.Connectivity.{
  asserted_in_time, Timeout, connectivity, health_check, health_checks, after_check, assert_run,
  asserted,
}
use nesquic.Prelude.Tasks.{bind-eq-ok, Task}

module _ (c : ClientImpl) (timeout : Timeout c.World) (now : c.World → ℕ × c.World)
    (floats : Floats) (parse : String → Outcome ℕ) (args : ClientArgs) where
  open c use {World, Self, new as new_client, connect}

  -- Where the checks take less than their time and the first one passes, the test is `run_client`,
  -- run once in the state that the check left, with its error a panic.
  pub connectivity-healthy :
      (made connected : Self) (w w1 w2 : World)
      → ((ms : ℕ) (m : Task World (Unit {0})) (w : World)
          → timeout ms m w ≡ (some (m w).0, (m w).1))
      → new_client args w ≡ (ok made, w1)
      → connect made w1 ≡ (ok connected, w2)
      → connectivity c timeout now floats parse args w ≡ (
        asserted (run_client c now floats parse args w2).0,
        (run_client c now floats parse args w2).1,
      )
  unfolding connectivity health_checks after_check health_check assert_run
  connectivity-healthy made connected w w1 w2 in_time e1 e2 =
      rw (in_time 300 _ w, e1, e2) (rw (in_time 5000 _ w2) refl)

  -- Where a future that completes in its time gives its result and its state, a test that passes has
  -- seen `run_client` return without an error, in the state in which the test ends.
  connectivity-eq-ok :
      (w w' : World)
      → ((ms : ℕ) (m : Task World (Unit {0})) (w w' : World) (r : Outcome (Unit {0}))
          → timeout ms m w ≡ (some r, w')
          → m w ≡ (r, w'))
      → connectivity c timeout now floats parse args w ≡ (ok tt, w')
      → (u : World) × (run_client c now floats parse args u ≡ (ok tt, w'))
  unfolding connectivity assert_run
  connectivity-eq-ok w w' in_time h =
      let (_, u, _, h1) =
        bind-eq-ok (health_checks c timeout now floats parse args 30)
          (λ _. assert_run c timeout now floats parse args) w w' h in
      (u, passed u (timeout 5000 (run_client c now floats parse args) u) refl h1)
    where
      passed :
          (u : World) (p : Option (Outcome (Unit {0})) × World)
          → timeout 5000 (run_client c now floats parse args) u ≡ p
          → ◌≡◌ {A = Outcome (Unit {0}) × World} (asserted_in_time p.0, p.1) (ok tt, w')
          → run_client c now floats parse args u ≡ (ok tt, w')
      passed u (none, v) e k = cc
      passed u (some (ok tt), v) e k = in_time 5000 _ u v (ok tt) e ∙ k
      passed u (some (err x), v) e k = cc
      passed u (some panic, v) e k = cc
      passed u (some stuck, v) e k = cc
