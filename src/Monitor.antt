-- ===== src/Monitor.antt =====
-- nesquic/src/main.rs: the program that monitors. The cores, the signals and the environment are
-- parameters.
pub mod Options
pub mod Labelled
pub mod Ending
mod Tests
use nesquic.Prelude.{ℕ, ◌∷◌, Option, Outcome, List, ok, some, err, none, panic, stuck}
use nesquic.Prelude.Tasks.{Task, ◌>>=◌, pure, fail, lift}
use nesquic.Text.{Text, codes}
use nesquic.Metrics.Lines.{Numbers}
use nesquic.Metrics.Push.{MetricsCollector, Influx, Target, push_all, report}
use nesquic.Monitor.Options.{Cli, labels, core_of, target}

-- `if let Err(e) = …`: the error is logged.
abbrev pub swallow : Outcome (Unit {0}) → Outcome (Unit {0})
swallow (ok _) = ok tt
swallow (err e) = ok tt
swallow panic = panic
swallow stuck = stuck

unfoldable pub logged : {W : Type 0} → Task W (Unit {0}) → Task W (Unit {0})
logged m w = (swallow (m w).0, (m w).1)

module _ (n : Numbers) {World Link : Type 0} (influx : Influx World) (print : Text → World → World)
    (detach : Link → World → World) where
  push_to :
      Option Target → Text → List (Text × Text) → Task (MetricsCollector n World Link) (Unit {0})
  push_to none job tags = pure tt
  push_to (some influxdb) job tags = logged (push_all n influx detach influxdb job tags)

  -- From the signal on.
  unfoldable pub deliver :
      (Text → Option Text)
      → Option Text
      → List (Text × Text)
      → Task (MetricsCollector n World Link) (Unit {0})
  unfolding push_to
  deliver var (some job) tags = push_to (target var) job tags
  deliver var none tags = logged (report n print detach)

  -- The whole program. `attach` is `MetricsCollector::new` and `monitor_io`, each with its `expect`,
  -- and `until_signal` installs the handlers and waits for one of the signals.
  module _ {CoreId : Type 0} (set_for_current : CoreId → World → World)
      (attach until_signal : Task (MetricsCollector n World Link) (Unit {0})) where
    set_core : Option CoreId → Task (MetricsCollector n World Link) (Unit {0})
    set_core none = pure tt
    set_core (some core) = λ c. (
      ok tt,
      record { links = c.links; statics = c.statics; world = set_for_current core c.world },
    )

    unfoldable pub main :
        Text
        → Text
        → Cli
        → Option (List CoreId)
        → (Text → Option Text)
        → Task (MetricsCollector n World Link) (Unit {0})
    unfolding set_core
    main log_level version cli cores var = do
      tags ← lift (labels log_level version cli)
      core ← lift (core_of cores cli.cpu)
      _ ← set_core core
      _ ← attach
      _ ← until_signal
      deliver var cli.job tags
