-- ===== src/Monitor/Ending.antt =====
-- How the program ends.
use nesquic.Prelude.{Option, List, ok, err, some, ◌≡◌, panic, none, stuck, IsFaultless-bind}
use nesquic.Prelude.Tasks.{Task}
use nesquic.Prelude.Keeps.{bind-IsFaultless}
use nesquic.Prelude.{IsFaultless, IsFaultless-bind}
use nesquic.Text.{Text}
use nesquic.Monitor.{main, deliver, logged, swallow, Outcome, set_core, push_to, lift}
use nesquic.Monitor.Options.{Cli, labels, core_of, target, unwrap_or_empty}
use nesquic.Metrics.Lines.{Numbers}
use nesquic.Metrics.Push.{MetricsCollector, Influx, Target}
use nesquic.Labels.{parse_labels}
use nesquic.Labels.Parsing.{parse_labels-IsFaultless}

swallow-IsFaultless : (r : Outcome (Unit {0})) → IsFaultless (swallow r)
swallow-IsFaultless (ok _) = tt
swallow-IsFaultless (err e) = tt
swallow-IsFaultless panic = tt
swallow-IsFaultless stuck = tt

labels-IsFaultless :
    (log_level version : Text) (cli : Cli) → IsFaultless (labels log_level version cli)
unfolding labels
labels-IsFaultless log_level version cli =
    IsFaultless-bind (parse_labels (unwrap_or_empty cli.labels)) _ (parse_labels-IsFaultless _)
      (λ pairs. tt)

module _ (n : Numbers) {World Link : Type 0} (influx : Influx World) (print : Text → World → World)
    (detach : Link → World → World) where
  deliver-IsFaultless :
      (var : Text → Option Text) (job : Option Text) (tags : List (Text × Text))
      (c : MetricsCollector n World Link)
      → IsFaultless (deliver n influx print detach var job tags c).0
  unfolding deliver logged push_to
  deliver-IsFaultless var none tags c = swallow-IsFaultless _
  deliver-IsFaultless var (some job) tags c = go (target var)
    where
      go : (t : Option Target) → IsFaultless (push_to n influx print detach t job tags c).0
      go none = tt
      go (some t) = swallow-IsFaultless _

  module _ {CoreId : Type 0} (set_for_current : CoreId → World → World)
      (attach until_signal : Task (MetricsCollector n World Link) (Unit {0})) where
    -- Where the core that is asked for exists, and attaching the programs and waiting for the signal
    -- do not end with errors, the program does not end with one either: whatever becomes of the push.
    pub main-IsFaultless :
        (log_level version : Text) (cli : Cli) (cores : Option (List CoreId))
        (var : Text → Option Text) (core : Option CoreId) (c : MetricsCollector n World Link)
        → core_of cores cli.cpu ≡ ok core
        → ((c : MetricsCollector n World Link) → IsFaultless (attach c).0)
        → ((c : MetricsCollector n World Link) → IsFaultless (until_signal c).0)
        → IsFaultless
            (main n influx print detach set_for_current attach until_signal log_level version cli
              cores var c).0
    unfolding main set_core
    main-IsFaultless log_level version cli cores var core c found ha hs =
        bind-IsFaultless (lift (labels log_level version cli)) _
          (λ c. labels-IsFaultless log_level version cli)
          (λ tags. rw found (
            bind-IsFaultless
              (set_core n influx print detach set_for_current attach until_signal core) _
              (pinned core)
              (λ _. bind-IsFaultless attach _ ha (λ _.
                bind-IsFaultless until_signal _ hs (λ _. deliver-IsFaultless var cli.job tags)))))
          c
      where
        pinned :
            (core : Option CoreId) (c : MetricsCollector n World Link)
            → IsFaultless
                (set_core n influx print detach set_for_current attach until_signal core c).0
        pinned none c = tt
        pinned (some core) c = tt
