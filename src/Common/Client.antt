-- ===== src/Common/Client.antt =====
-- `run_client`, `run_server` and `run` of iut/common/src/lib.rs. A library's statics and the clock are
-- a part of the state of an implementation.
pub mod Measure
pub mod Completed
pub mod Pinning
use nesquic.Prelude.Tasks.{Task, ◌>>=◌, pure, fail, lift}
use nesquic.Prelude.{ℕ, String, Option, Outcome, ok, some, List, err, none, panic, stuck}
use nesquic.Bin.{ClientArgs, ClientImpl, ServerImpl, ServerArgs}
use nesquic.Common.{
  Race, Command, Text, client, select_with_term_signals, Cli, server, build_labels, core_of,
  common_args,
}
use nesquic.Perf.Stats.{Floats, Stats, add_bytes, start_measurement, stop_measurement, new}
use nesquic.Perf.Blob.{Request, parse_request, len}

-- `run_client`, over the implementation, the clock `Instant::now()` and the floats.
module _ (c : ClientImpl) (now : c.World → ℕ × c.World) (floats : Floats)
    (parse : String → Outcome ℕ) where
  open c use {World, Self, new as new_client, connect, run}

  read_clock : Task World ℕ
  read_clock w = (ok (now w).0, (now w).1)

  -- What is done with the statistics once the client has run.
  record_run : Request → Stats → Task World Stats
  record_run req stats = do
    counted ← lift (add_bytes (len req) stats)
    end ← read_clock
    stopped ← lift (stop_measurement floats end counted.0)
    pure stopped.0

  measure_run : Request → Self → Task World Stats
  measure_run req made = do
    start ← read_clock
    _ ← run made
    record_run req (start_measurement start new)

  connect_and_measure : ClientArgs → Request → Task World Stats
  connect_and_measure args req = do
    made ← new_client args
    connected ← connect made
    measure_run req connected

  -- `run_client`, with the statistics that it drops.
  unfoldable pub run_and_measure : ClientArgs → Task World Stats
  unfolding connect_and_measure measure_run record_run read_clock
  run_and_measure args = do req ← lift (parse_request parse args.blob); connect_and_measure args req

  unfoldable pub run_client : ClientArgs → Task World (Unit {0})
  run_client args = do _ ← run_and_measure args; pure tt

module _ (s : ServerImpl) where
  open s use {World, new as new_server, listen}

  unfoldable pub run_server : ServerArgs → Task World (Unit {0})
  run_server args = do made ← new_server args; listen made

-- What `run` makes of the end of the job: an error of the job is the error of the program, and a
-- signal ends it without one.
unfoldable pub job_result : Option (Outcome (Unit {0})) → Outcome (Unit {0})
job_result (some (ok _)) = ok tt
job_result (some (err e)) = err e
job_result (some panic) = panic
job_result (some stuck) = stuck
job_result none = ok tt

-- `run` with a command line, up to the choice of the job. The future of the job, raced against the
-- signals, is a parameter.
module _ {CoreId W : Type 0} (set_for_current : CoreId → W → W)
    (client_job : ClientArgs → Task W (Race (Outcome (Unit {0}))))
    (server_job : ServerArgs → Task W (Race (Outcome (Unit {0})))) where
  pin : Option CoreId → Task W (Unit {0})
  pin none = λ w. (ok tt, w)
  pin (some core) = λ w. (ok tt, set_for_current core w)

  job_of : Command → Task W (Race (Outcome (Unit {0})))
  job_of (client args) = client_job args.client
  job_of (server args) = server_job args.server

  run_job : Option CoreId → Command → Task W (Unit {0})
  run_job core command = do
    _ ← pin core
    race ← job_of command
    lift (job_result (select_with_term_signals race))

  unfoldable pub run : Text → Option (List CoreId) → Cli → Text → Text → Task W (Unit {0})
  unfolding run_job job_of pin
  run log_level cores cli lib_name lib_version = do
    _ ← lift (build_labels log_level cli lib_name lib_version)
    quic_core ← lift (core_of cores (common_args cli.command).quic_cpu)
    _ ← lift (core_of cores (common_args cli.command).metric_cpu)
    run_job quic_core cli.command
