-- ===== src/Common.antt =====
-- iut/common/src/lib.rs: what the programs of all implementations run. The crates that parse the
-- command line, know the cores and deliver signals are parameters.
pub mod Client
pub mod Connectivity
pub mod Cores
pub mod Socket
mod Tests
use nesquic.Bin.{ClientArgs, ServerArgs, ClientImpl, ServerImpl}
use nesquic.Text.{Text, codes}
use nesquic.Labels.{Labels, no_labels, insert_label, extend, run_labels}
use nesquic.Perf.Blob.{Request, len, parse_request}
use nesquic.Perf.Stats.{Stats, Floats, new, start_measurement, add_bytes, stop_measurement}
use nesquic.Prelude.{
  Outcome, ℕ, Option, String, ok, List, none, err, some, get_elem?, if◌then◌else◌, ◌>>=◌, leb,
  length, panic,
}

pub record CommonArgs : Type 0 where
  pub job : Option Text
  pub labels : Option (List Text)
  pub quic_cpu : Option ℕ
  pub metric_cpu : Option ℕ

pub record ClientLibArgs : Type 0 where
  pub common : CommonArgs
  pub client : ClientArgs

pub record ServerLibArgs : Type 0 where
  pub common : CommonArgs
  pub server : ServerArgs

pub data Command : Type 0 where
  client : ClientLibArgs → Command
  server : ServerLibArgs → Command

pub record Cli : Type 0 where
  pub command : Command

-- `Command::args`
unfoldable pub common_args : Command → CommonArgs
common_args (client args) = args.common
common_args (server args) = args.common

unfoldable pub mode : Command → Text
mode (client args) = codes "client"
mode (server args) = codes "server"

-- The labels that the program sets itself.
unfoldable pub own_labels : Text → Cli → Text → Text → Labels
unfolding mode
own_labels log_level cli lib_name lib_version = insert_label (codes "version") lib_version (
    insert_label (codes "mode") (mode cli.command) (
      insert_label (codes "library") lib_name
        (insert_label (codes "log_level") log_level no_labels)))

unfoldable pub build_labels : Text → Cli → Text → Text → Outcome Labels
unfolding common_args own_labels
build_labels log_level cli lib_name lib_version = do
  labels ← run_labels (common_args cli.command).labels
  ok (extend (own_labels log_level cli lib_name lib_version) labels)

-- `core_affinity::get_core_ids()` returns the cores of the machine, or nothing.
unfoldable pub get_core_id {ℓ} : {CoreId : Type ℓ} → Option (List CoreId) → ℕ → Outcome CoreId
get_core_id none idx = err "Core not available"
get_core_id (some cores) idx =
    if leb (length cores) idx
    then err "Core not available"
    else elim (get_elem? cores idx) [ none ↦ panic | some core ↦ ok core ]

-- `map(get_core_id).transpose()?`
unfoldable pub core_of {ℓ} :
    {CoreId : Type ℓ} → Option (List CoreId) → Option ℕ → Outcome (Option CoreId)
core_of cores none = ok none
core_of cores (some idx) = do core ← get_core_id cores idx; ok (some core)

-- The branch that `tokio::select!` of `select_with_term_signals` takes.
pub data Race (T : Type 0) : Type 0 where
  ctrl_c : Race T
  sigterm : Race T
  finished : T → Race T

unfoldable pub select_with_term_signals : {T : Type 0} → Race T → Option T
select_with_term_signals ctrl_c = none
select_with_term_signals sigterm = none
select_with_term_signals (finished res) = some res
