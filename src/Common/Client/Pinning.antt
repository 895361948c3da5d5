-- ===== src/Common/Client/Pinning.antt =====
-- A program whose cores are not there does not start its job.
use nesquic.Prelude.{◌⊎◌, inl, inr, ◌≡◌, ok, err, refl, Option, List, String, ◌⊎◌, inl, inr}
use nesquic.Common.{
  Cli, build_labels, core_of, common_args, ClientArgs, Race, Outcome, ServerArgs, Text, Labels,
}
use nesquic.Common.Client.{run, Task}

module _ {CoreId W : Type 0} (set_for_current : CoreId → W → W)
    (client_job : ClientArgs → Task W (Race (Outcome (Unit {0}))))
    (server_job : ServerArgs → Task W (Race (Outcome (Unit {0})))) where
  -- When the core that is asked for does not exist, for the job or for the metrics, the program ends
  -- with an error before it does anything.
  run-no_core :
      (log_level : Text) (cores : Option (List CoreId)) (cli : Cli) (name version : Text)
      (labels : Labels) (e : String) (w : W)
      → build_labels log_level cli name version ≡ ok labels
      → (core_of cores (common_args cli.command).quic_cpu ≡ err e)
        ⊎ ((core : Option CoreId) × (core_of cores (common_args cli.command).quic_cpu ≡ ok core)
            × (core_of cores (common_args cli.command).metric_cpu ≡ err e))
      → run set_for_current client_job server_job log_level cores cli name version w ≡ (err e, w)
  unfolding run
  run-no_core log_level cores cli name version labels e w h (inl missing) = rw (h, missing) refl
  run-no_core log_level cores cli name version labels e w h (inr (core, found, missing)) =
      rw (h, found, missing) refl
