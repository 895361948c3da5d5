-- ===== src/Mains.antt =====
-- The `main` functions of iut/neqo, iut/quinn, iut/noq and iut/quiche. The dependencies of a build are
-- generated, so they are a parameter, and so are the jobs of a library.
pub mod Version
use nesquic.Prelude.{Option, List, Outcome}
use nesquic.Prelude.Tasks.{Task}
use nesquic.Text.{Text, codes}
use nesquic.Bin.{ClientArgs, ServerArgs}
use nesquic.Common.{Cli, Race}
use nesquic.Common.Client.{run}
use nesquic.Mains.Version.{lib_version}

module _ {CoreId W : Type 0} (set_for_current : CoreId → W → W)
    (client_job : ClientArgs → Task W (Race (Outcome (Unit {0}))))
    (server_job : ServerArgs → Task W (Race (Outcome (Unit {0})))) (log_level : Text)
    (cores : Option (List CoreId)) (cli : Cli) (dependencies : List (Text × Text)) where
  main_of : Text → Task W (Unit {0})
  main_of name =
      run set_for_current client_job server_job log_level cores cli name
        (lib_version name dependencies)

  abbrev neqo_main : Task W (Unit {0})
  neqo_main = main_of (codes "neqo")

  abbrev quinn_main : Task W (Unit {0})
  quinn_main = main_of (codes "quinn")

  abbrev noq_main : Task W (Unit {0})
  noq_main = main_of (codes "noq")

  abbrev quiche_main : Task W (Unit {0})
  quiche_main = main_of (codes "quiche")
