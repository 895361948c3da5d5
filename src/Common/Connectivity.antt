-- ===== src/Common/Connectivity.antt =====
-- iut/common/src/test.rs: the test of connectivity that every implementation runs.
pub mod Passes
use nesquic.Prelude.{
  ℕ, zero, suc, String, Outcome, ok, err, panic, stuck, Option, some, none, false,
}
use nesquic.Prelude.Tasks.{Task, ◌>>=◌, pure}
use nesquic.Net.{v4}
use nesquic.Bin.{ClientArgs, ServerArgs, ClientImpl, ServerImpl}
use nesquic.Perf.Stats.{Floats}
use nesquic.Common.Client.{run_client, run_server}

-- `ClientArgs::test`, with the path of the certificate.
abbrev pub client_test_args : String → ClientArgs
client_test_args cert = record {
  url = record { host_str = some "127.0.0.1"; port = some 4433 };
  unencrypted = false;
  cert = cert;
  blob = "50Mbit";
}

-- `ServerArgs::test`, with the paths of the key and of the certificate.
abbrev pub server_test_args : String → String → ServerArgs
server_test_args key cert = record {
  unencrypted = false;
  key = key;
  cert = cert;
  listen = v4 2130706433 4433;
}

-- `tokio::time::timeout`, with milliseconds: `none` when they have elapsed.
abbrev pub Timeout : Type 0 → Type 0
Timeout W = ℕ → Task W (Unit {0}) → W → Option (Outcome (Unit {0})) × W

-- `assert!(res.is_ok(), …)`
abbrev pub asserted : Outcome (Unit {0}) → Outcome (Unit {0})
asserted (ok _) = ok tt
asserted (err e) = panic
asserted panic = panic
asserted stuck = stuck

-- The assertion that the time has not elapsed, and that of the result.
abbrev pub asserted_in_time : Option (Outcome (Unit {0})) → Outcome (Unit {0})
asserted_in_time none = panic
asserted_in_time (some res) = asserted res

module _ (c : ClientImpl) (timeout : Timeout c.World) (now : c.World → ℕ × c.World)
    (floats : Floats) (parse : String → Outcome ℕ) (args : ClientArgs) where
  open c use {World, Self, new as new_client, connect}

  health_check : Task World (Unit {0})
  health_check = do made ← new_client args; _ ← connect made; pure tt

  -- "Server is healthy" ends the loop. A panic of the check is a panic of the test.
  after_check :
      Task World (Unit {0}) → Option (Outcome (Unit {0})) × World → Outcome (Unit {0}) × World
  after_check again (some (ok _), w) = (ok tt, w)
  after_check again (some (err e), w) = again w
  after_check again (some panic, w) = (panic, w)
  after_check again (some stuck, w) = (stuck, w)
  after_check again (none, w) = again w

  health_checks : ℕ → Task World (Unit {0})
  health_checks zero w = (ok tt, w)
  health_checks (suc n) w = after_check (health_checks n) (timeout 300 health_check w)

  assert_run : Task World (Unit {0})
  assert_run w =
      let (res, w') = timeout 5000 (run_client c now floats parse args) w in
      (asserted_in_time res, w')

  -- What `connectivity` does beside the server.
  unfoldable pub connectivity : Task World (Unit {0})
  unfolding health_checks after_check health_check assert_run
  connectivity = do _ ← health_checks 30; assert_run

-- What `connectivity` spawns.
unfoldable pub serve_test : (s : ServerImpl) → ServerArgs → Task s.World (Unit {0})
serve_test s args w = let (res, w') = run_server s args w in (asserted res, w')
