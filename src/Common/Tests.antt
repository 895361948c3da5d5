-- ===== src/Common/Tests.antt =====
-- Runs of the programs on small inputs.
use nesquic.Net.{v6}
use nesquic.Net.Memory.{memory_sockets, memory_sockets-IsSockets, unset}
use nesquic.Prelude.Keeps.{Holds}
use nesquic.Common.Socket.{bind_socket}
use nesquic.Common.Socket.Opened.{IsListening, bind_socket-IsListening}
use nesquic.Common.Connectivity.{Timeout, connectivity, client_test_args}
use nesquic.Common.Client.{run_client}
use nesquic.Perf.Stats.Memory.{no_floats}
use nesquic.Perf.Stats.{get_last?, set_last, start_measurement, add_bytes, stop_measurement}
use nesquic.Prelude.{
  ℕ, ◌≡◌, refl, List, [], ◌∷◌, ok, err, some, none, Option, String, false, ◌+◌, ◌<◌, length,
  get_elem?, ◌≤◌,
}
use nesquic.Text.{codes}
use nesquic.Labels.{no_labels, extend, run_labels}
use nesquic.Bin.{ClientImpl, ClientArgs}
use nesquic.Perf.Blob.{Request, len, parse_request}
use nesquic.Common.{
  Cli, client, Race, finished, build_labels, own_labels, core_of, get_core_id, common_args,
}
use nesquic.Common.Client.{run_and_measure}
use nesquic.Common.Cores.{get_core_id-bounds}
use nesquic.Prelude.Tasks.{Task}
use nesquic.Prelude.{Outcome}

-- An implementation whose calls take some time, on a clock.
abbrev slow : ClientImpl
slow = record {
  World = ℕ;
  Self = Unit {0};
  new = λ args t. (ok tt, t + 1);
  connect = λ self t. (ok tt, t + 10);
  run = λ self t. (ok tt, t + 100);
}

abbrev clock : ℕ → ℕ × ℕ
clock t = (t, t)

abbrev args : ClientArgs
args = record {
  url = record { host_str = none; port = none };
  unencrypted = false;
  cert = "";
  blob = "5B";
}

abbrev five : String → Outcome ℕ
five blob = ok 5

abbrev req : Request
req = record { size = 5 }

five_parsed : parse_request five "5B" ≡ ok req
unfolding parse_request
five_parsed = refl

-- A client that is to run on the third of two cores.
abbrev third : Cli
third = record {
  command = client (record {
    common = record { job = none; labels = none; quic_cpu = some 2; metric_cpu = none };
    client = args;
  });
}

abbrev two_cores : Option (List ℕ)
two_cores = some (0 ∷ 1 ∷ [])

get_core_id-bounds_example :
    (2 < length {A = ℕ} (0 ∷ 1 ∷ [])
      → (core : ℕ) × (get_elem? (0 ∷ 1 ∷ []) 2 ≡ some core) × (get_core_id two_cores 2 ≡ ok core))
    × (length {A = ℕ} (0 ∷ 1 ∷ []) ≤ 2 → get_core_id two_cores 2 ≡ err "Core not available")
get_core_id-bounds_example = get_core_id-bounds (0 ∷ 1 ∷ []) 2

abbrev job : {A : Type 0} → A → Task ℕ (Race (Outcome (Unit {0})))
job _ w = (ok (finished (ok tt)), w + 1)

labelled :
    build_labels (codes "info") third (codes "quinn") (codes "1")
    ≡ ok (extend (own_labels (codes "info") third (codes "quinn") (codes "1")) no_labels)
unfolding build_labels common_args run_labels
labelled = refl

no_third : core_of two_cores (common_args third.command).quic_cpu ≡ err "Core not available"
unfolding core_of get_core_id common_args
no_third = refl

bound_to_port :
    Holds (λ _ v. IsListening (v6 0 4433) v) (bind_socket memory_sockets (v6 0 4433) unset)
bound_to_port = bind_socket-IsListening memory_sockets-IsSockets (v6 0 4433) unset tt

-- Timers that never elapse.
abbrev no_timeout : Timeout ℕ
no_timeout ms m w = (some (m w).0, (m w).1)

no_timeout_law :
    (ms : ℕ) (m : Task ℕ (Unit {0})) (w w' : ℕ) (r : Outcome (Unit {0}))
    → no_timeout ms m w ≡ (some r, w')
    → m w ≡ (r, w')
no_timeout_law ms m w w' r e = cc

test_passes :
    connectivity slow no_timeout clock no_floats five (client_test_args "cert.pem") 0 ≡ (ok tt, 122)
unfolding connectivity run_client run_and_measure parse_request len start_measurement add_bytes
    stop_measurement get_last? set_last
test_passes = refl
