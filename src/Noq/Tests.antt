-- ===== src/Noq/Tests.antt =====
-- The test of connectivity of iut/noq over libraries in memory.
use nesquic.Perf.Stats.Memory.{no_floats}
use nesquic.Prelude.{ℕ, String, Outcome, ok, some, ◌≡◌, refl, arith, false, true}
use nesquic.Common.Connectivity.{Timeout, connectivity, client_test_args}
use nesquic.Quinn.Streams.{View}
use nesquic.Quinn.Exchange.{client_end, blank}
use nesquic.Quinn.Program.Measured.{exchanged}
use nesquic.Quinn.Program.Memory.{memory_crates, bind_any, still}
use nesquic.Quinn.Connect.{new as quinn_new, connect as quinn_connect}
use nesquic.Noq.Client.{Client, client_impl, new, connect}
use nesquic.Noq.Program.{connectivity_passes}

-- "50Mbit" in bytes.
abbrev fifty : String → Outcome ℕ
fifty blob = ok 6250000

abbrev no_timeout : Timeout View
no_timeout ms m v = (some (m v).0, (m v).1)

abbrev made : Client (Unit {0})
made = record { args = client_test_args "cert.pem"; conn = false; config = tt }

new_client : new memory_crates bind_any (client_test_args "cert.pem") blank ≡ (ok made, blank)
unfolding quinn_new
new_client = refl

connected_client :
    connect memory_crates bind_any made blank ≡ (ok (record made { conn = true }), blank)
unfolding quinn_connect
connected_client = refl

connectivity_passes_example :
    connectivity
      (client_impl client_end (λ v. (some tt, v)) fifty memory_crates bind_any)
      no_timeout
      still
      no_floats
      fifty
      (client_test_args "cert.pem")
      blank
    ≡ (ok tt, exchanged 6250000)
connectivity_passes_example =
    connectivity_passes memory_crates bind_any no_timeout still no_floats fifty "cert.pem" 6250000
      made (record made { conn = true }) made (record made { conn = true }) blank blank blank blank
      blank (λ ms m v. refl) refl (omega arith) new_client connected_client new_client
      connected_client refl
