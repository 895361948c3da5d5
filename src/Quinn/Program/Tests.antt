-- ===== src/Quinn/Program/Tests.antt =====
-- Runs of the programs of iut/quinn over libraries in memory.
use nesquic.Perf.Stats.Memory.{no_floats}
use nesquic.Prelude.{Option}
use nesquic.Perf.Blob.{Request, parse_request, to_bytes, len}
use nesquic.Perf.Stats.{start_measurement, add_bytes, stop_measurement, get_last?, set_last}
use nesquic.Quinn.Client.Laws.{IsExchanged}
use nesquic.Quinn.Client.{run}
use nesquic.Quinn.Crates.{Crates}
use nesquic.Quinn.Program.Exchanged.{run_client-IsExchanged}
use nesquic.Quinn.Program.Memory.{server_laws, two_sent}
use nesquic.Quinn.Exchange.{server_end}
use nesquic.Quinn.Streams.{View}
use nesquic.Common.Client.{run_client}
use nesquic.Prelude.{
  ℕ, String, Outcome, ok, err, some, none, [], ◌∷◌, ◌≡◌, ◌↔◌, refl, arith, false, true, panic, map,
  Returns, List,
}
use nesquic.Bin.{ClientArgs}
use nesquic.Net.{v6}
use nesquic.Common.Client.{run_and_measure}
use nesquic.Quinn.Exchange.{client_end, blank}
use nesquic.Quinn.Client.{Client}
use nesquic.Quinn.Server.{Handled, stream, application_closed, connection_error}
use nesquic.Quinn.Connect.{new, connect}
use nesquic.Quinn.Connect.Panics.{connect-panic}
use nesquic.Quinn.Listen.{Server, Incoming, listen}
use nesquic.Quinn.Listen.Spawned.{opened_on, listen-opened}
use nesquic.Quinn.Program.{client_impl}
use nesquic.Quinn.Program.Measured.{exchanged, run_and_measure-server}
use nesquic.Quinn.Program.Memory.{memory_crates, bind_any, still}

abbrev args : ClientArgs
args = record {
  url = record { host_str = some "localhost"; port = none };
  unencrypted = false;
  cert = "cert.pem";
  blob = "3B";
}

abbrev three : String → Outcome ℕ
three blob = ok 3

abbrev made : Client (Unit {0})
made = record { args = args; conn = false; config = tt }

new_client : new memory_crates bind_any args blank ≡ (ok made, blank)
unfolding new
new_client = refl

connected_client :
    connect memory_crates bind_any made blank ≡ (ok (record made { conn = true }), blank)
unfolding connect
connected_client = refl

run_and_measure-server_example :
    run_and_measure
      (client_impl client_end (λ v. (some tt, v)) three memory_crates bind_any)
      still
      no_floats
      three
      args
      blank
    ≡ (ok (record { deltas = 0 ∷ []; start = none; num_bytes = 3 ∷ [] }), exchanged 3)
run_and_measure-server_example =
    run_and_measure-server memory_crates bind_any still no_floats three args 3 made
      (record made { conn = true }) blank blank blank refl (omega arith) new_client connected_client
      refl

connect-panic_example :
    ((connect memory_crates bind_any made blank).0 ≡ panic) ↔ (made.args.url.host_str ≡ none)
connect-panic_example = connect-panic memory_crates bind_any (λ addr w. tt) made blank

abbrev server : Server (Unit {0})
server = record {
  args = record { unencrypted = false; key = "key.pem"; cert = "cert.pem"; listen = v6 0 4433 };
  config = tt;
}

-- A connection with two streams, one that is not established, and one that breaks.
abbrev incoming : List (Incoming ℕ)
incoming =
    (ok tt, stream 4 ∷ stream 8 ∷ application_closed ∷ [])
    ∷ (err "handshake", [])
    ∷ (ok tt, stream 0 ∷ connection_error "reset" ∷ [])
    ∷ []

listen-opened_example :
    Returns
      (listen memory_crates bind_any true incoming server blank).0
      (λ handled. map (λ (h : Handled ℕ). h.spawned) handled ≡ map opened_on incoming)
listen-opened_example =
    listen-opened memory_crates bind_any true incoming server blank blank blank blank (v6 0 4433)
      refl refl refl

-- A peer that sends two bytes.
abbrev answering : Crates View
answering = record memory_crates { established = λ connecting v. (some tt, two_sent) }

abbrev two : String → Outcome ℕ
two blob = ok 2

abbrev received : View
received = record two_sent { written = to_bytes (record { size = 2 }); finished = true }

two_received :
    run_client
      (client_impl server_end (λ v. (some tt, v)) two answering bind_any)
      still
      no_floats
      two
      args
      blank
    ≡ (ok tt, received)
unfolding run_client run_and_measure parse_request len new connect run start_measurement add_bytes
    stop_measurement get_last? set_last
two_received = refl

run_client-IsExchanged_example :
    (request : Request) × (before u u' : View) × (parse_request two args.blob ≡ ok request)
    × (◌≡◌ {A = Option (Unit {0}) × View} (some tt, before) (some tt, u))
    × IsExchanged request u u'
    × (received ≡ u')
run_client-IsExchanged_example =
    run_client-IsExchanged server_laws (λ v. (some tt, v)) two answering bind_any still no_floats
      args blank received two_received
