-- ===== src/Neqo/Tests.antt =====
-- Runs of the client of iut/neqo over the driver in memory.
use nesquic.Common.Client.{run_client, run_and_measure}
use nesquic.Perf.Stats.{start_measurement, add_bytes, stop_measurement, get_last?, set_last}
use nesquic.Perf.Stats.Memory.{no_floats}
use nesquic.Neqo.Program.{client_impl, new}
use nesquic.Neqo.Program.Fetched.{run_client-IsFetched}
use nesquic.Prelude.{
  ℕ, ◌≡◌, refl, [], ◌∷◌, String, Outcome, false, some, true, none, ok, Option, Bool, List, arith,
}
use nesquic.Neqo.Driver.{fresh, View}
use nesquic.Bin.{Url}
use nesquic.Neqo.Connect.{connect, connect_host, connect_to, open_connection, bind_addr, establish}
use nesquic.Neqo.Client.{
  run, send_request, close_and_receive, receive_and_verify, receive, returning, verify,
  request_blob, check_response, drain_events, on_response, take_event, after_event, read_response,
  after_read, add_received, set_done, check_connected, on_connect,
}
use nesquic.Neqo.Drive.{
  drive_until, round, unless_done, drain_output, after_output, unless_events, wait, after_wake,
  recv_all, recv, no_data, after_recv,
}
use nesquic.Perf.Blob.{parse_request, len, Request}
use nesquic.Net.{v4, SocketAddr}
use nesquic.Neqo.Client.Events.{event, silent, verdict, check_connected-verdict}
use nesquic.Neqo.Driver.{authentication_needed, connected}
use nesquic.Prelude.{zero, suc}
use nesquic.Neqo.Client.{Client}
use nesquic.Neqo.Loopback.{Host, loopback, loopback-IsDriver}
use nesquic.Perf.Blob.{to_bytes}
use nesquic.Perf.Bytes.{to_be_bytes}
use nesquic.Neqo.Drive.Rounds.{Advances}
use nesquic.Prelude.Tasks.{Task}
use nesquic.Neqo.Client.Run.{IsFetched}
use nesquic.Neqo.Connect.{connect_host, connect_to, open_connection, bind_addr, establish}

-- A response of three bytes is to come, in two packets.
abbrev waiting : Host
waiting = record {
  queue = [];
  network = (0 ∷ 0 ∷ []) ∷ (0 ∷ []) ∷ [];
  ready = false;
  inbox = [];
  seen = fresh;
}

abbrev url : Url
url = record { host_str = some "localhost"; port = none }

abbrev client : Client
client = record {
  args = record { url = url; unencrypted = false; cert = ""; blob = "3B" };
  conn = true;
  socket = true;
  local_addr = some (v4 1 2);
}

abbrev three : String → Outcome ℕ
three blob = ok 3

abbrev fetched : View
fetched = record {
  sent = to_bytes (record { size = 3 });
  closed = true;
  read = 0 ∷ 0 ∷ 0 ∷ [];
  ended = true;
}

abbrev after : Host
after = record { queue = []; network = []; ready = false; inbox = []; seen = fetched }

-- A closure that counts down, on a connection that stays idle.
IsIdle : Host → Type 0
IsIdle w = round loopback 9 w ≡ (ok tt, w)

count_down : Task (Host × ℕ) Bool
count_down (w, zero) = (ok true, (w, zero))
count_down (w, suc n) = (ok false, (w, n))

counting : Advances loopback (λ x. IsIdle x.0) (λ x. x.1) 9 count_down
unfolding count_down IsIdle
counting (w, zero) h = (true, w, zero, refl, λ e. cc)
counting (w, suc n) h = (false, w, n, refl, λ _. (w, h, h, omega arith))

abbrev quiet : Host
quiet = record after { ready = true }

quiet-IsIdle : IsIdle quiet
unfolding IsIdle round drain_output after_output unless_events wait after_wake recv_all recv no_data
    after_recv
quiet-IsIdle = refl

counted : drive_until loopback 5 9 count_down (quiet, 1) ≡ (ok tt, (quiet, 0))
unfolding drive_until round drain_output after_output unless_events wait after_wake recv_all recv
    no_data after_recv unless_done count_down
counted = refl

-- The events of a handshake that succeeds.
abbrev handshake : Host
handshake = record quiet { queue = authentication_needed ∷ connected ∷ [] }

check_connected-verdict_example :
    (check_connected loopback 3 (handshake, false)).0
    ≡ verdict false (authentication_needed ∷ connected ∷ [])
check_connected-verdict_example =
    check_connected-verdict loopback 3 false handshake (authentication_needed ∷ connected ∷ [])
      (event refl (event refl (silent refl))) (omega arith)

-- A client that is not connected yet, a resolver, and calls that succeed.
abbrev new_client : Client
new_client = record client { conn = false; socket = false; local_addr = none }

abbrev resolve : String → ℕ → Host → Option (List SocketAddr) × Host
resolve host port w = (some (v4 127 port ∷ []), w)

abbrev bound : SocketAddr → Task Host SocketAddr
bound addr w = (ok addr, w)

abbrev opened : String → SocketAddr → SocketAddr → Host → Option (Unit {0}) × Host
opened host local remote w = (some tt, w)

-- The handshake, and then the response.
abbrev arriving : Host
arriving = record waiting { queue = authentication_needed ∷ connected ∷ [] }

program_three :
    run_client
      (client_impl loopback (λ w. (some tt, w)) resolve bound opened three 9 9)
      (λ w. (0, w))
      no_floats
      three
      client.args
      arriving
    ≡ (ok tt, after)
unfolding run_client run_and_measure start_measurement add_bytes stop_measurement get_last? set_last
    new connect connect_host connect_to open_connection bind_addr establish check_connected
    on_connect run send_request close_and_receive receive_and_verify receive returning verify
    request_blob check_response drain_events on_response take_event after_event read_response
    after_read add_received set_done drive_until round unless_done drain_output after_output
    unless_events wait after_wake recv_all recv no_data after_recv parse_request to_bytes len
    to_be_bytes
program_three = refl

run_client-IsFetched_example :
    (request : Request) × (u : Host) × (i : ℕ) × (parse_request three "3B" ≡ ok request)
    × IsFetched request (loopback-IsDriver.view u i)
    × (after ≡ u)
run_client-IsFetched_example =
    run_client-IsFetched loopback-IsDriver (λ w. (some tt, w)) resolve bound opened three 9 9
      (λ w. (0, w)) no_floats client.args arriving after program_three
