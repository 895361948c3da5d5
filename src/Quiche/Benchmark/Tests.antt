-- ===== src/Quiche/Benchmark/Tests.antt =====
-- Runs of the client and of the server of iut/quiche on small inputs.
use nesquic.Prelude.{
  ℕ, zero, suc, Bool, true, false, Option, none, some, List, [], ◌∷◌, length, ◌≡◌, refl, String,
  Outcome, ok, err, ◌++◌,
}
use nesquic.Bin.{ClientArgs}
use nesquic.Net.{v6, v4}
use nesquic.Perf.Blob.{Request, parse_request}
use nesquic.Quiche.Connection.{Connection, IsChannelled, Unseen, SeenEnd}
use nesquic.Quiche.Crates.{Crates}
use nesquic.Quiche.Benchmark.{
  Benchmark, new, process_reads, process_writes, set, after_recv, read_stream, read_streams,
  handle_recv, complete, notified, write_first, write_request, write_responses, sent_request,
  finish, remove_all, fresh_buf,
}
use nesquic.Quiche.Client.{Client, submit, awaited, send_request}
use nesquic.Quiche.Client.Session.{Reach, submits, reads, writes, returns, start, next, returned}
use nesquic.Quiche.Client.Session.Ended.{returned-ended}
use nesquic.Prelude.{Returns, arith}
use nesquic.Quiche.Benchmark.Notices.{last, IsNotified, process_reads-IsNotified}
use nesquic.Quiche.Connect.{connect}
use nesquic.Quiche.Connect.Submits.{connect-submit}
use nesquic.Quiche.Server.{Server, listen}
use nesquic.Quiche.Server.Started.{listen-started}

-- Whether the end of the response was read, and whether the client was told.
abbrev Progress : Type 0
Progress = Bool × Bool

receive : ℕ → Progress → Option (List ℕ × Bool) × Progress
receive zero (false, told) = (some ([], true), (true, told))
receive zero (true, told) = (none, (true, told))
receive (suc i) w = (none, w)

abbrev loop : Connection
loop = record {
  World = Progress;
  is_server = λ w. false;
  readable = λ w. 0 ∷ [];
  stream_recv = receive;
  stream_send = λ i bytes w. (some (length bytes), w);
  notify = λ tx w. (some tt, (w.0, true));
}

abbrev was_told : Progress → ℕ → Bool
was_told w t = w.1

abbrev was_ended : Progress → ℕ → Bool
was_ended w j = w.0

receive-Unseen : (i : ℕ) (w : Progress) → Unseen was_ended was_told w (receive i w).1
unfolding receive
receive-Unseen zero (false, told) = (λ j e. refl, λ t e. e)
receive-Unseen zero (true, told) = (λ j e. e, λ t e. e)
receive-Unseen (suc i) w = (λ j e. e, λ t e. e)

receive-SeenEnd : (i : ℕ) (w : Progress) → SeenEnd was_ended i (receive i w).0 (receive i w).1
unfolding receive
receive-SeenEnd zero (false, told) = λ e. refl
receive-SeenEnd zero (true, told) = tt
receive-SeenEnd (suc i) w = tt

abbrev loop_laws : IsChannelled loop
loop_laws = record {
  ended = was_ended;
  told = was_told;
  recv_role = λ i w. refl;
  recv_unseen = receive-Unseen;
  recv_end = receive-SeenEnd;
  send_role = λ i bytes w. refl;
  send_unseen = λ i bytes w. (λ j e. e, λ t e. e);
  notify_role = λ t w. refl;
  notify_ended = λ t w j e. e;
}

abbrev client_args : ClientArgs
client_args = record {
  url = record { host_str = some "localhost"; port = none };
  unencrypted = false;
  cert = "cert.pem";
  blob = "0B";
}

abbrev client : Client
client = record { args = client_args; conn = true; send = true }

abbrev nothing : String → Outcome ℕ
nothing blob = ok 0

abbrev request : Request
request = record { size = 0 }

abbrev submitted : Benchmark
submitted = record new { reqs = (0, request, 7) ∷ [] }

submits_request : submit nothing 7 client (some new) ≡ ok submitted
unfolding submit send_request parse_request
submits_request = refl

-- The request is sent and waited for, …
abbrev written : Benchmark
written = record new { pending_req = set 0 (some 7) new.pending_req }

writes_request : process_writes loop [] submitted (false, false) ≡ ok (written, (false, false))
unfolding process_writes write_request write_first sent_request write_responses finish remove_all
writes_request = refl

-- … and after the end of the response it is not.
abbrev answered : Benchmark
answered = record new { pending_req = set 0 none written.pending_req }

reads_end : process_reads loop 2 written (false, false) ≡ ok (fresh_buf, answered, (true, true))
unfolding process_reads read_streams read_stream after_recv handle_recv complete notified receive
    set
reads_end = refl

run_to_end :
    Reach loop_laws nothing client 7
      (record { phase = returned; app = answered; world = (true, true) })
unfolding awaited
run_to_end =
    next
      (next
        (next (next (start refl (λ t. refl)) (submits submits_request)) (writes [] writes_request))
        (reads 2 reads_end))
      (returns refl)

returned-ended_example : true ≡ true
returned-ended_example =
    returned-ended loop_laws nothing client 7
      (record { phase = returned; app = answered; world = (true, true) }) run_to_end refl

-- Libraries that keep which connections were started.
abbrev memory_crates : Crates (List ℕ)
memory_crates = record {
  InitialConnection = ℕ;
  to_socket_addrs = λ host port w. (some (v4 0 port ∷ []), w);
  bind = λ addr w. (some tt, w);
  connect_socket = λ addr w. (some tt, w);
  quic_socket = λ w. (some tt, w);
  connect_with_config = λ alpn w. (some tt, w);
  listen = λ alpn cert key w. (some tt, w);
  start = λ conn app w. w ++ (conn ∷ []);
}

abbrev server : Server
server = record {
  args = record { unencrypted = false; key = "key.pem"; cert = "cert.pem"; listen = v6 0 4433 };
}

-- The third connection fails.
listen-started_example :
    listen memory_crates (some 4 ∷ some 8 ∷ none ∷ some 9 ∷ []) server [] ≡ (err "conn", 4 ∷ 8 ∷ [])
listen-started_example =
    listen-started memory_crates (some 4 ∷ some 8 ∷ none ∷ some 9 ∷ []) server [] [] [] refl refl

-- Before it is connected.
abbrev new_client : Client
new_client = record { args = client_args; conn = false; send = false }

connected_client : connect memory_crates new_client [] ≡ (ok (client, new), [])
unfolding connect
connected_client = refl

submitted_when_connected :
    submit nothing 7 client (some new) ≡ ok (record new { reqs = (0, record { size = 0 }, 7) ∷ [] })
submitted_when_connected =
    connect-submit memory_crates nothing 7 0 new_client client new [] [] connected_client refl

first_end : receive 0 (false, false) ≡ (some ([], true), (true, false))
unfolding receive
first_end = refl

nothing_more : receive 0 (true, true) ≡ (none, (true, true))
unfolding receive
nothing_more = refl

written_waits : written.pending_req 0 ≡ some 7
unfolding set
written_waits = refl

process_reads-IsNotified_example :
    Returns (process_reads loop 2 written (false, false)) (IsNotified loop_laws 0 (true, true))
process_reads-IsNotified_example =
    process_reads-IsNotified loop_laws 2 0 1 7 written (false, false) (true, false) (true, true)
      (true, true) refl refl (last first_end) (omega arith) written_waits refl nothing_more
