-- ===== src/Msquic/Client/Tests.antt =====
-- Runs of the client and the server over a library that keeps what is sent.
use nesquic.Prelude.{
  All, ◌++◌, ◌==◌, ℕ, ◌*◌, ◌/◌, ◌^◌, ◌≡◌, refl, true, some, List, [], ◌∷◌, length, take, replicate,
  ltb, if◌then◌else◌, Outcome, ok, Returns, arith, none,
}
use nesquic.Text.{Text, codes, eq_text}
use nesquic.Perf.Blob.{to_bytes, of_bytes}
use nesquic.Msquic.Server.Streams.{Gathers, Spares, bytes_on, callbacks-Gathers}
use nesquic.Msquic.Library.{peer_stream_started, receive, MsQuic, connected, total_buffer_length}
use nesquic.Msquic.Common.{make_client_configuration}
use nesquic.Msquic.Protocol.{
  request_to_bytes, write_from, blob_bytes_from_string, by_prefix, scaled, read_digits,
}
use nesquic.Msquic.Protocol.Wire.{request_to_bytes-to_bytes}
use nesquic.Msquic.Protocol.Decimals.{decimal, mega, factor, blob_bytes_from_string-decimal}
use nesquic.Msquic.Server
use nesquic.Msquic.Server.{new, u32}
use nesquic.Msquic.Server.Served.{bytes_of, flatten, receives, receives-served}
use nesquic.Msquic.Client.{
  on_connection, run_client, configured, opened, started, after_wait, wait, callback,
  stream_callback, connection_callback, after_open, after_start, after_send, Callback, parse_url,
  after_scheme, until_slash, at_last_colon,
}
use nesquic.Msquic.Program.{parse_args, no_args, flag_of}
use nesquic.Msquic.Client.Verdict.{IsVerified, run_client-IsVerified}
use nesquic.Msquic.Client.Exchange.{parts, run_client-exit}

abbrev keeping : MsQuic
keeping = record {
  World = List (List ℕ);
  stream_open = λ connection w. (some 4, w);
  stream_start = λ stream w. (true, w);
  stream_send = λ stream bytes w. (true, bytes ∷ w);
  stream_shutdown = λ stream w. w;
  stream_close = λ stream w. w;
  open_library = λ w. (true, w);
  registration_open = λ w. (true, w);
  registration_close = λ w. w;
  close_library = λ w. w;
  listener_open = λ config w. (some 3, w);
  listener_start = λ listener alpn port w. (true, w);
  listener_close = λ listener w. w;
  connection_open = λ w. (some 1, w);
  connection_start = λ connection config host port w. (true, w);
  connection_shutdown = λ connection w. w;
  accept = λ connection w. w;
  connection_set_configuration = λ connection config w. (true, w);
  connection_close = λ connection w. w;
  configuration_open = λ alpn settings w. (some 2, w);
  configuration_load_credential = λ config credential w. (true, w);
  configuration_close = λ config w. w;
}

abbrev five : List ℕ
five = 0 ∷ 0 ∷ 0 ∷ 0 ∷ 0 ∷ 0 ∷ 0 ∷ 5 ∷ []

request_to_bytes-to_bytes_example : request_to_bytes 5 ≡ to_bytes (record { size = 5 })
request_to_bytes-to_bytes_example = request_to_bytes-to_bytes (record { size = 5 })

blob_bytes_from_string-decimal_example :
    blob_bytes_from_string (codes "50Mbit") ≡ some (decimal 0 (codes "50") * factor mega / 8)
unfolding decimal
blob_bytes_from_string-decimal_example =
    blob_bytes_from_string-decimal (codes "50") mega (refl, (refl, tt)) (omega arith) (omega arith)

-- The request arrives in two events.
abbrev asked : List (List (List ℕ))
asked = ((0 ∷ 0 ∷ 0 ∷ []) ∷ (0 ∷ 0 ∷ []) ∷ []) ∷ ((0 ∷ 0 ∷ 5 ∷ []) ∷ []) ∷ []

receives-served_example : (receives keeping 4 asked new []).1 ≡ (
    if ltb (length (bytes_of asked)) 8
    then []
    else Server.after_send keeping 4
        (keeping.stream_send 4 (replicate (u32 (of_bytes (take 8 (bytes_of asked))).size) 0) []))
unfolding bytes_of flatten
receives-served_example = receives-served keeping 4 asked [] (
  omega arith,
  (
    omega arith,
    (omega arith, (omega arith, (omega arith, (omega arith, (omega arith, (omega arith, tt)))))),
  ),
)

abbrev stoi : Text → Outcome ℕ
stoi t = ok 4433

-- The response arrives in two events.
abbrev answered : List (List (List ℕ))
answered = ((0 ∷ 0 ∷ []) ∷ []) ∷ ((0 ∷ []) ∷ (0 ∷ 0 ∷ []) ∷ []) ∷ []

abbrev calls : List Callback
calls = on_connection 1 connected ∷ parts 1 4 answered

forty : blob_bytes_from_string (codes "40bit") ≡ some 5
unfolding blob_bytes_from_string eq_text by_prefix scaled read_digits
forty = refl

local : parse_url stoi (codes "https://a:4433/b") ≡ ok (codes "a", 4433)
unfolding parse_url after_scheme until_slash at_last_colon eq_text
local = refl

configures : make_client_configuration keeping (codes "c") [] ≡ (some 2, [])
unfolding make_client_configuration
configures = refl

run_client-exit_example :
    Returns
      (run_client keeping stoi calls (codes "c") (codes "40bit") (codes "https://a:4433/b") [])
      (λ r. r.0 ≡ (if ltb 5 (2 ^ 32) then 0 else 1))
unfolding bytes_of flatten
run_client-exit_example =
    run_client-exit keeping stoi 4 1 2 5 (codes "c") (codes "40bit") (codes "https://a:4433/b")
      (codes "a", 4433) answered [] [] [] [] forty (omega arith) configures local refl refl refl

-- The client returns 0, and has sent the request.
runs :
    run_client keeping stoi calls (codes "c") (codes "40bit") (codes "https://a:4433/b") []
    ≡ ok (0, five ∷ [])
unfolding run_client configured opened started after_wait wait callback stream_callback
    connection_callback after_open after_start after_send make_client_configuration parse_url
    after_scheme until_slash at_last_colon eq_text blob_bytes_from_string by_prefix scaled
    read_digits parts total_buffer_length request_to_bytes write_from
runs = refl

run_client-IsVerified_example :
    (size : ℕ) × (blob_bytes_from_string (codes "40bit") ≡ some size) × IsVerified 0 size calls
run_client-IsVerified_example =
    run_client-IsVerified keeping stoi calls (codes "c") (codes "40bit") (codes "https://a:4433/b")
      [] (five ∷ []) runs

-- An address without a port is cut within its brackets.
cut_address : parse_url stoi (codes "https://[::1]") ≡ ok (codes "[:", 4433)
unfolding parse_url after_scheme until_slash at_last_colon eq_text
cut_address = refl

-- A second stream starts between two parts of a request.
abbrev mixed : List Server.Callback
mixed =
    Server.on_stream 4 (receive ((0 ∷ 0 ∷ 0 ∷ []) ∷ []))
    ∷ Server.on_connection 1 (peer_stream_started 8)
    ∷ Server.on_stream 8 (receive ((1 ∷ 1 ∷ []) ∷ []))
    ∷ Server.on_stream 4 (receive ((0 ∷ 0 ∷ 0 ∷ 0 ∷ 5 ∷ []) ∷ []))
    ∷ []

one_stream : Server.Contexts
one_stream i = if i == 4 then some new else none

starts_empty : Gathers 4 [] one_stream
unfolding Gathers one_stream
starts_empty = (new, refl, refl)

spared : All (Spares 4) mixed
spared = (tt, ((λ e. absurd (omega arith)), (tt, (tt, tt))))

callbacks-Gathers_example :
    Gathers 4
      (take 8 ([] ++ bytes_on 4 mixed))
      (Server.callbacks keeping 2 mixed (one_stream, [])).0
callbacks-Gathers_example =
    callbacks-Gathers keeping 2 4 mixed [] (one_stream, []) (omega arith) spared starts_empty

-- Flags before their values, and the address anywhere.
parsed_flags :
    parse_args
      (codes "https://a" ∷ codes "-b" ∷ codes "40bit" ∷ codes "--cert" ∷ codes "c" ∷ [])
      no_args
      []
    ≡ some (record { cert = codes "c"; key = []; blob = codes "40bit" }, codes "https://a" ∷ [])
unfolding parse_args flag_of eq_text
parsed_flags = refl

missing_value : parse_args (codes "--key" ∷ []) no_args [] ≡ none
unfolding parse_args flag_of eq_text
missing_value = refl
