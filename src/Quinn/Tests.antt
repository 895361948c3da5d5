-- ===== src/Quinn/Tests.antt =====
-- Runs of the server of iut/quinn on small inputs.
use nesquic.Quinn.Streams.{View}
use nesquic.Prelude.{◌<◌, ◌↔◌, ◌≢◌, ◌*◌, panic, none, length, ok, true, ◌∷◌, [], ◌≡◌, false, refl}
use nesquic.Quinn.Server.{handle_request}
use nesquic.Quinn.Server.Laws.{IsServed, handle_request-IsServed, handle_request-panic}
use nesquic.Quinn.Program.Memory.{server_laws}
use nesquic.Quinn.Exchange.{server_end}
use nesquic.Perf.Blob.{try_from, from_iter, next_byte}
use nesquic.Perf.Bytes.{from_be_bytes}

-- A request for two bytes, as the server has it.
abbrev two_bytes : View
two_bytes = record {
  incoming = (0 ∷ 0 ∷ 0 ∷ 0 ∷ 0 ∷ 0 ∷ 0 ∷ 2 ∷ []);
  written = [];
  finished = false;
}

abbrev two_served : View
two_served = record two_bytes { written = (0 ∷ 0 ∷ []); finished = true }

handle_request-two : handle_request server_end two_bytes ≡ (ok tt, two_served)
unfolding handle_request try_from from_iter next_byte from_be_bytes
handle_request-two = refl

handle_request-IsServed_example : IsServed two_bytes two_served
handle_request-IsServed_example =
    handle_request-IsServed server_laws two_bytes two_served handle_request-two

-- A request that stops after three bytes.
abbrev cut_short : View
cut_short = record two_bytes { incoming = (0 ∷ 0 ∷ 0 ∷ []) }

handle_request-panic_example :
    ((handle_request server_end cut_short).0 ≡ panic)
    ↔ (((server_end.read_to_end (64 * 1024) cut_short).0 ≢ none) × (length cut_short.incoming < 8))
handle_request-panic_example = handle_request-panic server_laws cut_short
