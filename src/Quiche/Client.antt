-- ===== src/Quiche/Client.antt =====
-- iut/quiche/src/client.rs. `run` hands its request to the `Benchmark` of the connection through a
-- channel and waits on a one-shot channel, so it is given in two parts.
pub mod Session
use nesquic.Prelude.{
  ℕ, String, Bool, true, false, Option, none, some, List, [], ◌∷◌, ◌++◌, Outcome, ok, err, head?,
  unwrap_or, ◌>>=◌, if◌then◌else◌,
}
use nesquic.Perf.Blob.{parse_request, Request}
use nesquic.Bin.{ClientArgs}
use nesquic.Quiche.Benchmark.{Benchmark}

-- Of the connection and of the sending end of the channel it is known whether they are there.
pub record Client : Type 0 where
  pub args : ClientArgs
  pub conn : Bool
  pub send : Bool

abbrev pub new : ClientArgs → Client
new args = record { args = args; conn = false; send = false }

-- `send.send((0, request, tx))?`, which fails when the `Benchmark` is gone.
unfoldable pub send_request : ℕ → Request → Option Benchmark → Outcome Benchmark
send_request tx request none = err "channel closed"
send_request tx request (some b) = ok (record b { reqs = b.reqs ++ ((0, request, tx) ∷ []) })

-- `run` up to `rx.await`.
unfoldable pub submit : (String → Outcome ℕ) → ℕ → Client → Option Benchmark → Outcome Benchmark
unfolding send_request
submit parse tx client app =
    if client.send
    then (do request ← parse_request parse client.args.blob; send_request tx request app)
    else err "not connected"

-- `rx.await?`: the one-shot channel has been sent to, or its sender is gone.
unfoldable pub awaited : Bool → Outcome (Unit {0})
awaited true = ok tt
awaited false = err "channel closed"
