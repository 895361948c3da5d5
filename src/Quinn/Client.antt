-- ===== src/Quinn/Client.antt =====
-- iut/quinn/src/client.rs (and iut/noq/src/client.rs): the measured section of a run.
pub mod Laws
use nesquic.Prelude.{
  ℕ, ◌-◌, ◌^◌, ◌==◌, if◌then◌else◌, Option, none, some, List, length, Outcome, String, Bool,
}
use nesquic.Prelude.Tasks.{Task, ◌>>=◌, lift, fail, pure, or_fail}
use nesquic.Bin.{ClientArgs}
use nesquic.Perf.Blob.{Request, to_bytes, len, parse_request}
use nesquic.Quinn.Streams.{Streams}

-- Of the connection it is known whether `connect` has stored one.
pub record Client (Config : Type 0) : Type 0 where
  pub args : ClientArgs
  pub conn : Bool
  pub config : Config

module _ (s : Streams) (open_bi : s.World → Option (Unit {0}) × s.World)
    (parse : String → Outcome ℕ) where
  open s use {World, read_to_end, write, finish}

  -- `request.len() != resp.len()` is an error.
  verify : Request → List ℕ → Task World (Unit {0})
  verify request resp =
      if len request == length resp
      then pure tt
      else fail "received blob size different from requested blob size"

  -- What follows the opening of the stream, in parts.
  read_and_verify : Request → Task World (Unit {0})
  read_and_verify request = do
    resp ← or_fail (read_to_end (2 ^ 64 - 1)) "failed to read response"
    verify request resp

  finish_and_read : Request → Task World (Unit {0})
  finish_and_read request = do
    _ ← or_fail finish "failed to shutdown stream"
    read_and_verify request

  exchange : Request → Task World (Unit {0})
  exchange request = do
    _ ← or_fail (write (to_bytes request)) "failed to send request"
    finish_and_read request

  parse_and_exchange : String → Task World (Unit {0})
  parse_and_exchange blob = do request ← lift (parse_request parse blob); exchange request

  request_blob : String → Task World (Unit {0})
  request_blob blob = do _ ← or_fail open_bi "failed to open stream"; parse_and_exchange blob

  unfoldable pub run : {Config : Type 0} → Client Config → Task World (Unit {0})
  unfolding request_blob parse_and_exchange exchange finish_and_read read_and_verify verify
  run client = if client.conn then request_blob client.args.blob else fail "not connected"
