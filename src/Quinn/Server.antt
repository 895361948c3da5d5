-- ===== src/Quinn/Server.antt =====
-- iut/quinn/src/server.rs (and iut/noq/src/server.rs): a request and a connection.
pub mod Laws
use nesquic.Prelude.{ℕ, ◌*◌, List, [], ◌∷◌, Outcome, ok, err, String, Option, none, some}
use nesquic.Prelude.Tasks.{Task, ◌>>=◌, lift, or_fail, map_err}
use nesquic.Perf.Blob.{try_from, from_iter}
use nesquic.Quinn.Streams.{Streams}

module _ (s : Streams) where
  open s use {World, read_to_end, write, finish}

  -- The parts of `handle_request` behind the iteration of the blob, and behind the reading.
  respond : List ℕ → Task World (Unit {0})
  respond payload = do
    _ ← or_fail (write payload) "failed to send response"
    or_fail finish "failed to shutdown stream"

  serve : List ℕ → Task World (Unit {0})
  serve req = do
    blob ← lift (map_err "failed handling request" (try_from req))
    payload ← lift (from_iter blob)
    respond payload

  unfoldable pub handle_request : Task World (Unit {0})
  unfolding serve respond
  handle_request = do req ← or_fail (read_to_end (64 * 1024)) "failed reading request"; serve req

-- What `accept_bi` returns: a stream, the peer's close at the application layer, or another error.
pub data Accepted (Stream : Type 0) : Type 0 where
  stream : Stream → Accepted Stream
  application_closed : Accepted Stream
  connection_error : String → Accepted Stream

-- What the loop of `handle_connection` has done with what `accept_bi` returned so far: the streams
-- that it has spawned a handler for, and how it ended, if it has.
pub record Handled (Stream : Type 0) : Type 0 where
  pub spawned : List Stream
  pub ended : Option (Outcome (Unit {0}))

module _ {Stream : Type 0} where
  spawn : Stream → Handled Stream → Handled Stream
  spawn x rest = record rest { spawned = x ∷ rest.spawned }

  accept_loop : List (Accepted Stream) → Handled Stream
  unfolding spawn
  accept_loop [] = record { spawned = []; ended = none }
  accept_loop (stream x ∷ rest) = spawn x (accept_loop rest)
  accept_loop (application_closed ∷ rest) = record { spawned = []; ended = some (ok tt) }
  accept_loop (connection_error e ∷ rest) = record { spawned = []; ended = some (err e) }

  -- `conn.await?`, and then the loop.
  unfoldable pub handle_connection : Outcome (Unit {0}) → List (Accepted Stream) → Handled Stream
  unfolding accept_loop
  handle_connection (ok _) accepted = accept_loop accepted
  handle_connection other accepted = record { spawned = []; ended = some other }
