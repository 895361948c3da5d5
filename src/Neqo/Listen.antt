-- ===== src/Neqo/Listen.antt =====
-- `Server::listen` of iut/neqo/src/server.rs: the loop around `process_all_events`. The loop has no
-- end of its own, so a number bounds its rounds; others bound the loops inside a round.
pub mod Rounds
mod Tests
use nesquic.Prelude.{
  ℕ, Bool, Option, Outcome, some, stuck, if◌then◌else◌, none, ok, suc, err, zero, panic,
}
use nesquic.Prelude.Tasks.{Task, ◌>>=◌, pure, fail, lift, or_fail}
use nesquic.Neqo.Transport.{Transport}
use nesquic.Neqo.Server.{StreamStates, empty, process_all_events}
use nesquic.Neqo.Driver.{
  Output, datagram_batch, callback, nothing, IoResult, done, would_block, failed, Wake, readable,
  timer,
}

-- What `listen` uses of `neqo_transport::server::Server`, of the socket and of tokio. A call returns
-- `none` for `Err`.
pub record Endpoint (World : Type 0) : Type 1 where
  pub Datagram : Type 0
  pub process_output : World → Output Datagram × World
  pub has_active_connections : World → Bool
  pub process : Datagram → World → Output Datagram × World
  pub send_to : Datagram → World → Option (Unit {0}) × World
  -- a datagram with its source and the local address
  pub try_recv_from : World → IoResult Datagram × World
  pub select : Option ℕ → World → Wake × World

module _ {World : Type 0} (endpoint : Endpoint World) where
  open endpoint use {
    Datagram, process_output, has_active_connections, process, send_to, try_recv_from, select,
  }

  -- "Drive output: send pending UDP datagrams." The timeout is returned.
  after_output : Task World (Option ℕ) → Output Datagram → Task World (Option ℕ)
  after_output again (datagram_batch x) = do _ ← or_fail (send_to x) "send datagram"; again
  after_output again (callback dur) = pure (some dur)
  after_output again nothing = pure none

  drain_output : ℕ → Task World (Option ℕ)
  drain_output zero w = (stuck, w)
  drain_output (suc fuel) w =
      after_output (drain_output fuel) (process_output w).0 (process_output w).1

  -- "process() feeds input and returns at most one output datagram."
  reply : Output Datagram → Task World (Unit {0})
  reply (datagram_batch x) = or_fail (send_to x) "send datagram after input"
  reply (callback dur) = pure tt
  reply nothing = pure tt

  after_recv_from : IoResult Datagram → Task World (Unit {0})
  after_recv_from (done x) = λ w. reply (process x w).0 (process x w).1
  after_recv_from would_block = pure tt
  after_recv_from failed = fail "recv_from"

  after_select : Wake → Task World (Unit {0})
  after_select (readable none) = fail "socket readable"
  after_select (readable (some _)) = λ w. after_recv_from (try_recv_from w).0 (try_recv_from w).1
  after_select timer = pure tt

  next_datagram : Option ℕ → Task World (Unit {0})
  next_datagram timeout w = after_select (select timeout w).0 (select timeout w).1

  -- "If connections still have events, loop immediately."
  unless_active : Option ℕ → Task World (Unit {0})
  unless_active timeout w = if has_active_connections w then (ok tt, w) else next_datagram timeout w

  -- A round behind the events.
  unfoldable pub exchange_datagrams : ℕ → Task World (Unit {0})
  unfolding drain_output after_output unless_active next_datagram after_select after_recv_from reply
  exchange_datagrams fuel = do timeout ← drain_output fuel; unless_active timeout

module _ (t : Transport) (endpoint : Endpoint t.World) where
  open t use {World}

  -- The events of a round, where the handlers change the states too. What a handler that panics has
  -- changed is not kept.
  settle : Outcome (StreamStates × World) → Task (World × StreamStates) (Unit {0})
  settle (ok (states, w)) x = (ok tt, (w, states))
  settle (err e) x = (err e, x)
  settle panic x = (panic, x)
  settle stuck x = (stuck, x)

  process_events : ℕ → ℕ → Task (World × StreamStates) (Unit {0})
  process_events events fuel (w, states) =
      settle (process_all_events t events fuel states w) (w, states)

  exchange : ℕ → Task (World × StreamStates) (Unit {0})
  exchange fuel (w, states) = let (r, w') = exchange_datagrams endpoint fuel w in (r, (w', states))

  -- `rounds` bounds the loop, `events` the events of a connection and `fuel` the other loops.
  unfoldable pub serve_rounds : ℕ → ℕ → ℕ → Task (World × StreamStates) (Unit {0})
  unfolding process_events settle exchange
  serve_rounds zero events fuel = lift stuck
  serve_rounds (suc rounds) events fuel = do
    _ ← process_events events fuel
    _ ← exchange fuel
    serve_rounds rounds events fuel

  -- The whole of `listen`, over what binds the socket and makes the anti-replay context and the server.
  module _ (bind create_anti_replay create_server : Task World (Unit {0})) where
    with_states : Task (World × StreamStates) (Unit {0}) → Task World (Unit {0})
    with_states m w = let (r, (w', states)) = m (w, empty) in (r, w')

    unfoldable pub listen : ℕ → ℕ → ℕ → Task World (Unit {0})
    unfolding with_states
    listen rounds events fuel = do
      _ ← bind
      _ ← create_anti_replay
      _ ← create_server
      with_states (serve_rounds rounds events fuel)
