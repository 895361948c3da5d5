-- ===== src/Neqo/Server.antt =====
-- iut/neqo/src/server.rs: the streams of the server. A stream's state goes through the functions
-- that the source lends it to; `HashMap<StreamId, StreamState>` is a function. Loops take fuel.
pub mod Sending
pub mod Reading
mod Frame
pub mod System
pub mod Responses
pub mod Events
pub mod Shared
pub mod TwoClients
mod Finishing
mod Tests
use nesquic.Prelude.{
  ℕ, zero, suc, ◌-◌, Bool, true, false, not, ◌&&◌, ◌||◌, ◌==◌, ltb, leb, if◌then◌else◌, Option,
  none, some, List, [], ◌∷◌, ◌++◌, length, replicate, min, Outcome, ok, err, panic, stuck, ◌>>=◌,
}
use nesquic.Perf.Blob.{Blob, try_from}
use nesquic.Neqo.Transport.{
  Transport, ConnectionEvent, new_stream, recv_stream_readable, send_stream_writable, connected,
  other,
}

-- `ZERO_BUF.len()`, and the size of `read_buf` too.
abbrev pub buf_len : ℕ
buf_len = 32768

pub record StreamState : Type 0 where
  pub read_buf : List ℕ
  pub write_remaining : Option ℕ

abbrev pub new : StreamState
new = record { read_buf = []; write_remaining = none }

abbrev pub StreamStates : Type 0
StreamStates = ℕ → Option StreamState

abbrev pub empty : StreamStates
empty i = none

unfoldable pub insert : ℕ → StreamState → StreamStates → StreamStates
insert i state states j = if j == i then some state else states j

unfoldable pub is_some {ℓ} : {A : Type ℓ} → Option A → Bool
is_some none = false
is_some (some a) = true

module _ (t : Transport) where
  open t use {
    World, is_client_initiated, is_bidi, active_connections, next_event, stream_recv, stream_send,
    stream_close_send, send_ticket,
  }

  -- One round of the loop of `try_send_response` after `stream_send`: nothing taken, some bytes
  -- taken (`*remaining -= n`, which the debug profile checks), or an error.
  pub after_send :
      (ℕ → World → Outcome (Option ℕ × World)) → ℕ → Option ℕ × World → Outcome (Option ℕ × World)
  after_send again remaining (none, w) = ok (none, w)
  after_send again remaining (some n, w) =
      if n == 0
      then ok (some remaining, w)
      else if leb n remaining
      then again (remaining - n) w
      else panic

  -- `while *remaining > 0 { … }` and what follows it; the new `write_remaining` is returned.
  pub send_loop : ℕ → ℕ → ℕ → ℕ → World → Outcome (Option ℕ × World)
  send_loop zero conn i remaining w = stuck
  send_loop (suc fuel) conn i zero w = ok (none, (stream_close_send conn i w).1)
  send_loop (suc fuel) conn i (suc less) w =
      after_send (send_loop fuel conn i) (suc less)
        (stream_send conn i (replicate (min (suc less) buf_len) 0) w)

  pub try_send_response : ℕ → ℕ → StreamState → World → Outcome (StreamState × World)
  try_send_response conn i state w = elim state.write_remaining [
    | none ↦ ok (state, w)
    | some remaining ↦ do
      (left, w') ← send_loop (suc remaining) conn i remaining w
      ok (record state { write_remaining = left }, w')
  ]

  -- "if fin || n == 0 { break; }"
  after_round :
      (StreamState → World → Outcome (StreamState × World))
      → Bool
      → StreamState × World
      → Outcome (StreamState × World)
  after_round again stop (state, w) = if stop then ok (state, w) else again state w

  -- The part of a round of `read_request` behind the parsing.
  respond :
      (StreamState → World → Outcome (StreamState × World))
      → ℕ
      → ℕ
      → Bool
      → StreamState
      → World
      → Outcome (StreamState × World)
  respond again conn i stop state w = do
    sent ← if is_some state.write_remaining then try_send_response conn i state w else ok (state, w)
    after_round again stop sent

  -- "Parse the 8-byte request header once we have enough data." A parse error ends the function.
  parse_header :
      (StreamState → World → Outcome (StreamState × World))
      → StreamState
      → World
      → Outcome (StreamState × World)
  parse_header continue state w =
      if not (is_some state.write_remaining) && leb 8 (length state.read_buf)
      then elim (try_from state.read_buf) [
        | ok blob ↦ continue (record state { write_remaining = some blob.size }) w
        | err e ↦ ok (state, w)
        | panic ↦ panic
        | stuck ↦ stuck
      ]
      else continue state w

  -- One round of the loop of `read_request` after `stream_recv`.
  after_recv :
      (StreamState → World → Outcome (StreamState × World))
      → ℕ
      → ℕ
      → StreamState
      → Option (List ℕ × Bool) × World
      → Outcome (StreamState × World)
  after_recv again conn i state (none, w) = ok (state, w)
  after_recv again conn i state (some (bytes, fin), w) =
      let n = length bytes in
      let state' : StreamState =
        (if ltb 0 n then record state { read_buf = state.read_buf ++ bytes } else state) in
      parse_header (respond again conn i (fin || n == 0)) state' w

  pub read_loop : ℕ → ℕ → ℕ → StreamState → World → Outcome (StreamState × World)
  read_loop zero conn i state w = stuck
  read_loop (suc fuel) conn i state w =
      after_recv (read_loop fuel conn i) conn i state (stream_recv conn i buf_len w)

  -- Runs a function on the state of a stream that `get_mut` finds.
  with_state :
      (StreamState → World → Outcome (StreamState × World))
      → ℕ
      → StreamStates
      → World
      → Outcome (StreamStates × World)
  with_state f i states w = elim (states i) [
    | none ↦ ok (states, w)
    | some state ↦ do (state', w') ← f state w; ok (insert i state' states, w')
  ]

  pub read_request : ℕ → ℕ → ℕ → StreamStates → World → Outcome (StreamStates × World)
  read_request fuel conn i states w =
      if not (is_client_initiated i) || not (is_bidi i)
      then ok (states, w)
      else with_state (read_loop fuel conn i) i states w

  pub handle_event : ℕ → ℕ → ConnectionEvent → StreamStates → World → Outcome (StreamStates × World)
  handle_event fuel conn (new_stream i) states w = ok (insert i new states, w)
  handle_event fuel conn (recv_stream_readable i) states w = read_request fuel conn i states w
  handle_event fuel conn (send_stream_writable i) states w =
      with_state (try_send_response conn i) i states w
  handle_event fuel conn connected states w = ok (states, (send_ticket conn w).1)
  handle_event fuel conn other states w = ok (states, w)

  -- The events of one connection, until `next_event` has none. `fuel` bounds the loops of the
  -- handlers, and the first number the events.
  drain_events : ℕ → ℕ → ℕ → StreamStates → World → Outcome (StreamStates × World)
  drain_events zero fuel conn states w = stuck
  drain_events (suc events) fuel conn states w = elim (next_event conn w).0 [
    | none ↦ ok (states, (next_event conn w).1)
    | some event ↦ do
      (states', w') ← handle_event fuel conn event states (next_event conn w).1
      drain_events events fuel conn states' w'
  ]

  drain_connections : ℕ → ℕ → List ℕ → StreamStates → World → Outcome (StreamStates × World)
  drain_connections events fuel [] states w = ok (states, w)
  drain_connections events fuel (conn ∷ conns) states w = do
    (states', w') ← drain_events events fuel conn states w
    drain_connections events fuel conns states' w'

  pub process_all_events : ℕ → ℕ → StreamStates → World → Outcome (StreamStates × World)
  process_all_events events fuel states w =
      drain_connections events fuel (active_connections w) states w
