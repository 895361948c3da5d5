-- ===== src/Msquic/Client.antt =====
-- iut/msquic/src/client.cpp. What the library calls back, and in which order, is a list; the loggings
-- and the lock are left out.
pub mod Verdict
pub mod Exchange
mod Tests
use nesquic.Prelude.{
  ◌>>=◌, ℕ, ◌+◌, ◌%◌, ◌^◌, ◌==◌, Bool, true, false, if◌then◌else◌, Option, none, some, List, [],
  ◌∷◌, take, drop, Outcome, ok, stuck,
}
use nesquic.Text.{Text, codes, eq_text}
use nesquic.Msquic.Library.{
  MsQuic, StreamEvent, receive, peer_send_shutdown, shutdown_complete, other_stream_event,
  ConnectionEvent, connected, peer_stream_started, shutdown_initiated_by_transport,
  connection_shutdown_complete, other_connection_event, total_buffer_length,
}
use nesquic.Msquic.Common.{make_client_configuration, default_port}
use nesquic.Msquic.Protocol.{u64, blob_bytes_from_string, request_to_bytes}

pub record ClientState : Type 0 where
  pub connection : ℕ
  pub requested : ℕ
  pub received : ℕ
  pub request : List ℕ
  pub is_ok : Bool
  pub done : Bool

-- `find("://")`, with what is behind it.
unfoldable pub after_scheme : Text → Option Text
after_scheme [] = none
after_scheme (c ∷ cs) =
    let later = after_scheme cs in
    if eq_text (take 3 (c ∷ cs)) (codes "://") then some (drop 3 (c ∷ cs)) else later

-- Up to the first `/`, which is 47.
unfoldable pub until_slash : Text → Text
until_slash [] = []
until_slash (c ∷ cs) = let rest = until_slash cs in if c == 47 then [] else c ∷ rest

-- `rfind(':')`, with what is before and behind it.
unfoldable pub at_last_colon : Text → Option (Text × Text)
at_last_colon [] = none
at_last_colon (c ∷ cs) = elim (at_last_colon cs) [
  | some (host, port) ↦ some (c ∷ host, port)
  | none ↦ if c == 58 then some ([], cs) else none
]

-- `std::stoi` is a parameter; an exception of it is a panic.
unfoldable pub parse_url : (Text → Outcome ℕ) → Text → Outcome (Text × ℕ)
parse_url stoi url =
    let rest = until_slash (elim (after_scheme url) [ none ↦ url | some rest ↦ rest ]) in
    elim (at_last_colon rest) [
      | none ↦ ok (rest, default_port)
      | some (host, port) ↦ do n ← stoi port; ok (host, n % 2 ^ 16)
    ]

-- A call of a callback, with the handle that it is about.
pub data Callback : Type 0 where
  on_stream : ℕ → StreamEvent → Callback
  on_connection : ℕ → ConnectionEvent → Callback

module _ (msquic : MsQuic) where
  open msquic use {
    World, stream_open, stream_start, stream_send, stream_shutdown, stream_close, connection_open,
    connection_start, connection_shutdown, connection_close, configuration_close,
  }

  stream_callback : ℕ → StreamEvent → ClientState → World → ClientState × World
  stream_callback stream (receive buffers) state w =
      (record state { received = u64 (state.received + total_buffer_length buffers) }, w)
  stream_callback stream peer_send_shutdown state w =
      (record state { is_ok = state.received == state.requested }, w)
  stream_callback stream shutdown_complete state w =
      (state, connection_shutdown state.connection (stream_close stream w))
  stream_callback stream other_stream_event state w = (state, w)

  -- What follows StreamSend, StreamStart and StreamOpen.
  after_send : ℕ → ℕ → Bool × World → World
  after_send connection stream (true, w) = w
  after_send connection stream (false, w) =
      connection_shutdown connection (stream_shutdown stream w)

  after_start : ℕ → ℕ → List ℕ → Bool × World → World
  after_start connection stream request (false, w) =
      connection_shutdown connection (stream_close stream w)
  after_start connection stream request (true, w) =
      after_send connection stream (stream_send stream request w)

  after_open : ℕ → List ℕ → Option ℕ × World → World
  after_open connection request (none, w) = connection_shutdown connection w
  after_open connection request (some stream, w) =
      after_start connection stream request (stream_start stream w)

  connection_callback : ℕ → ConnectionEvent → ClientState → World → ClientState × World
  connection_callback connection connected state w =
      (state, after_open connection state.request (stream_open connection w))
  connection_callback connection shutdown_initiated_by_transport state w = (state, w)
  connection_callback connection (peer_stream_started stream) state w = (state, w)
  connection_callback connection connection_shutdown_complete state w =
      (record state { done = true }, connection_close connection w)
  connection_callback connection other_connection_event state w = (state, w)

  callback : Callback → ClientState → World → ClientState × World
  callback (on_stream stream event) state w = stream_callback stream event state w
  callback (on_connection connection event) state w = connection_callback connection event state w

  -- `cv.wait`, while the library calls back.
  wait : List Callback → ClientState → World → Outcome (ClientState × World)
  wait [] state w = if state.done then ok (state, w) else stuck
  wait (call ∷ calls) state w =
      let later = wait calls (callback call state w).0 (callback call state w).1 in
      if state.done then ok (state, w) else later

  module _ (stoi : Text → Outcome ℕ) (calls : List Callback) where
    -- The end of the function returns 0 or 1.
    after_wait : ℕ → ClientState × World → ℕ × World
    after_wait config (state, w) = (if state.is_ok then 0 else 1, configuration_close config w)

    started : ℕ → ClientState → Bool × World → Outcome (ℕ × World)
    started config state (false, w) =
        ok (1, configuration_close config (connection_close state.connection w))
    started config state (true, w) = do r ← wait calls state w; ok (after_wait config r)

    opened : ℕ → ℕ → Text × ℕ → Option ℕ × World → Outcome (ℕ × World)
    opened config size (host, port) (none, w) = ok (1, configuration_close config w)
    opened config size (host, port) (some connection, w) =
        started config
          (record {
            connection = connection;
            requested = size;
            received = 0;
            request = request_to_bytes size;
            is_ok = false;
            done = false;
          })
          (connection_start connection config host port w)

    configured : Text → ℕ → Option ℕ × World → Outcome (ℕ × World)
    configured url size (none, w) = ok (1, w)
    configured url size (some config, w) = do
      address ← parse_url stoi url
      opened config size address (connection_open w)

    -- By the arguments `cert`, `blob` and `url`.
    pub run_client : Text → Text → Text → World → Outcome (ℕ × World)
    run_client cert blob url w = elim (blob_bytes_from_string blob) [
      | none ↦ ok (1, w)
      | some size ↦ configured url size (make_client_configuration msquic cert w)
    ]
