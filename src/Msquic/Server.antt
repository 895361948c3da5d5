-- ===== src/Msquic/Server.antt =====
-- iut/msquic/src/server.cpp: the callbacks of the server. That there is memory for the response is taken
-- for granted.
pub mod Served
pub mod Streams
use nesquic.Prelude.{
  ℕ, ◌+◌, ◌-◌, ◌%◌, ◌^◌, ◌==◌, Bool, true, false, ltb, if◌then◌else◌, Option, none, some, List, [],
  ◌∷◌, ◌++◌, length, take, replicate,
}
use nesquic.Msquic.Library.{
  MsQuic, StreamEvent, receive, peer_send_shutdown, shutdown_complete, other_stream_event,
  ConnectionEvent, connected, peer_stream_started, shutdown_initiated_by_transport,
  connection_shutdown_complete, other_connection_event,
}
use nesquic.Msquic.Protocol.{request_from_bytes}

-- `request` is the first `request_len` bytes of the array.
pub record StreamState : Type 0 where
  pub request : List ℕ
  pub response : List ℕ

abbrev pub new : StreamState
new = record { request = []; response = [] }

abbrev pub u32 : ℕ → ℕ
u32 n = n % 2 ^ 32

-- The loop over the buffers of an event.
unfoldable pub take_buffers : List (List ℕ) → List ℕ → List ℕ
take_buffers [] request = request
take_buffers (buffer ∷ buffers) request =
    let n = length buffer in
    let taken = if ltb 8 (length request + n) then 8 - length request else n in
    let more = take_buffers buffers (request ++ take taken buffer) in
    if ltb (length request) 8 then more else request

module _ (msquic : MsQuic) where
  open msquic use {World, stream_send, stream_shutdown, stream_close}

  -- What follows StreamSend.
  pub after_send : ℕ → Bool × World → World
  after_send stream (true, w) = w
  after_send stream (false, w) = stream_shutdown stream w

  serve : ℕ → StreamState → World → StreamState × World
  serve stream state w =
      if ltb (length state.request) 8
      then (state, stream_shutdown stream w)
      else let response = replicate (request_from_bytes state.request) 0 in
        (
          record state { response = response },
          after_send stream (stream_send stream (take (u32 (length response)) response) w),
        )

  -- The state is `none` when it was deleted.
  pub stream_callback : ℕ → StreamEvent → StreamState → World → Option StreamState × World
  stream_callback stream (receive buffers) state w =
      (some (record state { request = take_buffers buffers state.request }), w)
  stream_callback stream peer_send_shutdown state w =
      (some (serve stream state w).0, (serve stream state w).1)
  stream_callback stream shutdown_complete state w = (none, stream_close stream w)
  stream_callback stream other_stream_event state w = (some state, w)

-- The contexts that SetCallbackHandler gives the streams.
abbrev pub Contexts : Type 0
Contexts = ℕ → Option StreamState

unfoldable pub put : ℕ → Option StreamState → Contexts → Contexts
put stream state contexts other = if other == stream then state else contexts other

-- A call of a callback, with the handle that it is about.
pub data Callback : Type 0 where
  on_stream : ℕ → StreamEvent → Callback
  on_connection : ℕ → ConnectionEvent → Callback
  new_connection : ℕ → Callback

module _ (msquic : MsQuic) (config : ℕ) where
  open msquic use {World, connection_close, accept, connection_set_configuration}

  connection_callback : ℕ → ConnectionEvent → Contexts × World → Contexts × World
  connection_callback connection (peer_stream_started stream) (contexts, w) =
      (put stream (some new) contexts, w)
  connection_callback connection connection_shutdown_complete (contexts, w) =
      (contexts, connection_close connection w)
  connection_callback connection connected now = now
  connection_callback connection shutdown_initiated_by_transport now = now
  connection_callback connection other_connection_event now = now

  listener_callback : ℕ → World → Bool × World
  listener_callback connection w =
      connection_set_configuration connection config (accept connection w)

  callback : Callback → Contexts × World → Contexts × World
  callback (on_stream stream event) (contexts, w) = elim (contexts stream) [
    | none ↦ (contexts, w)
    | some state ↦
        let after = stream_callback msquic stream event state w in
        (put stream after.0 contexts, after.1)
  ]
  callback (on_connection connection event) now = connection_callback connection event now
  callback (new_connection connection) (contexts, w) =
      (contexts, (listener_callback connection w).1)

  -- The callbacks are called one after the other.
  pub callbacks : List Callback → Contexts × World → Contexts × World
  callbacks [] now = now
  callbacks (call ∷ calls) now = callbacks calls (callback call now)
