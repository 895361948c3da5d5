-- ===== src/Msquic/Library.antt =====
-- What iut/msquic/src uses of msquic: the functions of its table, and the events with which it calls
-- the program back. A handle is a number.
use nesquic.Prelude.{ℕ, Bool, Option, List, ◌+◌, [], ◌∷◌, length}
use nesquic.Text.{Text}

-- `QUIC_STREAM_EVENT`, by the types that the callbacks tell apart; RECEIVE has its buffers.
pub data StreamEvent : Type 0 where
  receive : List (List ℕ) → StreamEvent
  peer_send_shutdown : StreamEvent
  shutdown_complete : StreamEvent
  other_stream_event : StreamEvent

pub data ConnectionEvent : Type 0 where
  connected : ConnectionEvent
  peer_stream_started : ℕ → ConnectionEvent
  shutdown_initiated_by_transport : ConnectionEvent
  connection_shutdown_complete : ConnectionEvent
  other_connection_event : ConnectionEvent

-- `TotalBufferLength`
unfoldable pub total_buffer_length : List (List ℕ) → ℕ
total_buffer_length [] = 0
total_buffer_length (buffer ∷ buffers) = length buffer + total_buffer_length buffers

-- `QUIC_SETTINGS`, by the fields that are set, and `QUIC_CREDENTIAL_CONFIG`, by its types: of a client,
-- with the file of certificates that it trusts if it is given one, or of a server.
pub record Settings : Type 0 where
  pub idle_timeout_ms : ℕ
  pub peer_bidi_stream_count : ℕ

pub data Credential : Type 0 where
  client_credential : Option Text → Credential
  certificate_file : Text → Text → Credential

-- A call returns whether it succeeded, or its handle. Each StreamSend has one buffer and the flag FIN,
-- and each StreamShutdown the flag ABORT.
pub record MsQuic : Type 1 where
  pub World : Type 0
  pub stream_open : ℕ → World → Option ℕ × World
  pub stream_start : ℕ → World → Bool × World
  pub stream_send : ℕ → List ℕ → World → Bool × World
  pub stream_shutdown : ℕ → World → World
  pub stream_close : ℕ → World → World
  -- MsQuicOpen2, RegistrationOpen, RegistrationClose and MsQuicClose
  pub open_library : World → Bool × World
  pub registration_open : World → Bool × World
  pub registration_close : World → World
  pub close_library : World → World
  pub listener_open : ℕ → World → Option ℕ × World
  pub listener_start : ℕ → Text → ℕ → World → Bool × World
  pub listener_close : ℕ → World → World
  pub connection_open : World → Option ℕ × World
  pub connection_start : ℕ → ℕ → Text → ℕ → World → Bool × World
  pub connection_shutdown : ℕ → World → World
  -- SetCallbackHandler of a connection, which has no context
  pub accept : ℕ → World → World
  pub connection_set_configuration : ℕ → ℕ → World → Bool × World
  pub connection_close : ℕ → World → World
  pub configuration_open : Text → Settings → World → Option ℕ × World
  pub configuration_load_credential : ℕ → Credential → World → Bool × World
  pub configuration_close : ℕ → World → World
