-- ===== src/Noq/Server.antt =====
-- iut/noq/src/server.rs.
use nesquic.Prelude.{List, Outcome, Bool}
use nesquic.Prelude.Tasks.{Task, ◌>>=◌, pure}
use nesquic.Net.{SocketAddr}
use nesquic.Bin.{ServerArgs, ServerImpl}
use nesquic.Quinn.Streams.{Streams}
use nesquic.Quinn.Crates.{Crates}
use nesquic.Quinn.Server.{
  Accepted, Handled, handle_connection as quinn_handle_connection,
  handle_request as quinn_handle_request,
}
use nesquic.Quinn.Listen.{Server as QuinnServer, Incoming, new as quinn_new, listen as quinn_listen}

abbrev pub Server : Type 0 → Type 0
Server Config = QuinnServer Config

abbrev pub handle_request : (s : Streams) → Task s.World (Unit {0})
handle_request s = quinn_handle_request s

abbrev pub handle_connection :
    {Stream : Type 0} → Outcome (Unit {0}) → List (Accepted Stream) → Handled Stream
handle_connection conn accepted = quinn_handle_connection conn accepted

module _ {World : Type 0} (crates : Crates World)
    (bind_socket : SocketAddr → Task World (Unit {0})) where
  open crates use {ServerConfig}

  abbrev pub new : ServerArgs → Task World (Server ServerConfig)
  new = quinn_new crates bind_socket

  abbrev pub listen :
      {Stream : Type 0}
      → Bool
      → List (Incoming Stream)
      → Server ServerConfig
      → Task World (List (Handled Stream))
  listen = quinn_listen crates bind_socket

  abbrev pub server_impl : {Stream : Type 0} → Bool → List (Incoming Stream) → ServerImpl
  server_impl info_level incoming = record {
    World = World;
    Self = Server ServerConfig;
    new = new;
    listen = λ server. (listen info_level incoming server >>= (λ _. pure tt));
  }
