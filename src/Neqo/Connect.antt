-- ===== src/Neqo/Connect.antt =====
-- `Client::connect` of iut/neqo/src/client.rs. What resolves names, the binding of the socket and
-- `Connection::new_client` are parameters; Neqo/Socket.antt has the binding.
pub mod Connected
use nesquic.Prelude.Tasks.{Task, ◌>>=◌, pure, or_fail, require}
use nesquic.Prelude.{ℕ, List, [], ◌∷◌}
use nesquic.Net.{SocketAddr, v4, v6}
use nesquic.Neqo.Driver.{Driver}
use nesquic.Neqo.Drive.{drive_until}
use nesquic.Neqo.Client.{Client, returning, check_connected}
use nesquic.Prelude.{
  head?, unwrap_or, String, ℕ, List, Option, Bool, none, some, true, false, ◌∷◌, [],
}

-- The unspecified address of the remote's family, and any port.
unfoldable pub bind_addr : SocketAddr → SocketAddr
bind_addr (v4 ip port) = v4 0 0
bind_addr (v6 ip port) = v6 0 0

module _ (d : Driver) (to_socket_addrs : String → ℕ → d.World → Option (List SocketAddr) × d.World)
    (bind : SocketAddr → Task d.World SocketAddr)
    (new_client : String → SocketAddr → SocketAddr → d.World → Option (Unit {0}) × d.World) where
  open d use {World}

  unfoldable pub establish : ℕ → ℕ → Task World Bool
  establish rounds fuel w =
      returning d (drive_until d rounds fuel (check_connected d fuel) (w, false))

  -- The fields are set when all is done.
  abbrev connected_at : Client → SocketAddr → Client
  connected_at client addr = record client { conn = true; socket = true; local_addr = some addr }

  unfoldable pub open_connection :
      ℕ → ℕ → Client → String → SocketAddr → SocketAddr → Task World Client
  open_connection rounds fuel client host remote local = do
    _ ← or_fail (new_client host local remote) "create QUIC connection"
    _ ← establish rounds fuel
    pure (connected_at client local)

  unfoldable pub connect_to : ℕ → ℕ → Client → String → SocketAddr → Task World Client
  connect_to rounds fuel client host remote = do
    local ← bind (bind_addr remote)
    open_connection rounds fuel client host remote local

  unfoldable pub connect_host : ℕ → ℕ → Client → String → Task World Client
  connect_host rounds fuel client host = do
    addrs ← or_fail (to_socket_addrs host (unwrap_or 4433 client.args.url.port)) "to_socket_addrs"
    remote ← require (head? addrs) "couldn't resolve host and port"
    connect_to rounds fuel client host remote

  unfoldable pub connect : ℕ → ℕ → Client → Task World Client
  connect rounds fuel client = do
    host ← require client.args.url.host_str "no hostname in URL"
    connect_host rounds fuel client host
