-- ===== src/Quinn/Connect.antt =====
-- `Client::new` and `Client::connect` of iut/quinn/src/client.rs. The binding of the socket is a
-- parameter; Common/Socket.antt has it.
pub mod Connected
pub mod Panics
use nesquic.Prelude.{
  ℕ, String, Option, List, ◌∷◌, [], head?, unwrap_or, none, some, true, false, ok, panic,
}
use nesquic.Prelude.Tasks.{unwrap, Task, ◌>>=◌, pure, lift, or_fail, require}
use nesquic.Text.{Text, codes}
use nesquic.Net.{SocketAddr, v6}
use nesquic.Bin.{ClientArgs}
use nesquic.Quinn.Crates.{Crates}
use nesquic.Quinn.Client.{Client}

abbrev pub alpn_protocols : List Text
alpn_protocols = codes "perf" ∷ []

-- "[::]:0"
abbrev unspecified : SocketAddr
unspecified = v6 0 0

module _ {World : Type 0} (crates : Crates World)
    (bind_socket : SocketAddr → Task World (Unit {0})) where
  open crates use {
    Connecting, ClientConfig, from_pem_file, add_root, client_config, to_socket_addrs,
    new_client_endpoint, set_default_client_config, connect as start_connect, established,
  }

  unfoldable pub new : ClientArgs → Task World (Client ClientConfig)
  new args = do
    certificate ← or_fail (from_pem_file args.cert) "from_pem_file"
    roots ← require (add_root certificate) "add"
    config ← require (client_config roots alpn_protocols) "QuicClientConfig"
    pure (record { args = args; conn = false; config = config })

  -- `endpoint.connect(remote, host)?.await`
  handshake : SocketAddr → String → Client ClientConfig → Task World (Client ClientConfig)
  handshake remote host client = do
    connecting ← or_fail (start_connect remote host) "connect"
    _ ← or_fail (established connecting) "failed to connect"
    pure (record client { conn = true })

  connect_from : SocketAddr → Client ClientConfig → Task World (Client ClientConfig)
  connect_from remote client = do
    _ ← or_fail new_client_endpoint "Endpoint::new"
    _ ← (λ w. (ok tt, set_default_client_config client.config w))
    host ← require client.args.url.host_str "no hostname specified"
    handshake remote host client

  connect_to : SocketAddr → Client ClientConfig → Task World (Client ClientConfig)
  connect_to remote client = do _ ← bind_socket unspecified; connect_from remote client

  resolve : String → Client ClientConfig → Task World SocketAddr
  resolve host client = do
    addrs ← or_fail (to_socket_addrs host (unwrap_or 4433 client.args.url.port)) "to_socket_addrs"
    require (head? addrs) "couldn't resolve to an address"

  unfoldable pub connect : Client ClientConfig → Task World (Client ClientConfig)
  unfolding resolve connect_to connect_from handshake
  connect client = do
    host ← unwrap client.args.url.host_str
    remote ← resolve host client
    connect_to remote client
