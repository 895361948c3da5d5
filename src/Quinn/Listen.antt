-- ===== src/Quinn/Listen.antt =====
-- `Server::new` and `Server::listen` of iut/quinn/src/server.rs. The binding of the socket is a
-- parameter, and what the endpoint accepts is given as a list.
pub mod Spawned
use nesquic.Prelude.{ℕ, List, [], ◌∷◌, Option, none, some, Bool, true, false, Outcome}
use nesquic.Prelude.Tasks.{Task, ◌>>=◌, pure, or_fail, require}
use nesquic.Net.{SocketAddr}
use nesquic.Bin.{ServerArgs}
use nesquic.Quinn.Crates.{Crates}
use nesquic.Quinn.Connect.{alpn_protocols}
use nesquic.Quinn.Server.{Accepted, Handled, handle_connection}

pub record Server (Config : Type 0) : Type 0 where
  pub args : ServerArgs
  pub config : Config

-- `collect::<Result<_, _>>()`
collect_results : {A : Type 0} → List (Option A) → Option (List A)
collect_results [] = some []
collect_results (none ∷ results) = none
collect_results (some a ∷ results) = elim (collect_results results) [
  | none ↦ none
  | some as_ ↦ some (a ∷ as_)
]

-- A connection that comes in: how its handshake ends, and what `accept_bi` returns on it.
abbrev pub Incoming : Type 0 → Type 0
Incoming Stream = Outcome (Unit {0}) × List (Accepted Stream)

-- `while let Some(conn) = endpoint.accept().await`: an error of a connection is only logged.
spawn_connections : {Stream : Type 0} → List (Incoming Stream) → List (Handled Stream)
spawn_connections [] = []
spawn_connections ((established, accepted) ∷ conns) =
    handle_connection established accepted ∷ spawn_connections conns

module _ {World : Type 0} (crates : Crates World)
    (bind_socket : SocketAddr → Task World (Unit {0})) where
  open crates use {
    ServerConfig, Certificate, Key, pem_file_iter, key_from_pem_file, with_single_cert,
    server_config, new_server_endpoint, local_addr,
  }

  configure : List Certificate → Key → Task World ServerConfig
  configure certs key = do
    server_crypto ← require (with_single_cert certs key) "with_single_cert"
    require (server_config server_crypto alpn_protocols) "QuicServerConfig"

  unfoldable pub new : ServerArgs → Task World (Server ServerConfig)
  unfolding configure collect_results
  new args = do
    certs ← or_fail (pem_file_iter args.cert) "failed to read PEM from certificate chain file"
    certs' ← require (collect_results certs) "invalid PEM-encoded certificate"
    key ← or_fail (key_from_pem_file args.key) "failed to read PEM from private key file"
    config ← configure certs' key
    pure (record { args = args; config = config })

  -- The address is asked for in the arguments of `info!`, so only where that level is logged.
  log_address : Bool → Task World (Unit {0})
  log_address true = do _ ← or_fail local_addr "local_addr"; pure tt
  log_address false = pure tt

  create_endpoint : Bool → ServerConfig → Task World (Unit {0})
  create_endpoint info_level config = do
    _ ← or_fail (new_server_endpoint config) "creating endpoint"
    log_address info_level

  -- Ends when the endpoint is closed, and returns what was spawned.
  unfoldable pub listen :
      {Stream : Type 0}
      → Bool
      → List (Incoming Stream)
      → Server ServerConfig
      → Task World (List (Handled Stream))
  unfolding create_endpoint log_address spawn_connections
  listen info_level incoming server = do
    _ ← bind_socket server.args.listen
    _ ← create_endpoint info_level server.config
    pure (spawn_connections incoming)
