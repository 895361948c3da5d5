-- ===== src/Quiche/Connect.antt =====
-- `Client::connect` of iut/quiche/src/client.rs.
pub mod Submits
use nesquic.Prelude.{String, Option, List, [], ◌∷◌, head?, unwrap_or, true, panic, some, none}
use nesquic.Prelude.Tasks.{unwrap, Task, ◌>>=◌, pure, or_fail, require, lift}
use nesquic.Text.{Text, codes}
use nesquic.Net.{SocketAddr, v4}
use nesquic.Quiche.Crates.{Crates}
use nesquic.Quiche.Client.{Client}
use nesquic.Quiche.Benchmark.{Benchmark, new as new_benchmark}

abbrev pub alpn : List Text
alpn = codes "perf" ∷ []

module _ {World : Type 0} (crates : Crates World) where
  open crates use {to_socket_addrs, bind, connect_socket, quic_socket, connect_with_config}

  -- The client with its fields set, and the `Benchmark` that the connection owns.
  establish : Client → Task World (Client × Benchmark)
  establish client = do
    _ ← or_fail (connect_with_config alpn) "Failed to establish connection"
    pure (record client { conn = true; send = true }, new_benchmark)

  connect_socket_to : SocketAddr → Client → Task World (Client × Benchmark)
  connect_socket_to remote client = do
    _ ← or_fail (bind (v4 0 0)) "bind"
    _ ← or_fail (connect_socket remote) "connect"
    _ ← or_fail quic_socket "try_from"
    _ ← require client.args.url.host_str "no hostname specified"
    establish client

  resolve : String → Client → Task World SocketAddr
  resolve host client = do
    addrs ← or_fail (to_socket_addrs host (unwrap_or 4433 client.args.url.port)) "to_socket_addrs"
    require (head? addrs) "couldn't resolve to an address"

  unfoldable pub connect : Client → Task World (Client × Benchmark)
  unfolding establish connect_socket_to resolve
  connect client = do
    host ← unwrap client.args.url.host_str
    remote ← resolve host client
    connect_socket_to remote client
