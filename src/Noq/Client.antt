-- ===== src/Noq/Client.antt =====
-- iut/noq/src/client.rs.
use nesquic.Prelude.{ℕ, String, Option, Outcome}
use nesquic.Prelude.Tasks.{Task, ◌>>=◌, pure}
use nesquic.Net.{SocketAddr}
use nesquic.Bin.{ClientArgs, ClientImpl}
use nesquic.Quinn.Streams.{Streams}
use nesquic.Quinn.Crates.{Crates}
use nesquic.Quinn.Client.{Client as QuinnClient, run as quinn_run}
use nesquic.Quinn.Connect.{new as quinn_new, connect as quinn_connect}

abbrev pub Client : Type 0 → Type 0
Client Config = QuinnClient Config

module _ {World : Type 0} (crates : Crates World)
    (bind_socket : SocketAddr → Task World (Unit {0})) where
  open crates use {ClientConfig}

  abbrev pub new : ClientArgs → Task World (Client ClientConfig)
  new = quinn_new crates bind_socket

  abbrev pub connect : Client ClientConfig → Task World (Client ClientConfig)
  connect = quinn_connect crates bind_socket

module _ (s : Streams) (open_bi : s.World → Option (Unit {0}) × s.World)
    (parse : String → Outcome ℕ) where
  abbrev pub run : {Config : Type 0} → Client Config → Task s.World (Unit {0})
  run = quinn_run s open_bi parse

  abbrev pub client_impl : Crates s.World → (SocketAddr → Task s.World (Unit {0})) → ClientImpl
  client_impl crates bind_socket = record {
    World = s.World;
    Self = Client crates.ClientConfig;
    new = new crates bind_socket;
    connect = connect crates bind_socket;
    run = λ client. (run client >>= (λ _. pure client));
  }
