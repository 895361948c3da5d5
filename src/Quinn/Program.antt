-- ===== src/Quinn/Program.antt =====
-- The client and the server of iut/quinn as implementations of the traits of utils/src/bin.rs, which
-- the programs of iut/common run.
pub mod Measured
pub mod Exchanged
pub mod Memory
mod Tests
use nesquic.Prelude.{ℕ, String, List, Option, Outcome, Bool}
use nesquic.Prelude.Tasks.{Task, ◌>>=◌, pure}
use nesquic.Net.{SocketAddr}
use nesquic.Bin.{ClientImpl, ServerImpl}
use nesquic.Quinn.Streams.{Streams}
use nesquic.Quinn.Crates.{Crates}
use nesquic.Quinn.Client.{Client, run}
use nesquic.Quinn.Connect
use nesquic.Quinn.Listen

-- The stream that `open_bi` opens is a part of the state.
abbrev pub client_impl :
    (s : Streams) (open_bi : s.World → Option (Unit {0}) × s.World) (parse : String → Outcome ℕ)
    → Crates s.World
    → (SocketAddr → Task s.World (Unit {0}))
    → ClientImpl
client_impl s open_bi parse crates bind_socket = record {
  World = s.World;
  Self = Client crates.ClientConfig;
  new = Connect.new crates bind_socket;
  connect = Connect.connect crates bind_socket;
  run = λ client. (run s open_bi parse client >>= (λ _. pure client));
}

abbrev pub server_impl :
    {World Stream : Type 0} (crates : Crates World)
    → (SocketAddr → Task World (Unit {0}))
    → Bool
    → List (Listen.Incoming Stream)
    → ServerImpl
server_impl {World} crates bind_socket info_level incoming = record {
  World = World;
  Self = Listen.Server crates.ServerConfig;
  new = Listen.new crates bind_socket;
  listen =
      λ server. (Listen.listen crates bind_socket info_level incoming server >>= (λ _. pure tt));
}
