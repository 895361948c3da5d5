-- ===== src/Quiche/Crates.antt =====
-- What the endpoints of iut/quiche use of tokio_quiche, of tokio and of the resolver of names.
use nesquic.Prelude.{ℕ, String, Option, List}
use nesquic.Text.{Text}
use nesquic.Net.{SocketAddr}
use nesquic.Quiche.Benchmark.{Benchmark}

-- A call returns `none` for `Err`, and the state after it.
pub record Crates (World : Type 0) : Type 1 where
  pub InitialConnection : Type 0
  pub to_socket_addrs : String → ℕ → World → Option (List SocketAddr) × World
  pub bind : SocketAddr → World → Option (Unit {0}) × World
  pub connect_socket : SocketAddr → World → Option (Unit {0}) × World
  -- `Socket::try_from`
  pub quic_socket : World → Option (Unit {0}) × World
  -- `connect_with_config`, with these protocols
  pub connect_with_config : List Text → World → Option (Unit {0}) × World
  -- `tokio_quiche::listen`, with these protocols, a certificate and a key
  pub listen : List Text → String → String → World → Option (Unit {0}) × World
  -- runs the application on a task of its own
  pub start : InitialConnection → Benchmark → World → World
