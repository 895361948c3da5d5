-- ===== src/Neqo/Program.antt =====
-- The client of iut/neqo as an implementation of the trait of utils/src/bin.rs, which the programs of
-- iut/common run. The path of the certificate database is left to its initialisation.
pub mod Fetched
pub mod Server
pub mod Served
use nesquic.Prelude.{ℕ, String, List, Option, Outcome, none, false}
use nesquic.Prelude.Tasks.{Task, ◌>>=◌, pure, or_fail}
use nesquic.Net.{SocketAddr}
use nesquic.Bin.{ClientArgs, ClientImpl}
use nesquic.Neqo.Driver.{Driver}
use nesquic.Neqo.Client.{Client, run}
use nesquic.Neqo.Connect.{connect}

-- `init_default_crypto_db`, over `nss::init_db`.
abbrev pub init_default_crypto_db : {W : Type 0} → (W → Option (Unit {0}) × W) → Task W (Unit {0})
init_default_crypto_db init_db = or_fail init_db "failed to initialize NSS crypto database"

unfoldable pub new : {W : Type 0} → (W → Option (Unit {0}) × W) → ClientArgs → Task W Client
new init_db args = do
  _ ← init_default_crypto_db init_db
  pure (record { args = args; conn = false; socket = false; local_addr = none })

-- Every call takes the same fuel.
abbrev pub client_impl :
    (d : Driver)
    → (d.World → Option (Unit {0}) × d.World)
    → (String → ℕ → d.World → Option (List SocketAddr) × d.World)
    → (SocketAddr → Task d.World SocketAddr)
    → (String → SocketAddr → SocketAddr → d.World → Option (Unit {0}) × d.World)
    → (String → Outcome ℕ)
    → ℕ
    → ℕ
    → ClientImpl
client_impl d init_db to_socket_addrs bind new_client parse rounds fuel = record {
  World = d.World;
  Self = Client;
  new = new init_db;
  connect = connect d to_socket_addrs bind new_client rounds fuel;
  run = λ client. (run d parse rounds fuel client >>= (λ _. pure client));
}
