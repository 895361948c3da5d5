-- ===== src/Quinn/Crates.antt =====
-- What iut/quinn uses of rustls, of quinn's endpoints and of the resolver of names.
use nesquic.Prelude.{ℕ, String, Option, List}
use nesquic.Text.{Text}
use nesquic.Net.{SocketAddr}

-- A call returns `none` for `Err`, and the state after it. The one endpoint of a program is a part of
-- the state.
pub record Crates (World : Type 0) : Type 1 where
  pub Certificate : Type 0
  pub Key : Type 0
  pub Roots : Type 0
  pub ServerCrypto : Type 0
  pub ClientConfig : Type 0
  pub ServerConfig : Type 0
  pub Connecting : Type 0
  pub from_pem_file : String → World → Option Certificate × World
  -- adds to an empty store
  pub add_root : Certificate → Option Roots
  -- `QuicClientConfig::try_from`, of a configuration with these roots and protocols
  pub client_config : Roots → List Text → Option ClientConfig
  pub to_socket_addrs : String → ℕ → World → Option (List SocketAddr) × World
  pub new_client_endpoint : World → Option (Unit {0}) × World
  pub set_default_client_config : ClientConfig → World → World
  pub connect : SocketAddr → String → World → Option Connecting × World
  -- waits for the handshake
  pub established : Connecting → World → Option (Unit {0}) × World
  -- opens the file, and says of each certificate in it whether it is one
  pub pem_file_iter : String → World → Option (List (Option Certificate)) × World
  pub key_from_pem_file : String → World → Option Key × World
  pub with_single_cert : List Certificate → Key → Option ServerCrypto
  pub server_config : ServerCrypto → List Text → Option ServerConfig
  pub new_server_endpoint : ServerConfig → World → Option (Unit {0}) × World
  pub local_addr : World → Option SocketAddr × World
