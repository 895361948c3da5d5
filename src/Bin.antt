-- ===== src/Bin.antt =====
-- utils/src/bin.rs: the arguments of the programs, and the traits that an implementation fills. A
-- `Url` is known by what the crate url returns of it.
use nesquic.Prelude.{ℕ, Bool, Option, String}
use nesquic.Prelude.Tasks.{Task}
use nesquic.Net.{SocketAddr}

pub record Url : Type 0 where
  pub host_str : Option String
  pub port : Option ℕ

pub record ClientArgs : Type 0 where
  pub url : Url
  pub unencrypted : Bool
  pub cert : String
  pub blob : String

pub record ServerArgs : Type 0 where
  pub unencrypted : Bool
  pub key : String
  pub cert : String
  pub listen : SocketAddr

-- `trait Client`: a task on the state of the implementation's libraries. `connect` and `run` take
-- `&mut self`, so the implementation comes back from them.
pub record ClientImpl : Type 1 where
  pub World : Type 0
  pub Self : Type 0
  pub new : ClientArgs → Task World Self
  pub connect : Self → Task World Self
  pub run : Self → Task World Self

-- `trait Server`
pub record ServerImpl : Type 1 where
  pub World : Type 0
  pub Self : Type 0
  pub new : ServerArgs → Task World Self
  pub listen : Self → Task World (Unit {0})
