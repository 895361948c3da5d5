-- ===== src/Neqo/Program/Server.antt =====
-- The server of iut/neqo/src/server.rs as an implementation of the trait of utils/src/bin.rs.
use nesquic.Prelude.{ℕ, Option}
use nesquic.Prelude.Tasks.{Task, ◌>>=◌, pure}
use nesquic.Net.{SocketAddr}
use nesquic.Bin.{ServerArgs, ServerImpl}
use nesquic.Neqo.Transport.{Transport}
use nesquic.Neqo.Listen.{Endpoint, listen}
use nesquic.Neqo.Program.{init_default_crypto_db}

pub record Server : Type 0 where
  pub args : ServerArgs

unfoldable pub new : {W : Type 0} → (W → Option (Unit {0}) × W) → ServerArgs → Task W Server
new init_db args = do _ ← init_default_crypto_db init_db; pure (record { args = args })

-- Over what binds the socket and makes the anti-replay context and the server; three numbers bound
-- the rounds, the events of a round, and the loops on a stream and in a round.
abbrev pub server_impl :
    (t : Transport)
    → Endpoint t.World
    → (t.World → Option (Unit {0}) × t.World)
    → (SocketAddr → Task t.World (Unit {0}))
    → Task t.World (Unit {0})
    → Task t.World (Unit {0})
    → ℕ
    → ℕ
    → ℕ
    → ServerImpl
server_impl t endpoint init_db bind create_anti_replay create_server rounds events fuel = record {
  World = t.World;
  Self = Server;
  new = new init_db;
  listen = λ server.
      listen t endpoint (bind server.args.listen) create_anti_replay create_server rounds events
        fuel;
}
