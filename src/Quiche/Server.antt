-- ===== src/Quiche/Server.antt =====
-- iut/quiche/src/server.rs. What the listener accepts is given as a list.
pub mod Started
use nesquic.Prelude.{List, [], ◌∷◌, Option, none, some, ok}
use nesquic.Prelude.Tasks.{Task, ◌>>=◌, pure, fail, or_fail}
use nesquic.Bin.{ServerArgs}
use nesquic.Quiche.Benchmark.{new as new_benchmark}
use nesquic.Quiche.Crates.{Crates}
use nesquic.Quiche.Connect.{alpn}

pub record Server : Type 0 where
  pub args : ServerArgs

abbrev pub new : ServerArgs → Server
new args = record { args = args }

module _ {World : Type 0} (crates : Crates World) where
  open crates use {InitialConnection, bind, listen as listen_on, start}

  -- `while let Some(conn) = accept.next().await`: a connection that fails ends the loop.
  accept_all : List (Option InitialConnection) → Task World (Unit {0})
  accept_all [] w = (ok tt, w)
  accept_all (none ∷ incoming) w = fail "conn" w
  accept_all (some conn ∷ incoming) w = accept_all incoming (start conn new_benchmark w)

  unfoldable pub listen : List (Option InitialConnection) → Server → Task World (Unit {0})
  unfolding accept_all
  listen incoming server = do
    _ ← or_fail (bind server.args.listen) "bind"
    _ ← or_fail (listen_on alpn server.args.cert server.args.key) "listen"
    accept_all incoming
