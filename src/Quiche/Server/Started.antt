-- ===== src/Quiche/Server/Started.antt =====
-- Which connections a server of iut/quiche serves.
use nesquic.Prelude.{List, [], ◌∷◌, Option, none, some, Outcome, ok, err, ◌≡◌, refl}
use nesquic.Quiche.Benchmark.{new as new_benchmark}
use nesquic.Quiche.Crates.{Crates}
use nesquic.Quiche.Connect.{alpn}
use nesquic.Quiche.Server.{Server, listen, accept_all}

module _ {A : Type 0} where
  -- The connections before the first that fails.
  abbrev pub before_failure : List (Option A) → List A
  before_failure [] = []
  before_failure (none ∷ incoming) = []
  before_failure (some conn ∷ incoming) = conn ∷ before_failure incoming

  abbrev pub verdict : List (Option A) → Outcome (Unit {0})
  verdict [] = ok tt
  verdict (none ∷ incoming) = err "conn"
  verdict (some conn ∷ incoming) = verdict incoming

module _ {World : Type 0} (crates : Crates World) where
  open crates use {InitialConnection, bind, listen as listen_on, start}

  -- Every connection with an application of its own, in order.
  abbrev pub start_all : List InitialConnection → World → World
  start_all [] w = w
  start_all (conn ∷ conns) w = start_all conns (start conn new_benchmark w)

  accept_all-started :
      (incoming : List (Option InitialConnection)) (w : World)
      → accept_all crates incoming w ≡ (verdict incoming, start_all (before_failure incoming) w)
  unfolding accept_all
  accept_all-started [] w = refl
  accept_all-started (none ∷ incoming) w = refl
  accept_all-started (some conn ∷ incoming) w =
      accept_all-started incoming (start conn new_benchmark w)

  -- Where the socket is bound and the listener is made, `listen` starts a fresh application on each
  -- connection before the first that fails, in order, and on none after it; it returns without an
  -- error when none fails, and otherwise with the error of that connection.
  pub listen-started :
      (incoming : List (Option InitialConnection)) (server : Server) (w w1 w2 : World)
      → bind server.args.listen w ≡ (some tt, w1)
      → listen_on alpn server.args.cert server.args.key w1 ≡ (some tt, w2)
      → listen crates incoming server w ≡ (verdict incoming, start_all (before_failure incoming) w2)
  unfolding listen
  listen-started incoming server w w1 w2 e1 e2 = rw (e1, e2) (accept_all-started incoming w2)
