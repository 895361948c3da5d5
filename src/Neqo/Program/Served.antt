-- ===== src/Neqo/Program/Served.antt =====
-- What a run of the server program over neqo has sent.
use nesquic.Prelude.{ℕ, ◌≡◌, Option, none, replicate, ◌≤◌, ◌<◌, length}
use nesquic.Prelude.Tasks.{Task}
use nesquic.Prelude.Keeps.{Keeps, bind-Keeps, bind-Leads}
use nesquic.Net.{SocketAddr}
use nesquic.Bin.{ServerArgs}
use nesquic.Common.Client.{run_server}
use nesquic.Neqo.Transport.{Transport, IsTransport}
use nesquic.Neqo.Server.Events.{IsServed, IsReached}
use nesquic.Neqo.Server.{StreamStates, empty}
use nesquic.Neqo.Server.Responses.{here, outbox-IsPrefix}
use nesquic.Neqo.Server.System.{IsSoundStream}
use nesquic.Neqo.Server.Reading.{size_of}
use nesquic.Neqo.Listen.{Endpoint, listen, serve_rounds}
use nesquic.Neqo.Listen.Rounds.{IsNetwork, serve_rounds-Keeps}
use nesquic.Neqo.Program.{init_default_crypto_db}
use nesquic.Neqo.Program.Server.{server_impl, new}

module _ {t : Transport} (laws : IsTransport t) (owner : ℕ → ℕ) (fuel : ℕ)
    {G : StreamStates × t.World → Type 0} (served : IsServed laws owner fuel G)
    {endpoint : Endpoint t.World} (acts : IsNetwork laws owner G endpoint) where
  open t use {World}
  open laws use {view}

  -- No stream has been used.
  abbrev pub IsFresh : World → Type 0
  IsFresh w = ((i : ℕ) → IsSoundStream none (view (owner i) i w)) × G (empty, w)

  abbrev IsServing : World → Type 0
  IsServing w = (states : StreamStates) × IsReached laws owner G (states, w)

  IsFresh-IsServing : (w : World) → IsFresh w → IsServing w
  IsFresh-IsServing w (fresh, bounded) = (empty, (here w fresh, bounded))

  module _ (init_db : World → Option (Unit {0}) × World) (bind : SocketAddr → Task World (Unit {0}))
      (create_anti_replay create_server : Task World (Unit {0}))
      (init : (w : World) → IsFresh w → IsFresh (init_db w).1)
      (binds : (addr : SocketAddr) → Keeps IsFresh (bind addr))
      (anti_replay : Keeps IsFresh create_anti_replay) (creates : Keeps IsFresh create_server) where
    listen-IsServing :
        (rounds events : ℕ) (addr : SocketAddr) (w : World)
        → IsFresh w
        → IsServing
            (listen t endpoint (bind addr) create_anti_replay create_server rounds events fuel w).1
    unfolding listen
    listen-IsServing rounds events addr =
        bind-Leads IsFresh IsServing IsFresh-IsServing (bind addr) _ (binds addr) (λ _.
          bind-Leads IsFresh IsServing IsFresh-IsServing create_anti_replay _ anti_replay (λ _.
            bind-Leads IsFresh IsServing IsFresh-IsServing create_server _ creates
              (λ _ w (fresh, bounded). (
                (serve_rounds t endpoint rounds events fuel (w, empty)).1.1,
                serve_rounds-Keeps laws owner fuel served acts rounds events (w, empty)
                    (here w fresh, bounded),
              ))))

    -- Where no two connections use a stream of the same number, each stream is announced once, what is
    -- unread on the streams stays below the fuel, the calls of the endpoint act on the streams as the
    -- network does, and the set-up leaves the streams unused: however the program's `run_server` over
    -- neqo ends, after however many rounds, a stream carries a prefix of the response that its request
    -- asks for, and nothing before eight bytes of request have arrived.
    pub run_server-IsPrefix :
        (rounds events i : ℕ) (args : ServerArgs) (w : World)
        → IsFresh w
        → let v =
            view
              (owner i)
              i
              (run_server
                (server_impl t endpoint init_db bind create_anti_replay create_server rounds events
                  fuel)
                args
                w).1 in
          (n : ℕ) × (v.outbox ≡ replicate n 0)
          × (n ≤ size_of v.arrived)
          × (length v.arrived < 8 → n ≡ 0)
    unfolding run_server new
    run_server-IsPrefix rounds events i args w h =
        let (states, reached) =
          bind-Leads IsFresh IsServing IsFresh-IsServing (new init_db args) _
            (bind-Keeps IsFresh (init_default_crypto_db init_db) _ init (λ _ w k. k))
            (λ server. listen-IsServing rounds events server.args.listen) w h in
        outbox-IsPrefix laws owner i reached.0
