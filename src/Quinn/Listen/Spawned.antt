-- ===== src/Quinn/Listen/Spawned.antt =====
-- Which streams a server handles.
use nesquic.Prelude.{
  List, [], ◌∷◌, ◌≡◌, ok, refl, ap, err, map, panic, stuck, Bool, some, Returns, true, false,
}
use nesquic.Quinn.Server.{
  Accepted, handle_connection, stream, application_closed, connection_error, Handled,
}
use nesquic.Quinn.Listen.{Incoming, spawn_connections, listen, Server}
use nesquic.Quinn.Crates.{Crates}
use nesquic.Prelude.Tasks.{Task}
use nesquic.Net.{SocketAddr}
use mathlib.Core.Path.{ap₂}

-- The streams that a client opens on a connection before it ends.
abbrev pub opened : {Stream : Type 0} → List (Accepted Stream) → List Stream
opened [] = []
opened (stream x ∷ rest) = x ∷ opened rest
opened (application_closed ∷ rest) = []
opened (connection_error e ∷ rest) = []

-- None are opened on one that is not established.
abbrev pub opened_on : {Stream : Type 0} → Incoming Stream → List Stream
opened_on (ok _, accepted) = opened accepted
opened_on (_, accepted) = []

accept_loop-spawned :
    {Stream : Type 0} (accepted : List (Accepted Stream))
    → (handle_connection (ok tt) accepted).spawned ≡ opened accepted
unfolding handle_connection
accept_loop-spawned [] = refl
accept_loop-spawned (stream x ∷ rest) = ap (λ xs. x ∷ xs) (accept_loop-spawned rest)
accept_loop-spawned (application_closed ∷ rest) = refl
accept_loop-spawned (connection_error e ∷ rest) = refl

spawned_on :
    {Stream : Type 0} (conn : Incoming Stream)
    → (handle_connection conn.0 conn.1).spawned ≡ opened_on conn
unfolding handle_connection
spawned_on (ok _, accepted) = accept_loop-spawned accepted
spawned_on (err e, accepted) = refl
spawned_on (panic, accepted) = refl
spawned_on (stuck, accepted) = refl

spawn_connections-opened :
    {Stream : Type 0} (incoming : List (Incoming Stream))
    → map (λ (h : Handled Stream). h.spawned) (spawn_connections incoming) ≡ map opened_on incoming
unfolding spawn_connections
spawn_connections-opened [] = refl
spawn_connections-opened (conn ∷ incoming) =
    ap₂ (λ (xs : List _) (xss : List (List _)). xs ∷ xss) (spawned_on conn)
      (spawn_connections-opened incoming)

module _ {World : Type 0} (crates : Crates World)
    (bind_socket : SocketAddr → Task World (Unit {0})) where
  open crates use {ServerConfig, new_server_endpoint, local_addr}

  -- Where the socket is bound and the endpoint is created and knows its address, `listen` returns
  -- without an error when the endpoint is closed, at any level of logging, and has spawned a handler
  -- for each stream that a client opened before its connection ended, in order, whatever became of
  -- the other connections.
  pub listen-opened :
      {Stream : Type 0} (info_level : Bool) (incoming : List (Incoming Stream))
      (server : Server ServerConfig) (w w1 w2 w3 : World) (addr : SocketAddr)
      → bind_socket server.args.listen w ≡ (ok tt, w1)
      → new_server_endpoint server.config w1 ≡ (some tt, w2)
      → local_addr w2 ≡ (some addr, w3)
      → Returns
          (listen crates bind_socket info_level incoming server w).0
          (λ handled. map (λ (h : Handled Stream). h.spawned) handled ≡ map opened_on incoming)
  unfolding listen
  listen-opened true incoming server w w1 w2 w3 addr e1 e2 e3 =
      rw (e1, e2, e3) (spawn_connections-opened incoming)
  listen-opened false incoming server w w1 w2 w3 addr e1 e2 e3 =
      rw (e1, e2) (spawn_connections-opened incoming)
