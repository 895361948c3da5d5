-- ===== src/Neqo/Connect/Connected.antt =====
-- A client that `connect` returns can run.
use nesquic.Prelude.{ℕ, ◌≡◌, String, true, Option, List, some, Outcome, ok, ◌∙◌, ap, value_or, refl}
use nesquic.Prelude.Tasks.{Task, bind-eq-ok, or_fail, require}
use nesquic.Neqo.Driver.{Driver}
use nesquic.Neqo.Client.{Client, run, request_blob, run-set}
use nesquic.Neqo.Connect.{
  connect, SocketAddr, connect_host, open_connection, connect_to, establish, head?, bind_addr,
}
use mathlib.Core.Path.{subst}
use nesquic.Bin.{ClientArgs}

-- All that `run` asks for is set, and the arguments are the same.
pub record IsConnected (client client' : Client) : Type 0 where
  pub args : client'.args ≡ client.args
  pub conn : client'.conn ≡ true
  pub socket : client'.socket ≡ true
  pub local_addr : SocketAddr
  pub addressed : client'.local_addr ≡ some local_addr

module _ (d : Driver) (to_socket_addrs : String → ℕ → d.World → Option (List SocketAddr) × d.World)
    (bind : SocketAddr → Task d.World SocketAddr)
    (new_client : String → SocketAddr → SocketAddr → d.World → Option (Unit {0}) × d.World) where
  open d use {World}

  -- The steps of `connect`.
  open_connection-IsConnected :
      (rounds fuel : ℕ) (client : Client) (host : String) (remote local : SocketAddr) (w w' : World)
      (client' : Client)
      → open_connection d to_socket_addrs bind new_client rounds fuel client host remote local w
        ≡ (ok client', w')
      → IsConnected client client'
  unfolding open_connection
  open_connection-IsConnected rounds fuel client host remote local w w' client' h =
      let (_, u, _, rest) =
        bind-eq-ok (or_fail (new_client host local remote) "create QUIC connection") _ w w' h in
      let (_, x, _, last) =
        bind-eq-ok (establish d to_socket_addrs bind new_client rounds fuel) _ u w' rest in
      subst (IsConnected client) (ap (λ (p : Outcome Client × World). value_or client p.0) last)
        (record { args = refl; conn = refl; socket = refl; local_addr = local; addressed = refl })

  pub connect-IsConnected :
      (rounds fuel : ℕ) (client : Client) (w w' : World) (client' : Client)
      → connect d to_socket_addrs bind new_client rounds fuel client w ≡ (ok client', w')
      → IsConnected client client'
  unfolding connect connect_host connect_to
  connect-IsConnected rounds fuel client w w' client' h =
      let (host, w1, _, h1) = bind-eq-ok (require client.args.url.host_str _) _ w w' h in
      let (addrs, w2, _, h2) = bind-eq-ok (or_fail (to_socket_addrs host _) _) _ w1 w' h1 in
      let (remote, w3, _, h3) = bind-eq-ok (require (head? addrs) _) _ w2 w' h2 in
      let (local, w4, _, h4) = bind-eq-ok (bind (bind_addr remote)) _ w3 w' h3 in
      open_connection-IsConnected rounds fuel client host remote local w4 w' client' h4

  -- After a `connect` that returned without an error, `run` gets as far as the request, for the blob
  -- that the client was made with: it does not fail with "not connected".
  run-connect :
      (parse : String → Outcome ℕ) (rounds fuel rounds' fuel' : ℕ) (client : Client)
      (w w' u : World) (client' : Client)
      → connect d to_socket_addrs bind new_client rounds fuel client w ≡ (ok client', w')
      → run d parse rounds' fuel' client' u ≡ request_blob d parse rounds' fuel' client.args.blob u
  run-connect parse rounds fuel rounds' fuel' client w w' u client' h =
      let c = connect-IsConnected rounds fuel client w w' client' h in
      run-set d parse rounds' fuel' client' c.local_addr u c.conn c.socket c.addressed
      ∙ ap (λ (args : ClientArgs). request_blob d parse rounds' fuel' args.blob u) c.args
