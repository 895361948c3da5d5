-- ===== src/Quinn/Connect/Connected.antt =====
-- A client that `connect` returns can run.
use nesquic.Prelude.{◌≡◌, true, String, ok, ap, Outcome, value_or, sym}
use nesquic.Prelude.Tasks.{unwrap, Task, or_fail, bind-eq-ok, require}
use nesquic.Net.{SocketAddr}
use nesquic.Quinn.Client.{Client}
use nesquic.Quinn.Crates.{Crates}
use nesquic.Quinn.Connect.{
  connect, connect_to, connect_from, handshake, resolve, new, alpn_protocols,
}
use nesquic.Bin.{ClientArgs}

module _ {World : Type 0} (crates : Crates World)
    (bind_socket : SocketAddr → Task World (Unit {0})) where
  open crates use {
    Connecting, ClientConfig, established, connect as start_connect, new_client_endpoint,
    from_pem_file, add_root, client_config,
  }

  handshake-eq-ok :
      (remote : SocketAddr) (host : String) (client client' : Client ClientConfig) (w w' : World)
      → handshake crates bind_socket remote host client w ≡ (ok client', w')
      → client' ≡ record client { conn = true }
  unfolding handshake
  handshake-eq-ok remote host client client' w w' h =
      let (connecting, u, _, h1) = bind-eq-ok (or_fail (start_connect remote host) _) _ w w' h in
      let (_, x, _, h2) = bind-eq-ok (or_fail (established connecting) _) _ u w' h1 in
      ap (λ (p : Outcome (Client ClientConfig) × World). value_or client p.0) (sym h2)

  -- When `connect` returns without an error, a connection is stored and nothing else of the client
  -- has changed.
  pub connect-eq-ok :
      (client client' : Client ClientConfig) (w w' : World)
      → connect crates bind_socket client w ≡ (ok client', w')
      → client' ≡ record client { conn = true }
  unfolding connect connect_to connect_from
  connect-eq-ok client client' w w' h =
      let (host, w1, _, h1) = bind-eq-ok (unwrap client.args.url.host_str) _ w w' h in
      let (remote, w2, _, h2) = bind-eq-ok (resolve crates bind_socket host client) _ w1 w' h1 in
      let (_, w3, _, h3) = bind-eq-ok (bind_socket _) _ w2 w' h2 in
      let (_, w4, _, h4) = bind-eq-ok (or_fail new_client_endpoint _) _ w3 w' h3 in
      let (host', w5, _, h5) = bind-eq-ok (require client.args.url.host_str _) _ _ w' h4 in
      handshake-eq-ok remote host' client client' w5 w' h5

  -- The client that `new` makes has the arguments.
  pub new-eq-ok :
      (args : ClientArgs) (made : Client ClientConfig) (w w' : World)
      → new crates bind_socket args w ≡ (ok made, w')
      → made.args ≡ args
  unfolding new
  new-eq-ok args made w w' h =
      let (certificate, w1, _, h1) = bind-eq-ok (or_fail (from_pem_file args.cert) _) _ w w' h in
      let (roots, w2, _, h2) = bind-eq-ok (require (add_root certificate) _) _ w1 w' h1 in
      let (config, w3, _, h3) =
        bind-eq-ok (require (client_config roots alpn_protocols) _) _ w2 w' h2 in
      ap (λ (p : Outcome (Client ClientConfig) × World). (value_or made p.0).args) (sym h3)
