-- ===== src/Neqo/Program/Fetched.antt =====
-- What a run of the client program over neqo has done when it returns without an error.
use nesquic.Prelude.{ℕ, ◌≡◌, ok, String, List, Outcome, Option, ap, value_or, ◌∙◌, sym}
use nesquic.Prelude.Tasks.{Task, bind-eq-ok}
use nesquic.Net.{SocketAddr}
use nesquic.Bin.{ClientArgs}
use nesquic.Perf.Blob.{Request, parse_request}
use nesquic.Perf.Stats.{Floats}
use nesquic.Common.Client.{run_client}
use nesquic.Common.Client.Completed.{run_client-IsCompleted}
use nesquic.Neqo.Driver.{Driver, IsDriver}
use nesquic.Neqo.Client.{Client, run}
use nesquic.Neqo.Client.Run.{IsFetched, run-IsFetched}
use nesquic.Neqo.Connect.Connected.{connect-IsConnected}
use nesquic.Neqo.Program.{client_impl, new, init_default_crypto_db}

new-eq-ok :
    {W : Type 0} (init_db : W → Option (Unit {0}) × W) (args : ClientArgs) (made : Client)
    (w w' : W)
    → new init_db args w ≡ (ok made, w')
    → made.args ≡ args
unfolding new
new-eq-ok {W} init_db args made w w' h =
    let (_, u, _, rest) = bind-eq-ok (init_default_crypto_db init_db) _ w w' h in
    ap (λ (p : Outcome Client × W). (value_or made p.0).args) (sym rest)

module _ {d : Driver} (laws : IsDriver d) (init_db : d.World → Option (Unit {0}) × d.World)
    (to_socket_addrs : String → ℕ → d.World → Option (List SocketAddr) × d.World)
    (bind : SocketAddr → Task d.World SocketAddr)
    (new_client : String → SocketAddr → SocketAddr → d.World → Option (Unit {0}) × d.World)
    (parse : String → Outcome ℕ) (rounds fuel : ℕ) (now : d.World → ℕ × d.World)
    (floats : Floats) where
  open d use {World}
  open laws use {view}

  -- When the program's `run_client` returns without an error, whatever the server and the network
  -- do: the blob is a size, and there was a stream on which the request for that many bytes was sent,
  -- whole, the client's side was closed, and exactly that many bytes were read, up to the end.
  pub run_client-IsFetched :
      (args : ClientArgs) (w w' : World)
      → run_client
          (client_impl d init_db to_socket_addrs bind new_client parse rounds fuel)
          now
          floats
          parse
          args
          w
        ≡ (ok tt, w')
      → (request : Request) × (u : World) × (i : ℕ) × (parse_request parse args.blob ≡ ok request)
        × IsFetched request (view u i)
        × (w' ≡ (now u).1)
  run_client-IsFetched args w w' h =
      let done =
        run_client-IsCompleted
          (client_impl d init_db to_socket_addrs bind new_client parse rounds fuel) now floats parse
          args w w' h in
      let (_, u, ran, rest) =
        bind-eq-ok (run d parse rounds fuel done.connected) _ (now done.w2).1 done.w3
          done.execution in
      let (_, request, i, parsed, fetched) =
        run-IsFetched laws parse rounds fuel done.connected (now done.w2).1 u ran in
      let args_same : done.connected.args ≡ args =
        (connect-IsConnected d to_socket_addrs bind new_client rounds fuel done.made done.w1 done.w2
          done.connected done.connection).args
        ∙ new-eq-ok init_db args done.made w done.w1 done.make in
      let after : u ≡ done.w3 = ap (λ (p : Outcome Client × World). p.1) rest in
      (
        request,
        u,
        i,
        ap (λ (a : ClientArgs). parse_request parse a.blob) (sym args_same) ∙ parsed,
        fetched,
        done.last ∙ ap (λ (x : World). (now x).1) (sym after),
      )
