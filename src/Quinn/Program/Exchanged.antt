-- ===== src/Quinn/Program/Exchanged.antt =====
-- What a run of the client program over quinn has done when it returns without an error.
use nesquic.Prelude.{ℕ, ◌≡◌, ok, some, String, Outcome, Option, ap, ◌∙◌, sym}
use nesquic.Prelude.Tasks.{Task, bind-eq-ok}
use nesquic.Net.{SocketAddr}
use nesquic.Bin.{ClientArgs}
use nesquic.Perf.Blob.{Request, parse_request}
use nesquic.Perf.Stats.{Floats}
use nesquic.Common.Client.{run_client}
use nesquic.Common.Client.Completed.{run_client-IsCompleted}
use nesquic.Quinn.Streams.{Streams, IsStreams}
use nesquic.Quinn.Crates.{Crates}
use nesquic.Quinn.Client.{Client, run}
use nesquic.Quinn.Client.Laws.{IsExchanged, run-IsExchanged}
use nesquic.Quinn.Connect.Connected.{connect-eq-ok, new-eq-ok}
use nesquic.Quinn.Program.{client_impl}

module _ {s : Streams} (laws : IsStreams s) (open_bi : s.World → Option (Unit {0}) × s.World)
    (parse : String → Outcome ℕ) (crates : Crates s.World)
    (bind_socket : SocketAddr → Task s.World (Unit {0})) (now : s.World → ℕ × s.World)
    (floats : Floats) where
  open s use {World}
  open laws use {view}

  -- When the program's `run_client` returns without an error, whatever the server and the network
  -- do: the blob is a size, and on a stream that was opened the request for that many bytes was sent,
  -- the client's side was closed, and exactly that many bytes came back.
  pub run_client-IsExchanged :
      (args : ClientArgs) (w w' : World)
      → run_client (client_impl s open_bi parse crates bind_socket) now floats parse args w
        ≡ (ok tt, w')
      → (request : Request) × (before u u' : World) × (parse_request parse args.blob ≡ ok request)
        × (open_bi before ≡ (some tt, u))
        × IsExchanged request (view u) (view u')
        × (w' ≡ (now u').1)
  run_client-IsExchanged args w w' h =
      let done =
        run_client-IsCompleted (client_impl s open_bi parse crates bind_socket) now floats parse
          args w w' h in
      let (_, u', ran, rest) =
        bind-eq-ok (run s open_bi parse done.connected) _ (now done.w2).1 done.w3 done.execution in
      let (_, u, request, opened, parsed, exchanged) =
        run-IsExchanged laws open_bi parse done.connected (now done.w2).1 u' ran in
      let same : done.connected.args ≡ args =
        ap (λ (c : Client crates.ClientConfig). c.args)
          (connect-eq-ok crates bind_socket done.made done.connected done.w1 done.w2
            done.connection)
        ∙ new-eq-ok crates bind_socket args done.made w done.w1 done.make in
      let after : u' ≡ done.w3 =
        ap (λ (p : Outcome (Client crates.ClientConfig) × World). p.1) rest in
      (
        request,
        (now done.w2).1,
        u,
        u',
        ap (λ (a : ClientArgs). parse_request parse a.blob) (sym same) ∙ parsed,
        opened,
        exchanged,
        done.last ∙ ap (λ (x : World). (now x).1) (sym after),
      )
