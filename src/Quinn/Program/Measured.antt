-- ===== src/Quinn/Program/Measured.antt =====
-- A run of the whole client program against the server.
use nesquic.Prelude.{
  ℕ, ◌≡◌, ok, ◌<◌, ◌^◌, String, Outcome, some, none, [], ◌∷◌, ◌-◌, refl, true, ap, ◌∙◌,
}
use nesquic.Prelude.Tasks.{Task}
use nesquic.Net.{SocketAddr}
use nesquic.Bin.{ClientArgs}
use nesquic.Perf.Blob.{to_bytes, parse_request, len}
use nesquic.Perf.Stats.{Floats}
use nesquic.Common.Client.{run_and_measure}
use nesquic.Common.Client.Measure.{run_and_measure-sample}
use nesquic.Quinn.Streams.{View}
use nesquic.Quinn.Crates.{Crates}
use nesquic.Quinn.Client.{Client}
use nesquic.Quinn.Connect.{new, connect}
use nesquic.Quinn.Connect.Connected.{connect-eq-ok, new-eq-ok}
use nesquic.Quinn.Exchange.{client_end, blank, run-server}
use nesquic.Quinn.Program.{client_impl}

-- What the stream has seen after an exchange of `n` bytes.
abbrev pub exchanged : ℕ → View
exchanged n = record { incoming = []; written = to_bytes (record { size = n }); finished = true }

module _ (crates : Crates View) (bind_socket : SocketAddr → Task View (Unit {0}))
    (now : View → ℕ × View) (floats : Floats) (parse : String → Outcome ℕ) where
  open crates use {ClientConfig}

  -- Where the blob is a size that a u64 holds and the client is made and connects without an error,
  -- over a stream that loses nothing with the server's `handle_request` at the other end, the
  -- program's `run_client` returns without an error, the server was sent the request for that size,
  -- and the statistics hold one measurement: the time of the run, and that size.
  pub run_and_measure-server :
      (args : ClientArgs) (n : ℕ) (made connected : Client ClientConfig) (w w1 w2 : View)
      → parse args.blob ≡ ok n
      → n < 2 ^ 64
      → new crates bind_socket args w ≡ (ok made, w1)
      → connect crates bind_socket made w1 ≡ (ok connected, w2)
      → (now w2).1 ≡ blank
      → run_and_measure
          (client_impl client_end (λ v. (some tt, v)) parse crates bind_socket)
          now
          floats
          parse
          args
          w
        ≡ (
          ok (record {
            deltas = ((now (exchanged n)).0 - (now w2).0) ∷ [];
            start = none;
            num_bytes = n ∷ [];
          }),
          (now (exchanged n)).1,
        )
  unfolding len parse_request
  run_and_measure-server args n made connected w w1 w2 parsed fits e1 e2 fresh =
      let same : connected.args ≡ args =
        ap (λ (c : Client ClientConfig). c.args)
          (connect-eq-ok crates bind_socket made connected w1 w2 e2)
        ∙ new-eq-ok crates bind_socket args made w w1 e1 in
      let on : connected.conn ≡ true =
        ap (λ (c : Client ClientConfig). c.conn)
          (connect-eq-ok crates bind_socket made connected w1 w2 e2) in
      let asked : parse connected.args.blob ≡ ok n = rw same parsed in
      run_and_measure-sample (client_impl client_end (λ v. (some tt, v)) parse crates bind_socket)
        now floats parse args (record { size = n }) made connected connected w w1 w2 (exchanged n)
        (rw parsed refl) fits e1 e2 (rw (fresh, run-server parse connected n on asked fits) refl)
