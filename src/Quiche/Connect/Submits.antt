-- ===== src/Quiche/Connect/Submits.antt =====
-- What a connected client of iut/quiche submits.
use nesquic.Prelude.{ℕ, String, Outcome, ok, some, ◌≡◌, [], ◌∷◌, refl, true, ap, sym, value_or, ◌∙◌}
use nesquic.Prelude.Tasks.{bind-eq-ok, or_fail, require, unwrap}
use nesquic.Net.{v4}
use nesquic.Perf.Blob.{parse_request}
use nesquic.Quiche.Crates.{Crates}
use nesquic.Quiche.Client.{Client, submit, send_request}
use nesquic.Quiche.Benchmark.{Benchmark, new as new_benchmark}
use nesquic.Quiche.Connect.{connect, connect_socket_to, establish, resolve, alpn}

-- The client that is connected, and its application.
abbrev connected : Client → Client × Benchmark
connected client = (record client { conn = true; send = true }, new_benchmark)

module _ {World : Type 0} (crates : Crates World) where
  open crates use {bind, connect_socket, quic_socket, connect_with_config}

  establish-eq-ok :
      (client : Client) (made : Client × Benchmark) (w w' : World)
      → establish crates client w ≡ (ok made, w')
      → made ≡ connected client
  unfolding establish
  establish-eq-ok client made w w' h =
      let (_, u, _, h1) = bind-eq-ok (or_fail (connect_with_config alpn) _) _ w w' h in
      ap (λ (p : Outcome (Client × Benchmark) × World). value_or made p.0) (sym h1)

  connect-eq-ok :
      (client : Client) (made : Client × Benchmark) (w w' : World)
      → connect crates client w ≡ (ok made, w')
      → made ≡ connected client
  unfolding connect connect_socket_to
  connect-eq-ok client made w w' h =
      let (host, w1, _, h1) = bind-eq-ok (unwrap client.args.url.host_str) _ w w' h in
      let (remote, w2, _, h2) = bind-eq-ok (resolve crates host client) _ w1 w' h1 in
      let (_, w3, _, h3) = bind-eq-ok (or_fail (bind (v4 0 0)) _) _ w2 w' h2 in
      let (_, w4, _, h4) = bind-eq-ok (or_fail (connect_socket remote) _) _ w3 w' h3 in
      let (_, w5, _, h5) = bind-eq-ok (or_fail quic_socket _) _ w4 w' h4 in
      let (_, w6, _, h6) = bind-eq-ok (require client.args.url.host_str _) _ w5 w' h5 in
      establish-eq-ok client made w6 w' h6

  -- A client that `connect` has returned without an error submits its request, where its blob parses
  -- to a size: the application of its connection then has that request on stream 0, with the
  -- receiver `tx`, and nothing else.
  pub connect-submit :
      (parse : String → Outcome ℕ) (tx n : ℕ) (client client' : Client) (app : Benchmark)
      (w w' : World)
      → connect crates client w ≡ (ok (client', app), w')
      → parse client.args.blob ≡ ok n
      → submit parse tx client' (some app)
        ≡ ok (record new_benchmark { reqs = (0, record { size = n }, tx) ∷ [] })
  unfolding submit send_request parse_request
  connect-submit parse tx n client client' app w w' h parsed =
      let same = connect-eq-ok client (client', app) w w' h in
      ap (λ (p : Client × Benchmark). submit parse tx p.0 (some p.1)) same ∙ rw parsed refl
