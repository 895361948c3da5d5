-- ===== src/Noq/Program.antt =====
-- The test of connectivity of iut/noq.
use nesquic.Prelude.{ℕ, ◌≡◌, ok, ◌<◌, ◌^◌, String, Outcome, some, refl}
use nesquic.Prelude.Tasks.{Task}
use nesquic.Net.{SocketAddr}
use nesquic.Perf.Stats.{Floats}
use nesquic.Common.Client.{run_client}
use nesquic.Common.Connectivity.{Timeout, connectivity, client_test_args}
use nesquic.Common.Connectivity.Passes.{connectivity-healthy}
use nesquic.Quinn.Streams.{View}
use nesquic.Quinn.Crates.{Crates}
use nesquic.Quinn.Exchange.{client_end, blank}
use nesquic.Quinn.Program.Measured.{exchanged, run_and_measure-server}
use nesquic.Noq.Client.{Client, client_impl, new, connect}

module _ (crates : Crates View) (bind_socket : SocketAddr → Task View (Unit {0}))
    (timeout : Timeout View) (now : View → ℕ × View) (floats : Floats)
    (parse : String → Outcome ℕ) where
  open crates use {ClientConfig}

  -- Over a stream that loses nothing, with the server's `handle_request` at the other end: where no
  -- time elapses, "50Mbit" is a size that a u64 holds, and the client is made and connects twice
  -- without an error, for the first check of the health and for the run, the test of connectivity
  -- passes, and the server was sent the request for that size.
  pub connectivity_passes :
      (cert : String) (n : ℕ) (made1 connected1 made2 connected2 : Client ClientConfig)
      (w w1 w2 w3 w4 : View)
      → ((ms : ℕ) (m : Task View (Unit {0})) (w : View) → timeout ms m w ≡ (some (m w).0, (m w).1))
      → parse "50Mbit" ≡ ok n
      → n < 2 ^ 64
      → new crates bind_socket (client_test_args cert) w ≡ (ok made1, w1)
      → connect crates bind_socket made1 w1 ≡ (ok connected1, w2)
      → new crates bind_socket (client_test_args cert) w2 ≡ (ok made2, w3)
      → connect crates bind_socket made2 w3 ≡ (ok connected2, w4)
      → (now w4).1 ≡ blank
      → connectivity
          (client_impl client_end (λ v. (some tt, v)) parse crates bind_socket)
          timeout
          now
          floats
          parse
          (client_test_args cert)
          w
        ≡ (ok tt, (now (exchanged n)).1)
  unfolding run_client
  connectivity_passes cert n made1 connected1 made2 connected2 w w1 w2 w3 w4 in_time parsed fits e1
        e2 e3 e4 fresh =
      rw
        (
          connectivity-healthy (client_impl client_end (λ v. (some tt, v)) parse crates bind_socket)
              timeout now floats parse (client_test_args cert) made1 connected1 w w1 w2 in_time e1
              e2,
          run_and_measure-server crates bind_socket now floats parse (client_test_args cert) n made2
              connected2 w2 w3 w4 parsed fits e3 e4 fresh,
        )
        refl
