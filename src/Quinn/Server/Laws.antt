-- ===== src/Quinn/Server/Laws.antt =====
-- What a request and a connection get from the server.
use nesquic.Prelude.{
  ℕ, ◌≤◌, ◌≡◌, true, List, ◌++◌, length, take, replicate, ok, if◌then◌else◌, ◌*◌, leb, panic,
  Bool-cases, ◌↔◌, ◌<◌, ◌≢◌, none, Option, IsPanicFree, sym, ap, inl, ◌∙◌, leb→le, ◌>>=◌, inr,
  arith, some, String, map, ◌∷◌, err, [], refl,
}
use nesquic.Prelude.Tasks.{bind-eq-ok, or_fail-eq-ok, or_fail, continue, message}
use nesquic.Prelude.Keeps.{bind-IsPanicFree, or_fail-IsPanicFree}
use nesquic.Perf.Bytes.{from_be_bytes}
use nesquic.Quinn.Streams.{Streams, View, IsStreams, Read}
use nesquic.Quinn.Server.{
  handle_request, respond, serve, handle_connection, spawn, Accepted, stream, application_closed,
  connection_error,
}
use nesquic.Perf.Blob.Wire.{try_from-of_bytes, from_iter_lem, try_from-panic_iff}
use mathlib.Core.Path.{ap₂}

-- What a request that was served leaves: the request has eight bytes or more, and the stream carries
-- as many zeros as they ask for behind what it carried, and is finished.
pub record IsServed (before after : View) : Type 0 where
  pub complete : 8 ≤ length before.incoming
  pub payload :
      after.written ≡ before.written ++ replicate (from_be_bytes (take 8 before.incoming)) 0
  pub finished : after.finished ≡ true

module _ (s : Streams) where
  open s use {World}

  -- Requests of eight bytes or more are answered, and shorter ones are not.
  serve_lem :
      (req : List ℕ) (w : World)
      → serve s req w ≡ (
          if leb 8 (length req)
          then respond s (replicate (from_be_bytes (take 8 req)) 0) w
          else (panic, w))
  unfolding serve
  serve_lem req w = elim (Bool-cases (leb 8 (length req))) [
    | inl fits ↦
        rw (fits, try_from-of_bytes req (leb→le 8 _ fits), from_iter_lem, ◌>>=◌)
          (ap (λ (n : ℕ). respond s (replicate n 0) w) (omega arith))
    | inr short ↦ rw short (rw ((try_from-panic_iff req).0.1 (ground arith)))
  ]

module _ {s : Streams} (laws : IsStreams s) where
  open s use {World, read_to_end, write, finish}
  open laws use {view, read_law, write_law, finish_law}

  -- The two calls that send the answer.
  respond-eq-ok :
      (payload : List ℕ) (w w' : World)
      → respond s payload w ≡ (ok tt, w')
      → ((view w').written ≡ (view w).written ++ payload) × ((view w').finished ≡ true)
  unfolding respond
  respond-eq-ok payload w w' h =
      let (_, u, wrote, closed) =
        bind-eq-ok (or_fail (write payload) "failed to send response")
          (λ _. or_fail finish "failed to shutdown stream") w w' h in
      let wrote' = or_fail-eq-ok (write payload) _ w u wrote in
      let closed' = or_fail-eq-ok finish _ u w' closed in
      let after_write : view u ≡ record (view w) { written = (view w).written ++ payload } =
        rw wrote' at (write_law payload w) in
      let after_finish : view w' ≡ record (view u) { finished = true } =
        rw closed' at (finish_law u) in
      (
        ap (λ (v : View). v.written) after_finish ∙ ap (λ (v : View). v.written) after_write,
        ap (λ (v : View). v.finished) after_finish,
      )

  respond-IsPanicFree : (payload : List ℕ) (w : World) → IsPanicFree (respond s payload w).0
  unfolding respond
  respond-IsPanicFree payload w =
      bind-IsPanicFree (or_fail (write payload) _) _
        (λ w. or_fail-IsPanicFree (write payload) "failed to send response" w)
        (λ _ w. or_fail-IsPanicFree finish "failed to shutdown stream" w) w

  serve-panic : (req : List ℕ) (w : World) → ((serve s req w).0 ≡ panic) ↔ (length req < 8)
  serve-panic req w = elim (Bool-cases (leb 8 (length req))) [
    | inl fits ↦
        rw (serve_lem s req w, fits)
          (
            (λ e.
                absurd
                  (rw e at (respond-IsPanicFree (replicate (from_be_bytes (take 8 req)) 0) w))),
            (λ few. absurd (omega (arith, leb→le 8 _ fits))),
          )
    | inr short ↦ rw (serve_lem s req w, short) ((λ e. ground arith), (λ few. refl))
  ]

  -- `handle_request` panics exactly when all that the peer sends is read and is fewer than eight
  -- bytes: a failed reading, a failed writing and every longer request end otherwise.
  pub handle_request-panic :
      (w : World)
      → ((handle_request s w).0 ≡ panic)
        ↔ (((read_to_end (64 * 1024) w).0 ≢ none) × (length (view w).incoming < 8))
  unfolding handle_request
  handle_request-panic w = go (read_to_end (64 * 1024) w) (read_law (64 * 1024) w)
    where
      go :
          (p : Option (List ℕ) × World)
          → Read (64 * 1024) (view w) p.0 (view p.1)
          → ((continue (message "failed reading request" p.0) (serve s) p.1).0 ≡ panic)
            ↔ ((p.0 ≢ none) × (length (view w).incoming < 8))
      go (none, u) kept = ((λ e. cc), (λ (some_read, few). absurd (some_read refl)))
      go (some req, u) (same, _, kept) =
          rw (sym same)
            ((λ e. ((λ e'. cc), (serve-panic req u).0 e)), (λ (_, few). (serve-panic req u).1 few))

  -- A request that `handle_request` returns from without an error was served.
  pub handle_request-IsServed :
      (w w' : World) → handle_request s w ≡ (ok tt, w') → IsServed (view w) (view w')
  unfolding handle_request
  handle_request-IsServed w w' h =
      let (req, u, read, rest) =
        bind-eq-ok (or_fail (read_to_end (64 * 1024)) "failed reading request") (serve s) w w' h in
      let (same, _, kept) : Read (64 * 1024) (view w) (some req) (view u) =
        rw (or_fail-eq-ok (read_to_end (64 * 1024)) _ w u read) at (read_law (64 * 1024) w) in
      elim (Bool-cases (leb 8 (length req))) [
        | inl fits ↦
            let (payload, closed) =
              respond-eq-ok _ u w' (rw fits at (rw (serve_lem s req u) at rest)) in
            record {
              complete = rw same at (leb→le 8 _ fits);
              payload =
                  payload
                  ∙ ap₂ (λ (a b : List ℕ). a ++ replicate (from_be_bytes (take 8 b)) 0)
                      (ap (λ (v : View). v.written) kept) same;
              finished = closed;
            }
        | inr short ↦ cc (rw short at (rw (serve_lem s req u) at rest))
      ]

module _ {Stream : Type 0} where
  -- On a connection that is established and then closed by the client, a handler is spawned for each
  -- stream, in order, and the connection ends without an error; what the closed connection would
  -- return afterwards is not asked for.
  handle_connection-closed :
      (streams : List Stream) (rest : List (Accepted Stream))
      → handle_connection (ok tt) (map stream streams ++ (application_closed ∷ rest))
        ≡ record { spawned = streams; ended = some (ok tt) }
  unfolding handle_connection spawn
  handle_connection-closed [] rest = refl
  handle_connection-closed (x ∷ streams) rest = ap (spawn x) (handle_connection-closed streams rest)

  -- The same where another error ends the connection: that error is returned.
  handle_connection-error :
      (streams : List Stream) (e : String) (rest : List (Accepted Stream))
      → handle_connection (ok tt) (map stream streams ++ (connection_error e ∷ rest))
        ≡ record { spawned = streams; ended = some (err e) }
  unfolding handle_connection spawn
  handle_connection-error [] e rest = refl
  handle_connection-error (x ∷ streams) e rest =
      ap (spawn x) (handle_connection-error streams e rest)
