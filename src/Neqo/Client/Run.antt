-- ===== src/Neqo/Client/Run.antt =====
-- What a run of the client that returns without an error has done.
use nesquic.Prelude.{
  ℕ, ◌≡◌, Bool, [], String, ok, ap, true, false, length, value_or, err, refl, panic, sym, stuck,
  ◌==◌, Bool-cases, inl, ◌∙◌, ==_iff, arith, inr, ◌≤◌, ◌++◌, take, take-all,
}
use nesquic.Prelude.Tasks.{bind-eq-ok, or_fail-eq-ok}
use nesquic.Prelude.Keeps.{Holds-at, Holds-map}
use nesquic.Neqo.Driver.{Driver, IsDriver, View, fresh}
use nesquic.Neqo.Client.{
  Progress, receive, Request, returning, Outcome, require, require_set, check_response, len,
  close_and_receive, receive_and_verify, verify, or_fail, request_blob, run, send_request, Client,
  lift,
}
use nesquic.Neqo.Client.Response.{IsCounted, check_response-Ensures, same_view-IsCounted}
use nesquic.Neqo.Drive.Frame.{round-Keeps}
use nesquic.Neqo.Drive.Rounds.{drive_until-eq-ok}
use nesquic.Perf.Blob.{to_bytes, parse_request}
use nesquic.Neqo.Drive.{round}
use mathlib.Core.Path.{subst}
use nesquic.Perf.Blob.Wire.{length-to_bytes}

-- A stream on which a request was sent whole and closed, and whose response was read to its end and
-- is as long as the request asks for.
pub record IsFetched (request : Request) (v : View) : Type 0 where
  pub sent : v.sent ≡ to_bytes request
  pub closed : v.closed ≡ true
  pub length_read : length v.read ≡ len request
  pub ended : v.ended ≡ true

require_set-eq-ok :
    {W : Type 0} (b : Bool) (e : String) (w w' : W)
    → require_set b e w ≡ (ok tt, w')
    → (b ≡ true) × (w ≡ w')
require_set-eq-ok false e w w' h = cc
require_set-eq-ok true e w w' h = (refl, ap (λ (p : Outcome (Unit {0}) × _). p.1) h)

module _ {d : Driver} (laws : IsDriver d) where
  open d use {World, stream_create, stream_send, stream_close_send}
  open laws use {view, create_law, send_law, close_law}

  returning-eq-ok :
      (q : Outcome (Unit {0}) × (World × Progress)) (p : Progress) (w' : World)
      → returning d q ≡ (ok p, w')
      → q ≡ (ok tt, (w', p))
  unfolding returning
  returning-eq-ok (ok _, (w, s)) p w' h =
      rw
        (
          ap (λ (x : Outcome Progress × World). value_or s x.0) h,
          ap (λ (x : Outcome Progress × World). x.1) h,
        )
        refl
  returning-eq-ok (err e, (w, s)) p w' h = cc
  returning-eq-ok (panic, (w, s)) p w' h = cc
  returning-eq-ok (stuck, (w, s)) p w' h = cc

  -- A response that was received was counted, and its end was seen.
  receive-eq-ok :
      (rounds fuel i : ℕ) (w w' : World) (p : Progress)
      → (view w i).read ≡ []
      → receive d rounds fuel i w ≡ (ok p, w')
      → IsCounted laws i (view w i) (w', p) × (p.response_done ≡ true)
  unfolding receive
  receive-eq-ok rounds fuel i w w' p empty h =
      let begun : World × Progress = (w, record { received = 0; response_done = false }) in
      let J : World × Progress → Type 0 = IsCounted laws i (view w i) in
      let start : J begun = record {
        total = rw empty refl;
        whole = λ k. cc;
        sent = refl;
        closed = refl;
      } in
      let (z, k, last) =
        drive_until-eq-ok d J rounds fuel (check_response d fuel i) begun (w', p)
          (λ x k.
            Holds-map _ _ (check_response d fuel i x) (λ _ _ r. r.0)
              (check_response-Ensures laws i (view w i) fuel x k))
          (λ u s k.
            same_view-IsCounted laws i (view w i) u (round d fuel u).1 s
              (round-Keeps laws i (view u i) fuel u refl) k)
          start (returning-eq-ok _ p w' h) in
      let (counted, said) =
        Holds-at _ _ true (w', p) last (check_response-Ensures laws i (view w i) fuel z k) in
      (counted, sym said)

  -- The part behind the sending.
  receive_and_verify-eq-ok :
      (rounds fuel : ℕ) (request : Request) (i : ℕ) (w w' : World)
      → (view w i).read ≡ []
      → (view w i).sent ≡ to_bytes request
      → (view w i).closed ≡ true
      → receive_and_verify d rounds fuel request i w ≡ (ok tt, w')
      → IsFetched request (view w' i)
  unfolding receive_and_verify verify
  receive_and_verify-eq-ok rounds fuel request i w w' empty sent closed h =
      let (p, u, received, verified) =
        bind-eq-ok (receive d rounds fuel i) (verify d request) w w' h in
      let (counted, whole) = receive-eq-ok rounds fuel i w u p empty received in
      elim (Bool-cases (p.received == len request)) [
        | inl same ↦
            let last : u ≡ w' =
              ap (λ (x : Outcome (Unit {0}) × World). x.1) (rw same at verified) in
            subst (λ x. IsFetched request (view x i)) last
              (record {
                sent = counted.sent ∙ sent;
                closed = counted.closed ∙ closed;
                length_read =
                    counted.total ∙ omega arith ∙ (==_iff p.received (len request)).0 same;
                ended = counted.whole (rw whole refl);
              })
        | inr differs ↦ cc (rw differs at verified)
      ]

  close_and_receive-eq-ok :
      (rounds fuel : ℕ) (request : Request) (i sent : ℕ) (w w' : World)
      → (view w i).read ≡ []
      → (sent ≡ 8 → (view w i).sent ≡ to_bytes request)
      → close_and_receive d rounds fuel request i sent w ≡ (ok tt, w')
      → IsFetched request (view w' i)
  unfolding close_and_receive
  close_and_receive-eq-ok rounds fuel request i sent w w' empty whole h =
      let (_, w1, checked, rest) = bind-eq-ok (require_set (sent == 8) _) _ w w' h in
      let (all, same) = require_set-eq-ok (sent == 8) _ w w1 checked in
      let (_, u, closed, rest') =
        bind-eq-ok (or_fail (stream_close_send i) "close send side")
          (λ _. receive_and_verify d rounds fuel request i) w1 w' rest in
      let law : view u i ≡ record (view w1 i) { closed = true } =
        rw (or_fail-eq-ok (stream_close_send i) _ w1 u closed) at (close_law i w1) in
      receive_and_verify-eq-ok rounds fuel request i u w'
        (ap (λ (v : View). v.read) law ∙ rw⁻¹ same empty)
        (ap (λ (v : View). v.sent) law ∙ rw⁻¹ same (whole ((==_iff sent 8).0 all)))
        (ap (λ (v : View). v.closed) law) rest'

  send_request-eq-ok :
      (rounds fuel : ℕ) (request : Request) (i : ℕ) (w w' : World)
      → view w i ≡ fresh
      → send_request d rounds fuel request i w ≡ (ok tt, w')
      → IsFetched request (view w' i)
  unfolding send_request
  send_request-eq-ok rounds fuel request i w w' new h =
      let (sent, u, wrote, rest) =
        bind-eq-ok (or_fail (stream_send i (to_bytes request)) "send request")
          (close_and_receive d rounds fuel request i) w w' h in
      let (_, law) : (sent ≤ length (to_bytes request))
          × (view u i
              ≡ record (view w i) { sent = (view w i).sent ++ take sent (to_bytes request) }) =
        rw (or_fail-eq-ok (stream_send i (to_bytes request)) _ w u wrote) at
          (send_law i (to_bytes request) w) in
      close_and_receive-eq-ok rounds fuel request i sent u w'
        (ap (λ (v : View). v.read) law ∙ ap (λ (v : View). v.read) new)
        (λ eight.
          ap (λ (v : View). v.sent) law
          ∙ ap (λ (v : View). v.sent ++ take sent (to_bytes request)) new
          ∙ take-all sent (to_bytes request) (omega (arith, length-to_bytes request)))
        rest

  module _ (parse : String → Outcome ℕ) where
    request_blob-eq-ok :
        (rounds fuel : ℕ) (blob : String) (w w' : World)
        → request_blob d parse rounds fuel blob w ≡ (ok tt, w')
        → (request : Request) × (i : ℕ) × (parse_request parse blob ≡ ok request)
          × IsFetched request (view w' i)
    unfolding request_blob
    request_blob-eq-ok rounds fuel blob w w' h =
        let (request, u, parsed, rest) = bind-eq-ok (lift (parse_request parse blob)) _ w w' h in
        let (i, x, created, rest') =
          bind-eq-ok (or_fail stream_create "create bidirectional stream")
            (send_request d rounds fuel request) u w' rest in
        (
          request,
          i,
          ap (λ (p : Outcome Request × World). p.0) parsed,
          send_request-eq-ok rounds fuel request i x w'
              (rw (or_fail-eq-ok stream_create _ u x created) at (create_law u)) rest',
        )

    -- When `run` returns without an error, the client was connected, its blob is a size, and there is
    -- a stream on which it sent the request for that many bytes, whole, and closed its side, and from
    -- which it read exactly as many bytes, up to the end.
    pub run-IsFetched :
        (rounds fuel : ℕ) (client : Client) (w w' : World)
        → run d parse rounds fuel client w ≡ (ok tt, w')
        → (client.conn ≡ true)
          × (request : Request) × (i : ℕ) × (parse_request parse client.args.blob ≡ ok request)
          × IsFetched request (view w' i)
    unfolding run
    run-IsFetched rounds fuel client w w' h =
        let (_, w1, e1, h1) = bind-eq-ok (require_set client.conn _) _ w w' h in
        let (_, w2, e2, h2) = bind-eq-ok (require_set client.socket _) _ w1 w' h1 in
        let (_, w3, e3, h3) = bind-eq-ok (require client.local_addr _) _ w2 w' h2 in
        let (request, i, parsed, fetched) =
          request_blob-eq-ok rounds fuel client.args.blob w3 w' h3 in
        ((require_set-eq-ok client.conn _ w w1 e1).0, request, i, parsed, fetched)
