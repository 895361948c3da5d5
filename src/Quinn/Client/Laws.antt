-- ===== src/Quinn/Client/Laws.antt =====
-- What a run of the client that returns without an error has done.
use nesquic.Prelude.{
  ℕ, ◌≡◌, true, Option, some, List, ◌++◌, length, Outcome, ok, String, Bool-cases, ◌==◌, inl, ◌^◌,
  sym, ◌-◌, ==_iff, ap, inr, ◌∙◌,
}
use nesquic.Prelude.Tasks.{bind-eq-ok, or_fail-eq-ok, or_fail, lift}
use nesquic.Perf.Blob.{Request, to_bytes, len, parse_request}
use nesquic.Quinn.Streams.{Streams, View, IsStreams, Read}
use nesquic.Quinn.Client.{
  Client, run, request_blob, exchange, verify, finish_and_read, read_and_verify, parse_and_exchange,
}

-- What a successful exchange leaves of the stream: the request is written and finished, and the
-- server has sent as many bytes as it asks for.
pub record IsExchanged (request : Request) (before after : View) : Type 0 where
  pub sent : after.written ≡ before.written ++ to_bytes request
  pub closed : after.finished ≡ true
  pub answered : length after.incoming ≡ len request

module _ {s : Streams} (laws : IsStreams s) (open_bi : s.World → Option (Unit {0}) × s.World)
    (parse : String → Outcome ℕ) where
  open s use {World, read_to_end, write, finish}
  open laws use {view, read_law, write_law, finish_law}

  verify-eq-ok :
      (request : Request) (resp : List ℕ) (w w' : World)
      → verify s open_bi parse request resp w ≡ (ok tt, w')
      → (length resp ≡ len request) × (w ≡ w')
  unfolding verify
  verify-eq-ok request resp w w' h = elim (Bool-cases (len request == length resp)) [
    | inl same ↦
        (sym ((==_iff _ _).0 same), ap (λ (p : Outcome (Unit {0}) × World). p.1) (rw same at h))
    | inr differs ↦ cc (rw differs at h)
  ]

  -- The calls of an exchange, one after the other.
  finish_and_read-eq-ok :
      (request : Request) (w w' : World)
      → finish_and_read s open_bi parse request w ≡ (ok tt, w')
      → (view w' ≡ record (view w) { finished = true }) × (length (view w).incoming ≡ len request)
  unfolding finish_and_read read_and_verify
  finish_and_read-eq-ok request w w' h =
      let (_, u, closed, rest) =
        bind-eq-ok (or_fail finish "failed to shutdown stream")
          (λ _. read_and_verify s open_bi parse request) w w' h in
      let (resp, x, read, checked) =
        bind-eq-ok (or_fail (read_to_end (2 ^ 64 - 1)) "failed to read response")
          (verify s open_bi parse request) u w' rest in
      let closed' = or_fail-eq-ok finish _ w u closed in
      let read' = or_fail-eq-ok (read_to_end (2 ^ 64 - 1)) _ u x read in
      let (answered, same_world) = verify-eq-ok request resp x w' checked in
      let after_finish : view u ≡ record (view w) { finished = true } =
        rw closed' at (finish_law w) in
      let (same, _, kept) : Read (2 ^ 64 - 1) (view u) (some resp) (view x) =
        rw read' at (read_law (2 ^ 64 - 1) u) in
      (
        ap view (sym same_world) ∙ kept ∙ after_finish,
        ap (λ (v : View). length v.incoming) (sym after_finish) ∙ ap length (sym same) ∙ answered,
      )

  exchange-IsExchanged :
      (request : Request) (w w' : World)
      → exchange s open_bi parse request w ≡ (ok tt, w')
      → IsExchanged request (view w) (view w')
  unfolding exchange
  exchange-IsExchanged request w w' h =
      let (_, u, wrote, rest) =
        bind-eq-ok (or_fail (write (to_bytes request)) "failed to send request")
          (λ _. finish_and_read s open_bi parse request) w w' h in
      let wrote' = or_fail-eq-ok (write (to_bytes request)) _ w u wrote in
      let after_write : view u
          ≡ record (view w) { written = (view w).written ++ to_bytes request } =
        rw wrote' at (write_law (to_bytes request) w) in
      let (after_finish, answered) = finish_and_read-eq-ok request u w' rest in
      record {
        sent = ap (λ (v : View). v.written) after_finish ∙ ap (λ (v : View). v.written) after_write;
        closed = ap (λ (v : View). v.finished) after_finish;
        answered = ap (λ (v : View). length v.incoming) after_finish ∙ answered;
      }

  -- What a run of the client that returns without an error has done: the client was connected, the
  -- blob is a size, and on the stream that it opened it has sent the request for that many bytes,
  -- closed its side, and been sent exactly that many.
  pub run-IsExchanged :
      {Config : Type 0} (client : Client Config) (w w' : World)
      → run s open_bi parse client w ≡ (ok tt, w')
      → (client.conn ≡ true)
        × (u : World) × (request : Request) × (open_bi w ≡ (some tt, u))
        × (parse_request parse client.args.blob ≡ ok request)
        × IsExchanged request (view u) (view w')
  unfolding run request_blob parse_and_exchange
  run-IsExchanged client w w' h = elim (Bool-cases client.conn) [
    | inl on ↦
        let (_, u, opened, rest) =
          bind-eq-ok (or_fail open_bi "failed to open stream")
            (λ _. parse_and_exchange s open_bi parse client.args.blob) w w' (rw on at h) in
        let (request, x, parsed, done) =
          bind-eq-ok (lift (parse_request parse client.args.blob)) (exchange s open_bi parse) u w'
            rest in
        let same : u ≡ x = ap (λ (p : Outcome Request × World). p.1) parsed in
        (
          on,
          u,
          request,
          or_fail-eq-ok open_bi _ w u opened,
          ap (λ (p : Outcome Request × World). p.0) parsed,
          rw same (exchange-IsExchanged request x w' done),
        )
    | inr off ↦ cc (rw off at h)
  ]
