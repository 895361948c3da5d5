-- ===== src/Msquic/Client/Exchange.antt =====
-- The client on the response that the server sends.
use nesquic.Prelude.{
  ℕ, ◌+◌, ◌<◌, ◌^◌, ◌==◌, ==_iff, ◌≡◌, ltb, ltb→lt, ==_iff, Bool-cases, inl, inr, length-replicate,
  ltb→lt, inl, inr, Bool-cases, true, false, Bool, some, List, [], ◌∷◌, ◌++◌, length, replicate,
  length-append, length-replicate, ap, refl, ◌∙◌, Outcome, ok, Returns, Returns-bind, if◌then◌else◌,
  arith, Returns-map,
}
use nesquic.Text.{Text}
use nesquic.Msquic.Library.{
  MsQuic, receive, peer_send_shutdown, shutdown_complete, connected, connection_shutdown_complete,
  total_buffer_length,
}
use nesquic.Msquic.Common.{make_client_configuration}
use nesquic.Msquic.Protocol.{u64, blob_bytes_from_string, request_to_bytes}
use nesquic.Msquic.Server.{u32}
use nesquic.Msquic.Server.Served.{flatten, bytes_of}
use nesquic.Msquic.Client.{
  ClientState, Callback, on_stream, on_connection, callback, stream_callback, connection_callback,
  wait, after_wait, started, opened, configured, run_client, parse_url,
}

total-flatten : (buffers : List (List ℕ)) → total_buffer_length buffers ≡ length (flatten buffers)
unfolding total_buffer_length flatten
total-flatten [] = refl
total-flatten (buffer ∷ buffers) =
    omega (arith, total-flatten buffers, length-append buffer (flatten buffers))

-- The calls of a run in which nothing fails, when the response arrives in some parts.
unfoldable pub parts : ℕ → ℕ → List (List (List ℕ)) → List Callback
parts connection stream [] =
    on_stream stream peer_send_shutdown
    ∷ on_stream stream shutdown_complete
    ∷ on_connection connection connection_shutdown_complete
    ∷ []
parts connection stream (buffers ∷ events) =
    on_stream stream (receive buffers) ∷ parts connection stream events

verdict : (n size : ℕ) → n ≡ u32 size → size < 2 ^ 64 → (u64 (0 + n) == size) ≡ ltb size (2 ^ 32)
verdict n size e fits = elim (Bool-cases (ltb size (2 ^ 32))) [
  | inl small ↦ rw small ((==_iff _ _).1 (omega (arith, ltb→lt size (2 ^ 32) small)))
  | inr large ↦ rw large (ground arith)
]

module _ (msquic : MsQuic) where
  open msquic use {World, connection_open, connection_start}

  Judged : ClientState → List (List (List ℕ)) → ClientState × World → Type 0
  Judged state events r =
      r.0.is_ok ≡ (u64 (state.received + length (bytes_of events)) == state.requested)

  resumes :
      (over : Bool) (Q : ClientState × World → Type 0) (now : ClientState × World)
      (later : Outcome (ClientState × World))
      → over ≡ false
      → Returns later Q
      → Returns (if over then ok now else later) Q
  resumes true Q now later waits h = cc waits
  resumes false Q now later waits h = h

  wait-Judged :
      (connection stream : ℕ) (events : List (List (List ℕ))) (state : ClientState) (w : World)
      → state.done ≡ false
      → state.received < 2 ^ 64
      → Returns (wait msquic (parts connection stream events) state w) (Judged state events)
  unfolding wait callback stream_callback connection_callback parts bytes_of Judged
  wait-Judged connection stream [] state w waits small =
      let same : u64 (state.received + 0) ≡ state.received = omega arith in rw (waits, same) refl
  wait-Judged connection stream (buffers ∷ events) state w waits small =
      let next : ClientState = record state {
        received = u64 (state.received + total_buffer_length buffers);
      } in
      let count : u64 (next.received + length (bytes_of events))
          ≡ u64 (state.received + length (flatten buffers ++ bytes_of events)) =
        omega (arith, total-flatten buffers, length-append (flatten buffers) (bytes_of events)) in
      resumes state.done (Judged state (buffers ∷ events)) (state, w)
        (wait msquic (parts connection stream events) next w) waits
        (Returns-map (Judged next events) (Judged state (buffers ∷ events))
          (wait msquic (parts connection stream events) next w)
          (wait-Judged connection stream events next w waits (omega arith))
          (λ r j. j ∙ ap (λ (n : ℕ). n == state.requested) count))

  -- Where the blob is a size, and the configuration, the address and the connection are made: when the
  -- response that the server over msquic sends for that size arrives whole, in whatever parts, and the
  -- library announces the end of it, of the stream and of the connection, the client returns 0 if the
  -- size is below 2^32, and 1 otherwise.
  pub run_client-exit :
      (stoi : Text → Outcome ℕ) (stream connection config size : ℕ) (cert blob url : Text)
      (address : Text × ℕ) (events : List (List (List ℕ))) (w w1 w2 w3 : World)
      → blob_bytes_from_string blob ≡ some size
      → size < 2 ^ 64
      → make_client_configuration msquic cert w ≡ (some config, w1)
      → parse_url stoi url ≡ ok address
      → connection_open w1 ≡ (some connection, w2)
      → connection_start connection config address.0 address.1 w2 ≡ (true, w3)
      → bytes_of events ≡ replicate (u32 size) 0
      → Returns
          (run_client msquic stoi
            (on_connection connection connected ∷ parts connection stream events)
            cert
            blob
            url
            w)
          (λ r. r.0 ≡ (if ltb size (2 ^ 32) then 0 else 1))
  unfolding run_client configured opened started after_wait wait callback connection_callback Judged
  run_client-exit stoi stream connection config size cert blob url address events w w1 w2 w3 parsed
        fits configures resolves opens starts sent =
      rw (parsed, run_client, configures, configured, resolves, opens, opened, starts)
        (Returns-bind
          (Judged
            (record {
              connection = connection;
              requested = size;
              received = 0;
              request = request_to_bytes size;
              is_ok = false;
              done = false;
            })
            events)
          _ (wait msquic (parts connection stream events) _ _) _
          (wait-Judged connection stream events _ _ refl (omega arith))
          (λ (s, u) j.
            ap (λ (b : Bool). if b then 0 else 1)
              (j
                ∙ verdict (length (bytes_of events)) size
                    (rw sent (length-replicate {A = ℕ} (u32 size) 0)) fits)))
