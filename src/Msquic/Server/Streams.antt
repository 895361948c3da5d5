-- ===== src/Msquic/Server/Streams.antt =====
-- The streams of the server beside each other.
use mathlib.Core.Path.{subst}
use nesquic.Prelude.{
  ℕ, ◌≤◌, ◌≡◌, ◌≢◌, ◌==◌, ==_iff, refl, sym, ◌∙◌, inl, inr, Bool-cases, true, false, some,
  Option-cases, List, [], ◌∷◌, ◌++◌, length, take, append_assoc, append-nil, take-all, ltb,
  length-take, All, if◌then◌else◌, arith,
}
use nesquic.Msquic.Library.{
  MsQuic, StreamEvent, receive, peer_send_shutdown, shutdown_complete, other_stream_event,
  connected, peer_stream_started, shutdown_initiated_by_transport, connection_shutdown_complete,
  other_connection_event,
}
use nesquic.Msquic.Server.{
  StreamState, Contexts, Callback, on_stream, on_connection, new_connection, put, callback,
  callbacks, stream_callback, connection_callback, serve,
}
use nesquic.Msquic.Server.Served.{flatten, take_buffers-take, take-take}

-- The bytes that some calls bring on a stream.
unfoldable pub bytes_on : ℕ → List Callback → List ℕ
bytes_on i [] = []
bytes_on i (on_stream stream (receive buffers) ∷ calls) =
    (if i == stream then flatten buffers else []) ++ bytes_on i calls
bytes_on i (on_stream stream peer_send_shutdown ∷ calls) = bytes_on i calls
bytes_on i (on_stream stream shutdown_complete ∷ calls) = bytes_on i calls
bytes_on i (on_stream stream other_stream_event ∷ calls) = bytes_on i calls
bytes_on i (on_connection connection event ∷ calls) = bytes_on i calls
bytes_on i (new_connection connection ∷ calls) = bytes_on i calls

-- A call after which the stream is still the one that it was.
abbrev pub Spares : ℕ → Callback → Type 0
Spares i (on_stream stream shutdown_complete) = i ≢ stream
Spares i (on_connection connection (peer_stream_started stream)) = i ≢ stream
Spares i call = Unit

-- The stream has a context, in which `request` is what is gathered.
unfoldable pub Gathers : ℕ → List ℕ → Contexts → Type 0
Gathers i request contexts =
    (state : StreamState) × (contexts i ≡ some state) × (state.request ≡ request)

bytes_on-cons :
    (i : ℕ) (call : Callback) (calls : List Callback)
    → bytes_on i (call ∷ calls) ≡ bytes_on i (call ∷ []) ++ bytes_on i calls
unfolding bytes_on
bytes_on-cons i (on_stream stream (receive buffers)) calls =
    rw (append-nil (if i == stream then flatten buffers else [])) refl
bytes_on-cons i (on_stream stream peer_send_shutdown) calls = refl
bytes_on-cons i (on_stream stream shutdown_complete) calls = refl
bytes_on-cons i (on_stream stream other_stream_event) calls = refl
bytes_on-cons i (on_connection connection event) calls = refl
bytes_on-cons i (new_connection connection) calls = refl

module _ (msquic : MsQuic) (config i : ℕ) where
  open msquic use {World}

  on_stream-own :
      (event : StreamEvent) (contexts : Contexts) (w : World) (state : StreamState)
      → contexts i ≡ some state
      → (callback msquic config (on_stream i event) (contexts, w)).0 i
        ≡ (stream_callback msquic i event state w).0
  unfolding callback put
  on_stream-own event contexts w state known =
      let self : (i == i) ≡ true = (==_iff i i).1 refl in rw (callback, known, self) refl

  on_stream-other :
      (stream : ℕ) (event : StreamEvent) (contexts : Contexts) (w : World)
      → (i == stream) ≡ false
      → (callback msquic config (on_stream stream event) (contexts, w)).0 i ≡ contexts i
  unfolding callback put
  on_stream-other stream event contexts w differs = elim (Option-cases (contexts stream)) [
    | inl unknown ↦ rw (callback, unknown) refl
    | inr (state, known) ↦ rw (callback, known, differs) refl
  ]

  keeps_all : (request : List ℕ) → length request ≤ 8 → take 8 (request ++ []) ≡ request
  keeps_all request h = rw (append-nil request) (take-all 8 request h)

  serve-request :
      (state : StreamState) (w : World) → (serve msquic i state w).0.request ≡ state.request
  unfolding serve
  serve-request state w = elim (Bool-cases (ltb (length state.request) 8)) [
    | inl short ↦ rw (serve, short) refl
    | inr long ↦ rw (serve, long) refl
  ]

  -- What a call on a stream gathers there.
  own-Gathers :
      (event : StreamEvent) (request : List ℕ) (now : Contexts × World)
      → length request ≤ 8
      → Spares i (on_stream i event)
      → Gathers i request now.0
      → Gathers i
          (take 8 (request ++ bytes_on i (on_stream i event ∷ [])))
          (callback msquic config (on_stream i event) now).0
  unfolding Gathers bytes_on stream_callback
  own-Gathers (receive buffers) request (contexts, w) h spared (state, known, same) =
      let self : (i == i) ≡ true = (==_iff i i).1 refl in
      (
        _,
        on_stream-own (receive buffers) contexts w state known,
        rw (self, append-nil (flatten buffers), same) (take_buffers-take buffers request h),
      )
  own-Gathers peer_send_shutdown request (contexts, w) h spared (state, known, same) = (
    _,
    on_stream-own peer_send_shutdown contexts w state known,
    rw (keeps_all request h) (serve-request state w ∙ same),
  )
  own-Gathers shutdown_complete request (contexts, w) h spared (state, known, same) =
      absurd (spared refl)
  own-Gathers other_stream_event request (contexts, w) h spared (state, known, same) =
      (_, on_stream-own other_stream_event contexts w state known, rw (keeps_all request h) same)

  -- A call that brings the stream nothing.
  nothing-Gathers :
      (request : List ℕ) (contexts after : Contexts)
      → length request ≤ 8
      → after i ≡ contexts i
      → Gathers i request contexts
      → Gathers i (take 8 (request ++ [])) after
  unfolding Gathers
  nothing-Gathers request contexts after h still (state, known, same) =
      (state, still ∙ known, rw (keeps_all request h) same)

  elsewhere :
      (stream : ℕ) (event : StreamEvent)
      → (i == stream) ≡ false
      → bytes_on i (on_stream stream event ∷ []) ≡ []
  unfolding bytes_on
  elsewhere stream (receive buffers) differs = rw differs refl
  elsewhere stream peer_send_shutdown differs = refl
  elsewhere stream shutdown_complete differs = refl
  elsewhere stream other_stream_event differs = refl

  callback-Gathers :
      (call : Callback) (request : List ℕ) (now : Contexts × World)
      → length request ≤ 8
      → Spares i call
      → Gathers i request now.0
      → Gathers i (take 8 (request ++ bytes_on i (call ∷ []))) (callback msquic config call now).0
  unfolding callback connection_callback bytes_on put
  callback-Gathers (on_stream stream event) request now h spared g =
      elim (Bool-cases (i == stream)) [
        | inl same ↦
            let e : stream ≡ i = sym ((==_iff i stream).0 same) in
            subst
              (λ s.
                Gathers i (take 8 (request ++ bytes_on i (on_stream s event ∷ [])))
                  (callback msquic config (on_stream s event) now).0)
              (sym e)
              (own-Gathers event request now h (subst (λ s. Spares i (on_stream s event)) e spared)
                g)
        | inr differs ↦
            rw (elsewhere stream event differs) (
              nothing-Gathers request now.0 _ h (on_stream-other stream event now.0 now.1 differs)
                g)
      ]
  callback-Gathers (on_connection connection (peer_stream_started stream)) request (contexts, w) h
        spared g =
      let differs : (i == stream) ≡ false = ground arith in
      nothing-Gathers request contexts _ h (rw differs refl) g
  callback-Gathers (on_connection connection connected) request now h spared g =
      nothing-Gathers request now.0 _ h refl g
  callback-Gathers (on_connection connection shutdown_initiated_by_transport) request now h spared
        g =
      nothing-Gathers request now.0 _ h refl g
  callback-Gathers (on_connection connection connection_shutdown_complete) request (contexts, w) h
        spared g =
      nothing-Gathers request contexts _ h refl g
  callback-Gathers (on_connection connection other_connection_event) request now h spared g =
      nothing-Gathers request now.0 _ h refl g
  callback-Gathers (new_connection connection) request (contexts, w) h spared g =
      nothing-Gathers request contexts _ h refl g

  -- Whatever the calls for the other streams and for the connections are, and however they are
  -- mixed with its own: on a stream that is neither started again nor closed, the request is what was
  -- gathered and then the bytes that came on it, up to the eighth.
  pub callbacks-Gathers :
      (calls : List Callback) (request : List ℕ) (now : Contexts × World)
      → length request ≤ 8
      → All (Spares i) calls
      → Gathers i request now.0
      → Gathers i (take 8 (request ++ bytes_on i calls)) (callbacks msquic config calls now).0
  unfolding callbacks bytes_on
  callbacks-Gathers [] request now h spared g = nothing-Gathers request now.0 now.0 h refl g
  callbacks-Gathers (call ∷ calls) request now h spared g =
      let first = take 8 (request ++ bytes_on i (call ∷ [])) in
      let all : take 8 (first ++ bytes_on i calls) ≡ take 8 (request ++ bytes_on i (call ∷ calls)) =
        take-take 8 (request ++ bytes_on i (call ∷ [])) (bytes_on i calls)
        ∙ rw
            (
              bytes_on-cons i call calls,
              append_assoc request (bytes_on i (call ∷ [])) (bytes_on i calls),
            )
            refl in
      rw all at (
        callbacks-Gathers calls first (callback msquic config call now)
          (omega (arith, length-take 8 (request ++ bytes_on i (call ∷ [])))) spared.1
          (callback-Gathers call request now h spared.0 g))
