-- ===== src/Msquic/Client/Verdict.antt =====
-- What the exit code of the client says.
use nesquic.Prelude.{
  ℕ, ◌+◌, ◌<◌, ◌^◌, ==_iff, ◌≡◌, ◌⊎◌, inl, inr, true, false, Bool, Option, none, some, Option-cases,
  List, [], ◌∷◌, ◌++◌, ap, refl, sym, ◌∙◌, Outcome, ok, err, panic, stuck, IfReturns,
  IfReturns-bind, if◌then◌else◌, arith,
}
use nesquic.Text.{Text}
use nesquic.Msquic.Library.{
  MsQuic, receive, peer_send_shutdown, shutdown_complete, other_stream_event, connected,
  peer_stream_started, shutdown_initiated_by_transport, connection_shutdown_complete,
  other_connection_event, total_buffer_length,
}
use nesquic.Msquic.Common.{make_client_configuration}
use nesquic.Msquic.Protocol.{u64, blob_bytes_from_string}
use nesquic.Msquic.Client.{
  ClientState, Callback, on_stream, on_connection, callback, stream_callback, connection_callback,
  wait, after_wait, started, opened, configured, run_client, parse_url,
}

-- How many bytes some calls bring.
unfoldable pub received_in : List Callback → ℕ
received_in [] = 0
received_in (on_stream stream (receive buffers) ∷ calls) =
    total_buffer_length buffers + received_in calls
received_in (on_stream stream peer_send_shutdown ∷ calls) = received_in calls
received_in (on_stream stream shutdown_complete ∷ calls) = received_in calls
received_in (on_stream stream other_stream_event ∷ calls) = received_in calls
received_in (on_connection connection event ∷ calls) = received_in calls

-- The end of a response is announced when the sum of what is received, from `received` on, is `size`.
pub record IsVerified (received size : ℕ) (calls : List Callback) : Type 0 where
  pub before : List Callback
  pub stream : ℕ
  pub after : List Callback
  pub announced : calls ≡ before ++ (on_stream stream peer_send_shutdown ∷ after)
  pub counted : u64 (received + received_in before) ≡ size

later-IsVerified :
    {received received' size : ℕ} {calls : List Callback} (call : Callback)
    → ((before : List Callback)
        → u64 (received + received_in (call ∷ before)) ≡ u64 (received' + received_in before))
    → IsVerified received' size calls
    → IsVerified received size (call ∷ calls)
later-IsVerified call same v = record {
  before = call ∷ v.before;
  stream = v.stream;
  after = v.after;
  announced = ap (λ (l : List Callback). call ∷ l) v.announced;
  counted = same v.before ∙ v.counted;
}

module _ (msquic : MsQuic) where
  open msquic use {World, connection_open, connection_start}

  -- What the end of `wait` says of a state from which it starts.
  Concluded : ClientState → List Callback → ClientState × World → Type 0
  Concluded state calls r =
      r.0.is_ok ≡ true → (state.is_ok ≡ true) ⊎ IsVerified state.received state.requested calls

  -- A call that changes none of the three fields, and brings no bytes.
  unchanged :
      (calls : List Callback) (call : Callback) (s state : ClientState) (r : ClientState × World)
      → ((before : List Callback) → received_in (call ∷ before) ≡ received_in before)
      → (s.is_ok ≡ state.is_ok) × (s.received ≡ state.received) × (s.requested ≡ state.requested)
      → Concluded s calls r
      → Concluded state (call ∷ calls) r
  unfolding Concluded
  unchanged calls call s state r none_more (ok_same, received_same, requested_same) c e =
      elim (c e) [
        | inl before ↦ inl (sym ok_same ∙ before)
        | inr v ↦ inr (
            later-IsVerified call
              (λ before. ap (λ (n : ℕ). u64 (state.received + n)) (none_more before))
              (rw (received_same, requested_same) at v))
      ]

  callback-Concluded :
      (calls : List Callback) (call : Callback) (state : ClientState) (w : World)
      (r : ClientState × World)
      → state.received < 2 ^ 64
      → Concluded (callback msquic call state w).0 calls r
      → Concluded state (call ∷ calls) r
  unfolding callback stream_callback connection_callback received_in Concluded
  callback-Concluded calls (on_stream stream (receive buffers)) state w r h c = λ e. elim (c e) [
    | inl before ↦ inl before
    | inr v ↦ inr (later-IsVerified (on_stream stream (receive buffers)) (λ before. omega arith) v)
  ]
  callback-Concluded calls (on_stream stream peer_send_shutdown) state w r h c = λ e. elim (c e) [
    | inl equal ↦ inr (record {
      before = [];
      stream = stream;
      after = calls;
      announced = refl;
      counted = omega (arith, (==_iff state.received state.requested).0 equal);
    })
    | inr v ↦ inr (later-IsVerified (on_stream stream peer_send_shutdown) (λ before. refl) v)
  ]
  callback-Concluded calls (on_stream stream shutdown_complete) state w r h c =
      unchanged calls (on_stream stream shutdown_complete) state state r (λ before. refl)
        (refl, refl, refl) c
  callback-Concluded calls (on_stream stream other_stream_event) state w r h c =
      unchanged calls (on_stream stream other_stream_event) state state r (λ before. refl)
        (refl, refl, refl) c
  callback-Concluded calls (on_connection connection (peer_stream_started stream)) state w r h c =
      unchanged calls (on_connection connection (peer_stream_started stream)) state state r
        (λ before. refl) (refl, refl, refl) c
  callback-Concluded calls (on_connection connection connected) state w r h c =
      unchanged calls (on_connection connection connected) state state r (λ before. refl)
        (refl, refl, refl) c
  callback-Concluded calls (on_connection connection shutdown_initiated_by_transport) state w r h
        c =
      unchanged calls (on_connection connection shutdown_initiated_by_transport) state state r
        (λ before. refl) (refl, refl, refl) c
  callback-Concluded calls (on_connection connection connection_shutdown_complete) state w r h c =
      unchanged calls (on_connection connection connection_shutdown_complete)
        (record state { done = true }) state r (λ before. refl) (refl, refl, refl) c
  callback-Concluded calls (on_connection connection other_connection_event) state w r h c =
      unchanged calls (on_connection connection other_connection_event) state state r
        (λ before. refl) (refl, refl, refl) c

  callback-lt :
      (call : Callback) (state : ClientState) (w : World)
      → state.received < 2 ^ 64
      → (callback msquic call state w).0.received < 2 ^ 64
  unfolding callback stream_callback connection_callback
  callback-lt (on_stream stream (receive buffers)) state w h = omega arith
  callback-lt (on_stream stream peer_send_shutdown) state w h = h
  callback-lt (on_stream stream shutdown_complete) state w h = h
  callback-lt (on_stream stream other_stream_event) state w h = h
  callback-lt (on_connection connection connected) state w h = h
  callback-lt (on_connection connection (peer_stream_started stream)) state w h = h
  callback-lt (on_connection connection shutdown_initiated_by_transport) state w h = h
  callback-lt (on_connection connection connection_shutdown_complete) state w h = h
  callback-lt (on_connection connection other_connection_event) state w h = h

  -- The end of `wait`, at once or later.
  ends :
      (over : Bool) (P Q : ClientState × World → Type 0) (now : ClientState × World)
      (later : Outcome (ClientState × World))
      → Q now
      → ((r : ClientState × World) → P r → Q r)
      → IfReturns later P
      → IfReturns (if over then ok now else later) Q
  ends true P Q now later h f k = h
  ends false P Q now (ok r) h f k = f r k
  ends false P Q now (err e) h f k = tt
  ends false P Q now panic h f k = tt
  ends false P Q now stuck h f k = tt

  code_zero : (b : Bool) → ◌≡◌ {A = ℕ} (if b then 0 else 1) 0 → b ≡ true
  code_zero true e = refl
  code_zero false e = absurd (omega arith)

  anyhow : {A : Type 0} (m : Outcome A) → IfReturns m (λ _. Unit)
  anyhow (ok a) = tt
  anyhow (err e) = tt
  anyhow panic = tt
  anyhow stuck = tt

  wait-Concluded :
      (calls : List Callback) (state : ClientState) (w : World)
      → state.received < 2 ^ 64
      → IfReturns (wait msquic calls state w) (Concluded state calls)
  unfolding wait Concluded
  wait-Concluded [] state w h =
      ends state.done (Concluded state []) (Concluded state []) (state, w) stuck (λ e. inl e)
        (λ r c. c) tt
  wait-Concluded (call ∷ calls) state w h =
      let next = callback msquic call state w in
      ends state.done (Concluded next.0 calls) (Concluded state (call ∷ calls)) (state, w)
        (wait msquic calls next.0 next.1) (λ e. inl e)
        (λ r. callback-Concluded calls call state w r h)
        (wait-Concluded calls next.0 next.1 (callback-lt call state w h))

  module _ (stoi : Text → Outcome ℕ) (calls : List Callback) where
    -- What a return says.
    Fetched : Text → ℕ × World → Type 0
    Fetched blob r =
        r.0 ≡ 0 → (size : ℕ) × (blob_bytes_from_string blob ≡ some size) × IsVerified 0 size calls

    module _ (blob : Text) (size : ℕ) (parsed : blob_bytes_from_string blob ≡ some size) where
      after_wait-Fetched :
          (config : ℕ) (r : ClientState × World)
          → (r.0.is_ok ≡ true → IsVerified 0 size calls)
          → Fetched blob (after_wait msquic stoi calls config r)
      unfolding after_wait Fetched
      after_wait-Fetched config (state, w) h = λ e. (size, parsed, h (code_zero state.is_ok e))

      started-Fetched :
          (config : ℕ) (state : ClientState) (r : Bool × World)
          → state.is_ok ≡ false
          → state.received ≡ 0
          → state.requested ≡ size
          → IfReturns (started msquic stoi calls config state r) (Fetched blob)
      unfolding started Fetched Concluded
      started-Fetched config state (false, w) fresh none_yet asked = λ e. absurd (omega arith)
      started-Fetched config state (true, w) fresh none_yet asked =
          IfReturns-bind (Concluded state calls) (Fetched blob) (wait msquic calls state w) _
            (wait-Concluded calls state w (omega arith))
            (λ r c.
              after_wait-Fetched config r
                (λ fine. elim (c fine) [ inl before ↦ cc | inr v ↦ rw (none_yet, asked) at v ]))

      opened-Fetched :
          (config : ℕ) (address : Text × ℕ) (r : Option ℕ × World)
          → IfReturns (opened msquic stoi calls config size address r) (Fetched blob)
      unfolding opened Fetched
      opened-Fetched config (host, port) (none, w) = λ e. absurd (omega arith)
      opened-Fetched config (host, port) (some connection, w) =
          started-Fetched config _ _ refl refl refl

      configured-Fetched :
          (url : Text) (r : Option ℕ × World)
          → IfReturns (configured msquic stoi calls url size r) (Fetched blob)
      unfolding configured Fetched
      configured-Fetched url (none, w) = λ e. absurd (omega arith)
      configured-Fetched url (some config, w) =
          IfReturns-bind (λ _. Unit) (Fetched blob) (parse_url stoi url) _
            (anyhow (parse_url stoi url))
            (λ address _. opened-Fetched config address (connection_open w))

    -- When the client returns 0, whatever the library calls back and in whatever order, the blob is a
    -- size, and the end of a response was announced when exactly that many bytes, of 64 bits, had come.
    pub run_client-IsVerified :
        (cert blob url : Text) (w w' : World)
        → run_client msquic stoi calls cert blob url w ≡ ok (0, w')
        → (size : ℕ) × (blob_bytes_from_string blob ≡ some size) × IsVerified 0 size calls
    unfolding run_client Fetched
    run_client-IsVerified cert blob url w w' e = elim (Option-cases (blob_bytes_from_string blob)) [
      | inl malformed ↦
          (let code : ok (1, w) ≡ ok (0, w') = rw (malformed, run_client) at e in cc code)
      | inr (size, parsed) ↦
          (let fetched : IfReturns
                (configured msquic stoi calls url size (make_client_configuration msquic cert w))
                (Fetched blob) =
              configured-Fetched blob size parsed url (make_client_configuration msquic cert w) in
            let same : configured msquic stoi calls url size
                  (make_client_configuration msquic cert w)
                ≡ ok (0, w') =
              rw (parsed, run_client) at e in
            (rw same at fetched) refl)
    ]
