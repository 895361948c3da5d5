-- ===== src/Msquic/Server/Served.antt =====
-- What the server sends on a stream.
use nesquic.Prelude.{
  ℕ, zero, suc, ◌+◌, ◌-◌, ◌≤◌, ◌<◌, ◌≡◌, ◌∙◌, ap, sym, refl, inl, inr, Bool-cases, ltb, lt→ltb,
  ltb→lt, if◌then◌else◌, true, false, Option, none, some, List, [], ◌∷◌, ◌++◌, length, take,
  replicate, append-nil, append_assoc, take-all, take-append_le, take-replicate, length-replicate,
  length-take, length-append, All, All-take, arith,
}
use nesquic.Perf.Bytes.{IsByte}
use nesquic.Perf.Blob.{of_bytes}
use nesquic.Msquic.Library.{MsQuic, receive, peer_send_shutdown}
use nesquic.Msquic.Protocol.Wire.{request_from_bytes-of_bytes}
use nesquic.Msquic.Server.{StreamState, new, u32, take_buffers, after_send, serve, stream_callback}

unfoldable pub flatten : List (List ℕ) → List ℕ
flatten [] = []
flatten (xs ∷ rest) = xs ++ flatten rest

-- The bytes of some events.
unfoldable pub bytes_of : List (List (List ℕ)) → List ℕ
bytes_of [] = []
bytes_of (buffers ∷ events) = flatten buffers ++ bytes_of events

take-append_ge :
    (n : ℕ) (xs ys : List ℕ) → length xs ≤ n → take n (xs ++ ys) ≡ xs ++ take (n - length xs) ys
take-append_ge n [] ys h = (let e : n - 0 ≡ n = omega arith in rw e refl)
take-append_ge zero (x ∷ xs) ys h = absurd (omega arith)
take-append_ge (suc n) (x ∷ xs) ys h =
    ap (λ (l : List ℕ). x ∷ l)
      (take-append_ge n xs ys (omega arith)
        ∙ (let e : n - length xs ≡ suc n - length (x ∷ xs) = omega arith in rw e refl))

pub take-take : (n : ℕ) (xs ys : List ℕ) → take n (take n xs ++ ys) ≡ take n (xs ++ ys)
take-take zero xs ys = refl
take-take (suc n) [] ys = refl
take-take (suc n) (x ∷ xs) ys = ap (λ (l : List ℕ). x ∷ l) (take-take n xs ys)

filled_length :
    (request buffer : List ℕ)
    → length request < 8
    → 8 < length request + length buffer
    → length (request ++ take (8 - length request) buffer) ≡ 8
filled_length request buffer room over = omega (
  arith,
  length-append request (take (8 - length request) buffer),
  length-take (8 - length request) buffer,
)

-- The buffers fill the eight bytes of the request.
pub take_buffers-take :
    (buffers : List (List ℕ)) (request : List ℕ)
    → length request ≤ 8
    → take_buffers buffers request ≡ take 8 (request ++ flatten buffers)
unfolding take_buffers flatten
take_buffers-take [] request h = sym (rw (append-nil request) (take-all 8 request h))
take_buffers-take (buffer ∷ buffers) request h = elim (Bool-cases (ltb (length request) 8)) [
  | inr full ↦ rw full (sym (take-append_le 8 request _ (ground arith) ∙ take-all 8 request h))
  | inl room ↦ rw room (elim (Bool-cases (ltb 8 (length request + length buffer))) [
    | inl over ↦ rw over (
        let room' : length request < 8 = ground arith in
        let over' : 8 < length request + length buffer = ground arith in
        let eight = filled_length request buffer room' over' in
        take_buffers-take buffers (request ++ take (8 - length request) buffer) (omega arith)
        ∙ take-append_le 8 _ (flatten buffers) (omega arith)
        ∙ take-all 8 _ (omega arith)
        ∙ sym (
            take-append_ge 8 request (buffer ++ flatten buffers) h
            ∙ ap (λ (l : List ℕ). request ++ l)
                (take-append_le (8 - length request) buffer (flatten buffers) (omega arith))))
    | inr fits ↦
        rw (fits, take-all (length buffer) buffer (omega arith))
          (take_buffers-take buffers (request ++ buffer) (
              let whole : length request + length buffer ≤ 8 = ground arith in
              omega (arith, length-append request buffer))
            ∙ rw (append_assoc request buffer (flatten buffers)) refl)
  ])
]

module _ (msquic : MsQuic) (stream : ℕ) where
  open msquic use {World, stream_send, stream_shutdown}

  -- The library calls the callback with RECEIVE events, and then PEER_SEND_SHUTDOWN.
  unfoldable pub receives : List (List (List ℕ)) → StreamState → World → Option StreamState × World
  receives [] state w = stream_callback msquic stream peer_send_shutdown state w
  receives (buffers ∷ events) state w =
      elim (stream_callback msquic stream (receive buffers) state w).0 [
        | none ↦ (none, w)
        | some state' ↦
            receives events state' (stream_callback msquic stream (receive buffers) state w).1
      ]

  receives-take :
      (events : List (List (List ℕ))) (state : StreamState) (w : World)
      → length state.request ≤ 8
      → receives events state w
        ≡ stream_callback msquic stream peer_send_shutdown
            (record state { request = take 8 (state.request ++ bytes_of events) })
            w
  unfolding receives stream_callback bytes_of
  receives-take [] state w h = rw (append-nil state.request, take-all 8 state.request h) refl
  receives-take (buffers ∷ events) state w h =
      let got = take_buffers buffers state.request in
      let taken : got ≡ take 8 (state.request ++ flatten buffers) =
        take_buffers-take buffers state.request h in
      receives-take events (record state { request = got }) w
        (omega (
          arith,
          ap (λ (l : List ℕ). length l) taken,
          length-take 8 (state.request ++ flatten buffers),
        ))
      ∙ rw
          (
            taken,
            take-take 8 (state.request ++ flatten buffers) (bytes_of events),
            append_assoc state.request (flatten buffers) (bytes_of events),
          )
          refl

  -- Whatever parts its request arrives in, with less than eight bytes a stream is aborted, and
  -- otherwise it is sent, with its end, as many zeros as the eight bytes ask for in the Rust programs,
  -- of 32 bits.
  pub receives-served :
      (events : List (List (List ℕ))) (w : World)
      → All IsByte (bytes_of events)
      → (receives events new w).1 ≡ (
          if ltb (length (bytes_of events)) 8
          then stream_shutdown stream w
          else after_send msquic stream
              (stream_send stream (replicate (u32 (of_bytes (take 8 (bytes_of events))).size) 0) w))
  unfolding stream_callback serve
  receives-served events w h =
      rw (receives-take events new w (omega arith))
        (elim (Bool-cases (ltb (length (bytes_of events)) 8)) [
          | inl short ↦
              let few : ltb (length (take 8 (bytes_of events))) 8 ≡ true =
                lt→ltb _ 8 (omega (arith, length-take 8 (bytes_of events), ltb→lt _ 8 short)) in
              rw (short, few) refl
          | inr long ↦
              let enough : 8 ≤ length (bytes_of events) = ground arith in
              let eight : length (take 8 (bytes_of events)) ≡ 8 =
                omega (arith, length-take 8 (bytes_of events)) in
              let many : ltb (length (take 8 (bytes_of events))) 8 ≡ false = rw eight refl in
              let asked =
                request_from_bytes-of_bytes (take 8 (bytes_of events)) eight
                  (All-take IsByte 8 (bytes_of events) h) in
              rw
                (
                  long,
                  many,
                  asked,
                  length-replicate {A = ℕ} (of_bytes (take 8 (bytes_of events))).size 0,
                  take-replicate {A = ℕ} (u32 (of_bytes (take 8 (bytes_of events))).size)
                      (of_bytes (take 8 (bytes_of events))).size 0 (omega arith),
                )
                refl
        ])
