-- ===== src/Neqo/Server/Reading/Loop.antt =====
-- `read_request`: that its loop ends, and what it leaves of a stream.
use mathlib.Core.Path.{ap₂, subst}
use nesquic.Prelude.{
  ℕ, ◌≤◌, ◌<◌, ◌≡◌, ◌⊎◌, refl, none, some, List, ◌++◌, length, ap, inl, ◌∙◌, arith, sym, inr,
  length-append, Returns, Option-cases, Bool-cases, leb→le, Returns-bind, Returns-map,
  if◌then◌else◌, ◌||◌, ◌==◌, zero,
}
use nesquic.Neqo.Transport.{View, IsTransport, Received}
use nesquic.Neqo.Server.{
  StreamState, Option, false, Transport, Outcome, parse_header, is_some, leb, respond, after_round,
  ok, Bool, try_send_response, after_recv, read_loop, suc, buf_len,
}
use nesquic.Neqo.Server.Sending.{
  SameInput, Answered, try_send_response-Returns, try_send_response-none,
}
use nesquic.Neqo.Server.Reading.{
  size_of, Unparsed, Serving, IsServing, IsReading, try_from-size_of, received-IsReading,
  parsed-IsAnswering, extended,
}

module _ {t : Transport} (laws : IsTransport t) (c i : ℕ) where
  open t use {World, stream_recv}
  open laws use {view, recv_law}

  abbrev Continue : Type 0
  Continue = StreamState → World → Outcome (StreamState × World)

  parse_header-Returns :
      (P : StreamState × World → Type 0) (continue : Continue) (s : StreamState) (w : World)
      → IsReading s (view c i w)
      → ((s' : StreamState) → IsServing s' (view c i w) → Returns (continue s' w) P)
      → Returns (parse_header t continue s w) P
  unfolding parse_header is_some
  parse_header-Returns P continue s w h go = elim (Option-cases s.write_remaining) [
    | inr (remaining, some_left) ↦
        let serving : IsServing s (view c i w) = record {
          arrives = h.arrives;
          phase = inr (served remaining some_left h.phase);
        } in
        rw (some_left, parse_header) (go _ (rw some_left at serving))
    | inl none_left ↦ elim (Bool-cases (leb 8 (length s.read_buf))) [
      | inl fits ↦
          rw (none_left, fits, try_from-size_of s.read_buf (leb→le 8 _ fits), parse_header)
            (go (record s { write_remaining = some (size_of s.read_buf) })
              (record {
                arrives = h.arrives;
                phase = inr (leb→le 8 _ fits, parsed-IsAnswering s _ none_left h.phase);
              }))
      | inr short ↦
          let waiting : IsServing s (view c i w) = record {
            arrives = h.arrives;
            phase = inl (waits short h.phase);
          } in
          rw (none_left, short, parse_header) (go _ (rw none_left at waiting))
    ]
  ]
    where
      served :
          (remaining : ℕ)
          → s.write_remaining ≡ some remaining
          → Unparsed s (view c i w) ⊎ Serving s (view c i w)
          → Serving s (view c i w)
      served remaining e (inl (none_left, _, _)) = cc (e, none_left)
      served remaining e (inr serving) = serving

      waits :
          leb 8 (length s.read_buf) ≡ false
          → Unparsed s (view c i w) ⊎ Serving s (view c i w)
          → (length s.read_buf < 8) × Unparsed s (view c i w)
      waits short (inl waiting) = (ground arith, waiting)
      waits short (inr (enough, _)) = absurd (ground arith)

  -- What a part of `read_request` leaves: the stream is served, and nothing has arrived.
  abbrev pub Post : View → StreamState × World → Type 0
  Post v (s, w) = IsServing s (view c i w) × ((view c i w).arrived ≡ v.arrived)

  -- A served stream with its input as it was in `v`.
  abbrev pub Served : View → StreamState × World → Type 0
  Served v (s, w) = IsServing s (view c i w) × SameInput v (view c i w)

  Answered-IsServing :
      (s s' : StreamState) (w w' : World)
      → IsServing s (view c i w)
      → 8 ≤ length s.read_buf
      → s'.read_buf ≡ s.read_buf
      → Answered (size_of s.read_buf) (view c i w) s'.write_remaining (view c i w')
      → Served (view c i w) (s', w')
  Answered-IsServing s s' w w' h enough e post = (
    record {
      arrives =
          post.input.0 ∙ h.arrives ∙ ap₂ (λ (a b : List ℕ). a ++ b) (sym e) (sym post.input.1);
      phase = inr (rw e enough, rw e post.answering);
    },
    post.input,
  )

  -- On a stream that is served, `try_send_response` ends with the stream served.
  pub try_send_response-Served :
      (s : StreamState) (w : World)
      → IsServing s (view c i w)
      → Returns (try_send_response t c i s w) (Served (view c i w))
  try_send_response-Served s w h = go h.phase
    where
      go :
          (length s.read_buf < 8) × Unparsed s (view c i w) ⊎ Serving s (view c i w)
          → Returns (try_send_response t c i s w) (Served (view c i w))
      go (inl (_, (none_left, _, _))) =
          rw (try_send_response-none laws c i s w none_left) (h, (refl, refl))
      go (inr (enough, a)) =
          Returns-map _ _ (try_send_response t c i s w)
            (try_send_response-Returns laws c i (size_of s.read_buf) s w a)
            (λ (s', w') (e, post). Answered-IsServing s s' w w' h enough e post)

  respond-Returns :
      (again : Continue) (stop : Bool) (s : StreamState) (w : World)
      → IsServing s (view c i w)
      → (stop ≡ false
          → (s' : StreamState) (w' : World) → IsServing s' (view c i w')
          → SameInput (view c i w) (view c i w')
          → Returns (again s' w') (Post (view c i w)))
      → Returns (respond t again c i stop s w) (Post (view c i w))
  unfolding respond after_round
  respond-Returns again stop s w h loop =
      Returns-bind (Served (view c i w)) (Post (view c i w))
        (if is_some s.write_remaining then try_send_response t c i s w else ok (s, w)) _
        (elim (Bool-cases (is_some s.write_remaining)) [
          | inl on ↦ rw on (try_send_response-Served s w h)
          | inr off ↦ rw off (h, (refl, refl))
        ])
        (λ (s', w') (h', input). elim (Bool-cases stop) [
          | inl ends ↦ rw ends (h', input.0)
          | inr goes ↦ rw goes (loop goes s' w' h' input)
        ])

  after_recv-Returns :
      (again : Continue) (s : StreamState) (v : View) (r : Option (List ℕ × Bool)) (w' : World)
      → IsServing s v
      → Received buf_len v r (view c i w')
      → ((s' : StreamState) (u : World)
          → IsServing s' (view c i u)
          → (view c i u).arrived ≡ v.arrived
          → length (view c i u).inbox < length v.inbox
          → Returns (again s' u) (Post v))
      → Returns (after_recv t again c i s (r, w')) (Post v)
  unfolding after_recv
  after_recv-Returns again s v none w' h same loop = (rw same h, ap (λ (u : View). u.arrived) same)
  after_recv-Returns again s v (some (bytes, fin)) w' h (fits, split, same) loop =
      rw (extended s bytes) (
        parse_header-Returns (Post v) (respond t again c i (fin || length bytes == 0))
          (record s { read_buf = s.read_buf ++ bytes }) w' reading
          (λ s'' h''.
            Returns-map (Post (view c i w')) (Post v) _
              (respond-Returns again _ s'' w' h'' (λ goes s' u hu input.
                Returns-map (Post v) (Post (view c i w')) (again s' u)
                  (loop s' u hu (input.0 ∙ arrived) (fewer goes (view c i u) input.1))
                  (λ (s2, u2) (h2, same2). (h2, same2 ∙ sym arrived))))
              (λ (s2, u2) (h2, same2). (h2, same2 ∙ arrived))))
    where
      arrived : (view c i w').arrived ≡ v.arrived
      arrived = ap (λ (u : View). u.arrived) same

      reading : IsReading (record s { read_buf = s.read_buf ++ bytes }) (view c i w')
      reading =
          subst (IsReading (record s { read_buf = s.read_buf ++ bytes })) (sym same)
            (received-IsReading s v bytes (view c i w').inbox h split)

      fewer :
          (fin || length bytes == 0) ≡ false
          → (u : View) → u.inbox ≡ (view c i w').inbox
          → length u.inbox < length v.inbox
      fewer goes u e = rw (e, split) (ground (arith, length-append bytes (view c i w').inbox))

  pub read_loop-Returns :
      (fuel : ℕ) (s : StreamState) (w : World)
      → length (view c i w).inbox < fuel
      → IsServing s (view c i w)
      → Returns (read_loop t fuel c i s w) (Post (view c i w))
  unfolding read_loop
  read_loop-Returns zero s w lt h = absurd (omega arith)
  read_loop-Returns (suc fuel) s w lt h =
      let call = stream_recv c i buf_len w in
      after_recv-Returns (read_loop t fuel c i) s (view c i w) call.0 call.1 h
        (recv_law c i buf_len w)
        (λ s' u h' same fewer.
          Returns-map _ _ (read_loop t fuel c i s' u) (read_loop-Returns fuel s' u (omega arith) h')
            (λ (s2, u2) (h2, same2). (h2, same2 ∙ same)))
