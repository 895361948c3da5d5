-- ===== src/Neqo/Client/Response.antt =====
-- What the closure of `run` has counted, and what a run that returns has done.
use nesquic.Prelude.{
  ℕ, ◌≡◌, zero, suc, Bool, false, Bool-cases, List, length, true, if◌then◌else◌, ltb, ◌+◌, ◌^◌,
  ◌||◌, inl, ◌==◌, ◌∙◌, arith, inr, Option, some, none, ◌*◌, refl, ap, length-append,
}
use nesquic.Prelude.Tasks.{Task, message}
use nesquic.Prelude.Keeps.{Ensures, bind-Ensures, Holds}
use nesquic.Neqo.Driver.{
  Driver, IsDriver, View, Received, ClientEvent, closing, closed, recv_stream_readable,
  authentication_needed, connected, other,
}
use nesquic.Neqo.Client.{
  Progress, check_response, add_received, after_read, set_done, pure, after_event, beside,
  drain_events, on_response, read_response, ClientEvent, take_event, recv_stream_readable, or_fail,
}

module _ {d : Driver} (laws : IsDriver d) (i : ℕ) (start : View) where
  open d use {World, next_event, stream_recv}
  open laws use {view, recv_law, event_frame}

  -- The counter is `n` bytes behind what was read of the stream, and does not know of an end that
  -- was read if `fin`.
  pub record IsBehind (n : ℕ) (fin : Bool) (x : World × Progress) : Type 0 where
    pub total : length (view x.0 i).read ≡ x.1.received + n
    pub whole : (x.1.response_done || fin) ≡ true → (view x.0 i).ended ≡ true
    pub sent : (view x.0 i).sent ≡ start.sent
    pub closed : (view x.0 i).closed ≡ start.closed

  abbrev pub IsCounted : World × Progress → Type 0
  IsCounted = IsBehind 0 false

  add_received-Ensures :
      (n : ℕ) (fin : Bool) → Ensures (IsBehind n fin) (add_received d n) (λ _. IsBehind 0 fin)
  unfolding add_received
  add_received-Ensures n fin (w, p) h = elim (Bool-cases (ltb (p.received + n) (2 ^ 64))) [
    | inl fits ↦ rw fits (record {
      total = h.total ∙ omega arith;
      whole = h.whole;
      sent = h.sent;
      closed = h.closed;
    })
    | inr over ↦ rw over tt
  ]

  set_done-Ensures : Ensures (IsBehind 0 true) (set_done d) (λ _. IsCounted)
  unfolding set_done
  set_done-Ensures (w, p) h = record {
    total = h.total;
    whole = λ _. h.whole (ground arith);
    sent = h.sent;
    closed = h.closed;
  }

  after_read-Ensures :
      (again : Task (World × Progress) (Unit {0})) (r : List ℕ × Bool)
      → Ensures IsCounted again (λ _. IsCounted)
      → Ensures (IsBehind (length r.0) r.1) (after_read d again r) (λ _. IsCounted)
  unfolding after_read
  after_read-Ensures again (bytes, true) h =
      bind-Ensures _ (λ _. IsBehind 0 true) _ _ _ (add_received-Ensures (length bytes) true)
        (λ _. set_done-Ensures)
  after_read-Ensures again (bytes, false) h =
      bind-Ensures _ (λ _. IsCounted) _ _ _ (add_received-Ensures (length bytes) false)
        (λ _. stop_or_go (length bytes == 0) again h)
    where
      stop_or_go :
          (stop : Bool) (again : Task (World × Progress) (Unit {0}))
          → Ensures IsCounted again (λ _. IsCounted)
          → Ensures IsCounted (if stop then pure tt else again) (λ _. IsCounted)
      stop_or_go true again h = λ w k. k
      stop_or_go false again h = h

  recv-Ensures :
      Ensures IsCounted
        (beside d (or_fail (stream_recv i (32 * 1024)) "stream_recv"))
        (λ r. IsBehind (length r.0) r.1)
  recv-Ensures (w, p) h =
      go (stream_recv i (32 * 1024) w).0 (stream_recv i (32 * 1024) w).1 (recv_law i (32 * 1024) w)
    where
      go :
          (r : Option (List ℕ × Bool)) (w' : World)
          → Received (view w i) r (view w' i)
          → Holds
              (λ (r : List ℕ × Bool). IsBehind (length r.0) r.1)
              (message "stream_recv" r, (w', p))
      go none w' law = tt
      go (some (bytes, fin)) w' law = record {
        total =
            ap (λ (v : View). length v.read) law
            ∙ length-append (view w i).read bytes
            ∙ ap (λ n. n + length bytes) (h.total ∙ omega arith);
        whole = λ k.
            let seen : (view w' i).ended ≡ ((view w i).ended || fin) =
              ap (λ (v : View). v.ended) law in
            let before : (p.response_done || false) ≡ true → (view w i).ended ≡ true = h.whole in
            ground arith;
        sent = ap (λ (v : View). v.sent) law ∙ h.sent;
        closed = ap (λ (v : View). v.closed) law ∙ h.closed;
      }

  read_response-Ensures : (fuel : ℕ) → Ensures IsCounted (read_response d fuel i) (λ _. IsCounted)
  unfolding read_response
  read_response-Ensures zero = λ x h. tt
  read_response-Ensures (suc fuel) =
      bind-Ensures _ (λ r. IsBehind (length r.0) r.1) _ _ _ recv-Ensures
        (λ r. after_read-Ensures (read_response d fuel i) r (read_response-Ensures fuel))

  on_response-Ensures :
      (fuel : ℕ) (e : ClientEvent) → Ensures IsCounted (on_response d fuel i e) (λ _. IsCounted)
  unfolding on_response
  on_response-Ensures fuel (recv_stream_readable sid) x h = elim (Bool-cases (sid == i)) [
    | inl ours ↦ rw ours (read_response-Ensures fuel x h)
    | inr another ↦ rw another h
  ]
  on_response-Ensures fuel (closed true) x h = tt
  on_response-Ensures fuel (closed false) x h = h
  on_response-Ensures fuel (closing is_error) x h = h
  on_response-Ensures fuel authentication_needed x h = h
  on_response-Ensures fuel connected x h = h
  on_response-Ensures fuel other x h = h

  pub same_view-IsCounted :
      (w w' : World) (p : Progress) → view w' i ≡ view w i → IsCounted (w, p) → IsCounted (w', p)
  same_view-IsCounted w w' p e h = record {
    total = rw e h.total;
    whole = rw e h.whole;
    sent = rw e h.sent;
    closed = rw e h.closed;
  }

  after_event-Ensures :
      (again : Task (World × Progress) (Unit {0}))
      (on_event : ClientEvent → Task (World × Progress) (Unit {0})) (e : Option ClientEvent)
      → Ensures IsCounted again (λ _. IsCounted)
      → ((e : ClientEvent) → Ensures IsCounted (on_event e) (λ _. IsCounted))
      → Ensures IsCounted (after_event d again on_event e) (λ _. IsCounted)
  unfolding after_event
  after_event-Ensures again on_event none h hs = λ x k. k
  after_event-Ensures again on_event (some e) h hs =
      bind-Ensures _ (λ _. IsCounted) _ _ _ (hs e) (λ _. h)

  drain_events-Ensures :
      (fuel : ℕ) (on_event : ClientEvent → Task (World × Progress) (Unit {0}))
      → ((e : ClientEvent) → Ensures IsCounted (on_event e) (λ _. IsCounted))
      → Ensures IsCounted (drain_events d fuel on_event) (λ _. IsCounted)
  unfolding drain_events after_event take_event
  drain_events-Ensures zero on_event h = λ x k. tt
  drain_events-Ensures (suc fuel) on_event h =
      bind-Ensures _ (λ _. IsCounted) _ (beside d (take_event d))
        (after_event d (drain_events d fuel on_event) on_event)
        (λ x k. same_view-IsCounted x.0 (next_event x.0).1 x.1 (event_frame x.0 i) k)
        (λ e.
          after_event-Ensures (drain_events d fuel on_event) on_event e
            (drain_events-Ensures fuel on_event h) h)

  pub check_response-Ensures :
      (fuel : ℕ)
      → Ensures IsCounted
          (check_response d fuel i)
          (λ finished x. IsCounted x × (finished ≡ x.1.response_done))
  unfolding check_response
  check_response-Ensures fuel =
      bind-Ensures _ (λ _. IsCounted) _ _ _
        (drain_events-Ensures fuel (on_response d fuel i) (on_response-Ensures fuel))
        (λ _ x k. (k, refl))
