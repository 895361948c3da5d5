-- ===== src/Neqo/Listen/Rounds.antt =====
-- What the rounds of the server keep.
use nesquic.Prelude.{
  ℕ, Option, some, suc, Bool, none, zero, if◌then◌else◌, ok, true, false, ◌≡◌, IfReturns, err, ◌≤◌,
  length, replicate, ◌<◌,
}
use nesquic.Prelude.Tasks.{Task, or_fail}
use nesquic.Prelude.Keeps.{Keeps, bind-Keeps}
use nesquic.Neqo.Driver.{
  Output, datagram_batch, callback, nothing, IoResult, done, would_block, failed, Wake, readable,
  timer,
}
use nesquic.Prelude.{panic, stuck}
use nesquic.Neqo.Listen.{
  Endpoint, exchange_datagrams, after_output, after_recv_from, after_select, drain_output, reply,
  unless_active, next_datagram, process_events, serve_rounds, exchange, settle, Outcome,
}
use nesquic.Neqo.Transport.{Transport, IsTransport}
use nesquic.Neqo.Server.Events.{IsServed, process_all_events-Reach, IsReached}
use nesquic.Neqo.Server.{StreamStates, process_all_events, empty}
use nesquic.Neqo.Server.Responses.{network, next, here, outbox-IsPrefix}
use nesquic.Neqo.Server.System.{Network, idle, IsSoundStream}
use nesquic.Neqo.Server.Reading.{size_of}

-- The calls of the endpoint keep a property of the state of everything.
pub record IsKept {World : Type 0} (endpoint : Endpoint World) (P : World → Type 0) : Type 0 where
  pub process_output : (w : World) → P w → P (endpoint.process_output w).1
  pub process : (x : endpoint.Datagram) (w : World) → P w → P (endpoint.process x w).1
  pub send_to : (x : endpoint.Datagram) (w : World) → P w → P (endpoint.send_to x w).1
  pub try_recv_from : (w : World) → P w → P (endpoint.try_recv_from w).1
  pub select : (timeout : Option ℕ) (w : World) → P w → P (endpoint.select timeout w).1

module _ {World : Type 0} {endpoint : Endpoint World} {P : World → Type 0}
    (kept : IsKept endpoint P) where
  after_output-Keeps :
      (again : Task World (Option ℕ)) (o : Output endpoint.Datagram)
      → Keeps P again
      → Keeps P (after_output endpoint again o)
  unfolding after_output
  after_output-Keeps again (datagram_batch x) h =
      bind-Keeps P (or_fail (endpoint.send_to x) _) _ (kept.send_to x) (λ _. h)
  after_output-Keeps again (callback dur) h = λ w k. k
  after_output-Keeps again nothing h = λ w k. k

  drain_output-Keeps : (fuel : ℕ) → Keeps P (drain_output endpoint fuel)
  unfolding drain_output
  drain_output-Keeps zero w h = h
  drain_output-Keeps (suc fuel) w h =
      after_output-Keeps (drain_output endpoint fuel) _ (drain_output-Keeps fuel) _
        (kept.process_output w h)

  reply-Keeps : (o : Output endpoint.Datagram) → Keeps P (reply endpoint o)
  unfolding reply
  reply-Keeps (datagram_batch x) = kept.send_to x
  reply-Keeps (callback dur) = λ w h. h
  reply-Keeps nothing = λ w h. h

  after_recv_from-Keeps : (r : IoResult endpoint.Datagram) → Keeps P (after_recv_from endpoint r)
  unfolding after_recv_from
  after_recv_from-Keeps (done x) = λ w h. reply-Keeps _ _ (kept.process x w h)
  after_recv_from-Keeps would_block = λ w h. h
  after_recv_from-Keeps failed = λ w h. h

  after_select-Keeps : (wake : Wake) → Keeps P (after_select endpoint wake)
  unfolding after_select
  after_select-Keeps (readable none) = λ w h. h
  after_select-Keeps (readable (some _)) = λ w h. after_recv_from-Keeps _ _ (kept.try_recv_from w h)
  after_select-Keeps timer = λ w h. h

  unless_active-Keeps : (timeout : Option ℕ) → Keeps P (unless_active endpoint timeout)
  unfolding unless_active next_datagram
  unless_active-Keeps timeout w h = go (endpoint.has_active_connections w)
    where
      go : (b : Bool) → P (if b then (ok tt, w) else next_datagram endpoint timeout w).1
      go true = h
      go false = after_select-Keeps _ _ (kept.select timeout w h)

  exchange_datagrams-Keeps : (fuel : ℕ) → Keeps P (exchange_datagrams endpoint fuel)
  unfolding exchange_datagrams
  exchange_datagrams-Keeps fuel =
      bind-Keeps P (drain_output endpoint fuel) _ (drain_output-Keeps fuel) unless_active-Keeps

-- Each call of the endpoint acts on the streams as the network does, and keeps the bound on what is
-- unread.
pub record IsNetwork {t : Transport} (laws : IsTransport t) (owner : ℕ → ℕ)
    (G : StreamStates × t.World → Type 0) (endpoint : Endpoint t.World) : Type 0 where
  pub acts_output :
      (states : StreamStates) (w : t.World)
      → IsReached laws owner G (states, w)
      → (i : ℕ)
      → Network
          (states i)
          (laws.view (owner i) i w)
          (laws.view (owner i) i (endpoint.process_output w).1)
  pub acts_process :
      (x : endpoint.Datagram) (states : StreamStates) (w : t.World)
      → IsReached laws owner G (states, w)
      → (i : ℕ)
      → Network
          (states i)
          (laws.view (owner i) i w)
          (laws.view (owner i) i (endpoint.process x w).1)
  pub sends :
      (x : endpoint.Datagram) (i : ℕ) (w : t.World)
      → laws.view (owner i) i (endpoint.send_to x w).1 ≡ laws.view (owner i) i w
  pub receives :
      (i : ℕ) (w : t.World)
      → laws.view (owner i) i (endpoint.try_recv_from w).1 ≡ laws.view (owner i) i w
  pub selects :
      (timeout : Option ℕ) (i : ℕ) (w : t.World)
      → laws.view (owner i) i (endpoint.select timeout w).1 ≡ laws.view (owner i) i w
  pub bounds : (states : StreamStates) → IsKept endpoint (λ w. G (states, w))

module _ {t : Transport} (laws : IsTransport t) (owner : ℕ → ℕ) (fuel : ℕ)
    {G : StreamStates × t.World → Type 0} (served : IsServed laws owner fuel G)
    {endpoint : Endpoint t.World} (acts : IsNetwork laws owner G endpoint) where
  open t use {World}
  open laws use {view}

  kept : (states : StreamStates) → IsKept endpoint (λ w. IsReached laws owner G (states, w))
  kept states = record {
    process_output = λ w r. (
      next r.0 (network (acts.acts_output states w r)),
      (acts.bounds states).process_output w r.1,
    );
    process = λ x w r.
        (next r.0 (network (acts.acts_process x states w r)), (acts.bounds states).process x w r.1);
    send_to = λ x w r.
        (next r.0 (network (λ i. idle (acts.sends x i w))), (acts.bounds states).send_to x w r.1);
    try_recv_from = λ w r. (
      next r.0 (network (λ i. idle (acts.receives i w))),
      (acts.bounds states).try_recv_from w r.1,
    );
    select = λ timeout w r. (
      next r.0 (network (λ i. idle (acts.selects timeout i w))),
      (acts.bounds states).select timeout w r.1,
    );
  }

  abbrev IsLive : World × StreamStates → Type 0
  IsLive (w, states) = IsReached laws owner G (states, w)

  process_events-Keeps : (events : ℕ) → Keeps IsLive (process_events t endpoint events fuel)
  unfolding process_events settle
  process_events-Keeps events (w, states) r =
      go (process_all_events t events fuel states w)
        (process_all_events-Reach laws owner fuel served events states w r)
    where
      go :
          (m : Outcome (StreamStates × World))
          → IfReturns m (IsReached laws owner G)
          → IsLive (settle t endpoint m (w, states)).1
      go (ok (states', w')) h = h
      go (err e) h = r
      go panic h = r
      go stuck h = r

  pub serve_rounds-Keeps :
      (rounds events : ℕ) → Keeps IsLive (serve_rounds t endpoint rounds events fuel)
  unfolding serve_rounds
  serve_rounds-Keeps zero events = λ x r. r
  serve_rounds-Keeps (suc rounds) events =
      bind-Keeps IsLive (process_events t endpoint events fuel) _ (process_events-Keeps events)
        (λ _.
          bind-Keeps IsLive (exchange t endpoint fuel) _
            (λ (w, states) r. exchange_datagrams-Keeps (kept states) fuel w r)
            (λ _. serve_rounds-Keeps rounds events))

  -- However many rounds the server runs from fresh connections on, and however they end, a stream
  -- carries a prefix of the response that its request asks for, and nothing before eight bytes of
  -- request have arrived.
  serve_rounds-IsPrefix :
      (rounds events i : ℕ) (w : World)
      → ((i : ℕ) → IsSoundStream none (view (owner i) i w))
      → G (empty, w)
      → let v = view (owner i) i (serve_rounds t endpoint rounds events fuel (w, empty)).1.0 in
        (n : ℕ) × (v.outbox ≡ replicate n 0)
        × (n ≤ size_of v.arrived)
        × (length v.arrived < 8 → n ≡ 0)
  serve_rounds-IsPrefix rounds events i w fresh bounded =
      outbox-IsPrefix laws owner i
        (serve_rounds-Keeps rounds events (w, empty) (here w fresh, bounded)).0
