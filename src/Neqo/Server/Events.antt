-- ===== src/Neqo/Server/Events.antt =====
-- Draining the events of the connections, as steps.
use nesquic.Prelude.{
  none, some, ◌>>=◌, ℕ, ◌≡◌, ok, refl, Outcome, IfReturns-bind, IfReturns, some, List, err, length,
  suc, Option, panic, ◌<◌, ◌∷◌, [], stuck, zero,
}
use nesquic.Neqo.Transport.{Transport, IsTransport, ConnectionEvent}
use nesquic.Neqo.Server.{
  StreamStates, handle_event, process_all_events, drain_connections, drain_events,
}
use nesquic.Neqo.Server.System.{Announced}
use nesquic.Neqo.Server.Responses.{Reach, next, polls, handles}

module _ {t : Transport} (laws : IsTransport t) (owner : ℕ → ℕ) where
  open t use {World}

  -- A state that is reached, and on which some bound holds.
  abbrev pub IsReached : (StreamStates × World → Type 0) → StreamStates × World → Type 0
  IsReached G now = Reach laws owner now × G now

module _ {t : Transport} (laws : IsTransport t) (owner : ℕ → ℕ) (fuel : ℕ) where
  open t use {World, next_event, active_connections}
  open laws use {view}

  -- The events of a connection are of streams that no other connection uses, and announce each stream
  -- once, and flow control bounds what is unread on the streams, below the fuel.
  pub record IsServed (G : StreamStates × World → Type 0) : Type 0 where
    pub announced :
        (c : ℕ) (states : StreamStates) (w : World) {event : ConnectionEvent}
        → IsReached laws owner G (states, w)
        → (next_event c w).0 ≡ some event
        → Announced owner c event states
    pub fits :
        (states : StreamStates) (w : World)
        → G (states, w)
        → (i : ℕ) → length (view (owner i) i w).inbox < fuel
    pub polled :
        (c : ℕ) (states : StreamStates) (w : World)
        → G (states, w)
        → (next_event c w).0 ≡ none
        → G (states, (next_event c w).1)
    pub handled :
        (c : ℕ) (states : StreamStates) (w : World) {event : ConnectionEvent}
        {after : StreamStates × World}
        → IsReached laws owner G (states, w)
        → (next_event c w).0 ≡ some event
        → handle_event t fuel c event states (next_event c w).1 ≡ ok after
        → G after

  returned :
      {A : Type 0} (P : A → Type 0) (m : Outcome A) → ((a : A) → m ≡ ok a → P a) → IfReturns m P
  returned P (ok a) h = h a refl
  returned P (err e) h = tt
  returned P panic h = tt
  returned P stuck h = tt

  module _ {G : StreamStates × World → Type 0} (served : IsServed G) where
    drain_events-Reach :
        (events c : ℕ) (states : StreamStates) (w : World)
        → IsReached laws owner G (states, w)
        → IfReturns (drain_events t events fuel c states w) (IsReached laws owner G)
    unfolding drain_events
    drain_events-Reach zero c states w r = tt
    drain_events-Reach (suc events) c states w r =
        go (drain_events-Reach events c) (next_event c w).0 refl
      where
        polled : Reach laws owner (states, (next_event c w).1)
        polled = next r.0 (polls c)

        unread : (i : ℕ) → length (view (owner i) i (next_event c w).1).inbox < fuel
        unread i = rw (laws.event_frame c (owner i) i w) (served.fits states w r.1 i)

        go :
            ((states : StreamStates) (w : World)
              → IsReached laws owner G (states, w)
              → IfReturns (drain_events t events fuel c states w) (IsReached laws owner G))
            → (o : Option ConnectionEvent) → (next_event c w).0 ≡ o
            → IfReturns
                (elim o [
                  | none ↦ ok (states, (next_event c w).1)
                  | some event ↦
                      handle_event t fuel c event states (next_event c w).1
                      >>= (λ (states', w'). drain_events t events fuel c states' w')
                ])
                (IsReached laws owner G)
        go rec none e = (polled, served.polled c states w r.1 e)
        go rec (some event) e =
            IfReturns-bind (IsReached laws owner G) (IsReached laws owner G)
              (handle_event t fuel c event states (next_event c w).1) _
              (returned (IsReached laws owner G) _ (λ after h. (
                next polled (handles c fuel event (served.announced c states w r e) unread h),
                served.handled c states w r e h,
              )))
              (λ (states', w') r'. rec states' w' r')

    drain_connections-Reach :
        (events : ℕ) (conns : List ℕ) (states : StreamStates) (w : World)
        → IsReached laws owner G (states, w)
        → IfReturns (drain_connections t events fuel conns states w) (IsReached laws owner G)
    unfolding drain_connections
    drain_connections-Reach events [] states w r = r
    drain_connections-Reach events (conn ∷ conns) states w r =
        IfReturns-bind (IsReached laws owner G) (IsReached laws owner G)
          (drain_events t events fuel conn states w) _ (drain_events-Reach events conn states w r)
          (λ (states', w') r'. drain_connections-Reach events conns states' w' r')

    pub process_all_events-Reach :
        (events : ℕ) (states : StreamStates) (w : World)
        → IsReached laws owner G (states, w)
        → IfReturns (process_all_events t events fuel states w) (IsReached laws owner G)
    unfolding process_all_events
    process_all_events-Reach events states w r =
        drain_connections-Reach events (active_connections w) states w r
