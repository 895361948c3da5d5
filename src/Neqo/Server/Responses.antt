-- ===== src/Neqo/Server/Responses.antt =====
-- What a client gets from the server, in every state that the events and the network lead to where
-- no two clients use a stream of the same number.
use nesquic.Prelude.{
  ℕ, ◌≤◌, ◌≡◌, true, none, ok, length, replicate, Option, ◌<◌, arith, some, inl, length-append, inr,
  refl, ◌∙◌, ap, sym,
}
use nesquic.Neqo.Transport.{Transport, View, IsTransport, ConnectionEvent}
use nesquic.Neqo.Server.{StreamStates, empty, handle_event, StreamState}
use nesquic.Neqo.Server.Reading.{IsServing, size_of, size_of-append}
use nesquic.Neqo.Server.System.{
  IsSoundStream, Network, Announced, IsSound, handle_event-Returns, Network-IsSoundStream,
}

module _ (s : StreamState) (v : View) (h : IsServing s v) where
  length-arrived : length s.read_buf ≤ length v.arrived
  length-arrived = rw h.arrives (omega (arith, length-append s.read_buf v.inbox))

  size_of-arrived : 8 ≤ length s.read_buf → size_of v.arrived ≡ size_of s.read_buf
  size_of-arrived enough = rw h.arrives (size_of-append s.read_buf v.inbox enough)

finished-IsComplete :
    (known : Option StreamState) (v : View)
    → IsSoundStream known v
    → v.finished ≡ true
    → (8 ≤ length v.arrived) × (v.outbox ≡ replicate (size_of v.arrived) 0)
finished-IsComplete none v (_, _, unfinished) done = cc
finished-IsComplete (some s) v h done = elim h.phase [
  | inl (_, (_, _, unfinished)) ↦ cc
  | inr (enough, a) ↦ (
    omega (arith, length-arrived s v h),
    a.zeros
        ∙ ap (λ (n : ℕ). replicate n 0) ((a.complete done).0 ∙ sym (size_of-arrived s v h enough)),
  )
]

outbox-IsBounded :
    (known : Option StreamState) (v : View)
    → IsSoundStream known v
    → (n : ℕ) × (v.outbox ≡ replicate n 0)
      × (n ≤ size_of v.arrived)
      × (length v.arrived < 8 → n ≡ 0)
outbox-IsBounded none v (_, empty, _) = (0, empty, omega arith, λ _. refl)
outbox-IsBounded (some s) v h = elim h.phase [
  | inl (_, (_, empty, _)) ↦ (0, empty, omega arith, λ _. refl)
  | inr (enough, a) ↦ (
    length v.outbox,
    a.zeros,
    rw (size_of-arrived s v h enough) a.within,
    λ few. absurd (omega (arith, length-arrived s v h)),
  )
]

module _ {t : Transport} (laws : IsTransport t) (owner : ℕ → ℕ) where
  open t use {World}
  open laws use {view}

  -- Clients no two of which use a stream of the same number, where `owner` gives the connection that
  -- uses it: an event is taken from the queue of a connection, an event that announces a new stream
  -- or is of a stream of its own connection is handled to the end, or the network acts on the streams.
  pub data Step : StreamStates × World → StreamStates × World → Type 0 where
    polls :
        {states : StreamStates} {w : World} (c : ℕ)
        → Step (states, w) (states, (t.next_event c w).1)
    handles :
        {states : StreamStates} {w : World} {after : StreamStates × World} (c fuel : ℕ)
        (event : ConnectionEvent)
        → Announced owner c event states
        → ((i : ℕ) → length (view (owner i) i w).inbox < fuel)
        → handle_event t fuel c event states w ≡ ok after
        → Step (states, w) after
    network :
        {states : StreamStates} {w w' : World}
        → ((i : ℕ) → Network (states i) (view (owner i) i w) (view (owner i) i w'))
        → Step (states, w) (states, w')

  -- The states that are reached from a server that knows no stream, on fresh connections.
  pub data Reach : StreamStates × World → Type 0 where
    here : (w : World) → ((i : ℕ) → IsSoundStream none (view (owner i) i w)) → Reach (empty, w)
    next : {before after : StreamStates × World} → Reach before → Step before after → Reach after

  Step-IsSound :
      {before after : StreamStates × World}
      → Step before after
      → IsSound laws owner before
      → IsSound laws owner after
  Step-IsSound (polls {states = states} {w = w} c) sound =
      λ i. rw (laws.event_frame c (owner i) i w) (sound i)
  Step-IsSound (handles {states = states} {w = w} c fuel event first fits e) sound =
      rw e at (handle_event-Returns laws owner c fuel event states w first fits sound)
  Step-IsSound (network {states = states} acts) sound =
      λ i. Network-IsSoundStream (states i) _ _ (acts i) (sound i)

  pub Reach-IsSound : {now : StreamStates × World} → Reach now → IsSound laws owner now
  Reach-IsSound (here w fresh) = fresh
  Reach-IsSound (next r step) = Step-IsSound step (Reach-IsSound r)

  -- Of clients no two of which use a stream of the same number, where each stream is announced once:
  -- in every state that their events and the network lead to, a stream that the server has finished
  -- carries the whole response, that is, at least eight bytes of request have arrived, and as many
  -- zeros were sent as they ask for.
  pub finished-response :
      {states : StreamStates} {w : World} (i : ℕ)
      → Reach (states, w)
      → (view (owner i) i w).finished ≡ true
      → (8 ≤ length (view (owner i) i w).arrived)
        × ((view (owner i) i w).outbox ≡ replicate (size_of (view (owner i) i w).arrived) 0)
  finished-response {states} {w} i r done =
      finished-IsComplete (states i) (view (owner i) i w) (Reach-IsSound r i) done

  -- In every state that is reached, a stream carries a prefix of the response that its request asks
  -- for, and nothing before eight bytes of request have arrived.
  pub outbox-IsPrefix :
      {states : StreamStates} {w : World} (i : ℕ)
      → Reach (states, w)
      → (n : ℕ) × ((view (owner i) i w).outbox ≡ replicate n 0)
        × (n ≤ size_of (view (owner i) i w).arrived)
        × (length (view (owner i) i w).arrived < 8 → n ≡ 0)
  outbox-IsPrefix {states} {w} i r =
      outbox-IsBounded (states i) (view (owner i) i w) (Reach-IsSound r i)
