-- ===== src/Neqo/Client/Events.antt =====
-- The check of `connect` against the events of the connection.
use nesquic.Prelude.{
  ℕ, ◌≡◌, ◌<◌, List, [], ◌∷◌, length, Option, none, some, Bool, true, false, Outcome, String, ◌||◌,
  ok, err, arith, suc, zero, refl, ◌∙◌,
}
use nesquic.Neqo.Driver.{
  Driver, ClientEvent, authentication_needed, connected, closing, closed, recv_stream_readable,
  other,
}
use nesquic.Neqo.Client.{check_connected, drain_events, take_event, after_event, on_connect, refuse}

-- The first event that ends the connection with an error, and the message for it.
pub first_error : List ClientEvent → Option String
first_error [] = none
first_error (closing true ∷ es) = some "connection closing with error"
first_error (closed true ∷ es) = some "connection closed with error"
first_error (e ∷ es) = first_error es

abbrev is_connected : ClientEvent → Bool
is_connected connected = true
is_connected _ = false

pub any_connected : List ClientEvent → Bool
any_connected [] = false
any_connected (e ∷ es) = is_connected e || any_connected es

-- What the check is to say of the events, where `seen` says whether one told of the connection
-- before.
pub verdict : Bool → List ClientEvent → Outcome Bool
verdict seen es = elim (first_error es) [ none ↦ ok (seen || any_connected es) | some e ↦ err e ]

or_false : (b : Bool) → (b || false) ≡ b
or_false true = refl
or_false false = refl

verdict-connected :
    (seen : Bool) (es : List ClientEvent) → verdict true es ≡ verdict seen (connected ∷ es)
unfolding verdict any_connected first_error
verdict-connected true es = refl
verdict-connected false es = refl

module _ (d : Driver) where
  open d use {World, next_event, authenticated}

  abbrev answer : ClientEvent → World → World
  answer authentication_needed w = authenticated w
  answer _ w = w

  -- `es` are the events that the connection has, where the client answers those that want it.
  pub data Trace : World → List ClientEvent → Type 0 where
    silent : {w w' : World} → next_event w ≡ (none, w') → Trace w []
    event :
        {w u : World} {e : ClientEvent} {es : List ClientEvent}
        → next_event w ≡ (some e, u)
        → Trace (answer e u) es
        → Trace w (e ∷ es)

  -- With fuel above the number of events, the check of `connect` takes them in order up to the first
  -- that closes the connection with an error, which is returned; without one it says whether the
  -- connection was ever established.
  pub check_connected-verdict :
      (fuel : ℕ) (seen : Bool) (w : World) (es : List ClientEvent)
      → Trace w es
      → length es < fuel
      → (check_connected d fuel (w, seen)).0 ≡ verdict seen es
  unfolding check_connected drain_events take_event after_event on_connect refuse verdict
      first_error any_connected
  check_connected-verdict zero seen w es t enough = absurd (omega arith)
  check_connected-verdict (suc fuel) seen w [] (silent e) enough = rw (e, or_false seen) refl
  check_connected-verdict (suc fuel) seen w (connected ∷ es) (event e t) enough =
      rw e (check_connected-verdict fuel true _ es t (omega arith) ∙ verdict-connected seen es)
  check_connected-verdict (suc fuel) seen w (closing true ∷ es) (event e t) enough = rw e refl
  check_connected-verdict (suc fuel) seen w (closing false ∷ es) (event e t) enough =
      rw e (check_connected-verdict fuel seen _ es t (omega arith))
  check_connected-verdict (suc fuel) seen w (closed true ∷ es) (event e t) enough = rw e refl
  check_connected-verdict (suc fuel) seen w (closed false ∷ es) (event e t) enough =
      rw e (check_connected-verdict fuel seen _ es t (omega arith))
  check_connected-verdict (suc fuel) seen w (authentication_needed ∷ es) (event e t) enough =
      rw e (check_connected-verdict fuel seen _ es t (omega arith))
  check_connected-verdict (suc fuel) seen w (recv_stream_readable i ∷ es) (event e t) enough =
      rw e (check_connected-verdict fuel seen _ es t (omega arith))
  check_connected-verdict (suc fuel) seen w (other ∷ es) (event e t) enough =
      rw e (check_connected-verdict fuel seen _ es t (omega arith))
