-- ===== src/Neqo/Server/Shared.antt =====
-- One map of stream states serves all connections, and it is keyed by the stream's number alone.
use nesquic.Prelude.{ℕ, zero, suc, ◌≡◌, some, Outcome, ok, ◌>>=◌, refl, arith}
use nesquic.Neqo.Transport.{Transport, new_stream, send_stream_writable}
use nesquic.Neqo.Server.{
  StreamState, StreamStates, new, insert, handle_event, with_state, try_send_response,
}

insert_self : (i : ℕ) (s : StreamState) (states : StreamStates) → insert i s states i ≡ some s
unfolding insert
insert_self i s states = ground arith

module _ (t : Transport) (fuel : ℕ) where
  open t use {World}

  -- `k` times, connection `a` is told that stream `i` can be written.
  pub writable_times : ℕ → ℕ → ℕ → StreamStates → World → Outcome (StreamStates × World)
  writable_times zero a i states w = ok (states, w)
  writable_times (suc k) a i states w = do
    (states', w') ← handle_event t fuel a (send_stream_writable i) states w
    writable_times k a i states' w'

  -- On a stream whose state is new nothing is sent.
  writable_once :
      (a i : ℕ) (states : StreamStates) (w : World)
      → states i ≡ some new
      → handle_event t fuel a (send_stream_writable i) states w ≡ ok (insert i new states, w)
  unfolding handle_event with_state try_send_response
  writable_once a i states w e = rw (e, with_state)

  writable-new :
      (k a i : ℕ) (states : StreamStates) (w : World)
      → states i ≡ some new
      → (after : StreamStates) × (writable_times k a i states w ≡ ok (after, w))
        × (after i ≡ some new)
  unfolding writable_times
  writable-new zero a i states w e = (states, refl, e)
  writable-new (suc k) a i states w e =
      rw (writable_once a i states w e)
        (writable-new k a i (insert i new states) w (insert_self i new states))

  -- Two connections that use a stream of the same number disturb one another. Whatever connection `a`
  -- was still owed on stream `i`, once connection `b` opens its own stream `i` the record of that is
  -- gone: however often `a` is told that its stream can be written, nothing is sent.
  pub response-lost :
      (k a b i : ℕ) (states : StreamStates) (w : World)
      → (after : StreamStates) × ((do
        (states', w') ← handle_event t fuel b (new_stream i) states w
        writable_times k a i states' w')
          ≡ ok (after, w))
        × (after i ≡ some new)
  unfolding handle_event
  response-lost k a b i states w =
      writable-new k a i (insert i new states) w (insert_self i new states)
