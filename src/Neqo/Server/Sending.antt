-- ===== src/Neqo/Server/Sending.antt =====
-- `try_send_response`: what it sends on its stream, and that it ends.
use nesquic.Prelude.{
  ℕ, zero, suc, ◌+◌, ◌-◌, ◌≤◌, ◌<◌, ◌≡◌, refl, true, false, Option, none, some, ◌++◌, length,
  replicate, take, min, Outcome, arith, take-replicate, Bool-cases, replicate-extend, inl, inr,
  Returns, length-append-replicate, ◌∙◌, length-replicate, ap, ◌==◌, ==_iff, le→leb, Returns-map,
  sym, Option-cases, Returns-bind, ok,
}
use nesquic.Neqo.Transport.{Transport, View, IsTransport, Closed, Sent}
use nesquic.Neqo.Server.{buf_len, after_send, send_loop, try_send_response, StreamState}

-- The response to a request of `size` bytes, as it stands: zeros only, no more than `size` of them,
-- all of them once the stream is finished; and while data can be sent, `left` is what is missing.
pub record IsAnswering (size : ℕ) (left : Option ℕ) (v : View) : Type 0 where
  pub zeros : v.outbox ≡ replicate (length v.outbox) 0
  pub within : length v.outbox ≤ size
  pub complete : v.finished ≡ true → (length v.outbox ≡ size) × (v.can_send ≡ false)
  pub pending :
      v.can_send ≡ true
      → (remaining : ℕ) × (left ≡ some remaining) × (length v.outbox + remaining ≡ size)

abbrev pub SameInput : View → View → Type 0
SameInput v v' = (v'.arrived ≡ v.arrived) × (v'.inbox ≡ v.inbox)

-- What a call leaves: the response, with its input untouched. If something is left to send, that is
-- not nothing, and a response that could be sent is finished if nothing is left.
pub record Answered (size : ℕ) (v : View) (left : Option ℕ) (v' : View) : Type 0 where
  pub answering : IsAnswering size left v'
  pub input : SameInput v v'
  pub blocked : (remaining : ℕ) → left ≡ some remaining → 0 < remaining
  pub finishes : v.can_send ≡ true → left ≡ none → v'.finished ≡ true

-- The response after an error of `stream_send`.
fail-Answered :
    (size : ℕ) (left : Option ℕ) (v : View)
    → IsAnswering size left v
    → v.can_send ≡ false
    → Answered size v none v
fail-Answered size left v a off = record {
  answering = record {
    zeros = a.zeros;
    within = a.within;
    complete = a.complete;
    pending = λ on. cc;
  };
  input = (refl, refl);
  blocked = λ remaining e. cc;
  finishes = λ on e. cc;
}

-- The response after `stream_close_send`, where nothing was left to send.
close-Answered :
    (size : ℕ) (v v' : View) → IsAnswering size (some 0) v → Closed v v' → Answered size v none v'
close-Answered size v v' a (closes, keeps) = elim (Bool-cases v.can_send) [
  | inl on ↦ rw (closes on) (record {
    answering = record {
      zeros = a.zeros;
      within = a.within;
      complete = λ e. (ground (arith, a.pending on), refl);
      pending = λ e. cc;
    };
    input = (refl, refl);
    blocked = λ remaining e. cc;
    finishes = λ _ e. refl;
  })
  | inr off ↦ rw (keeps off) (fail-Answered size (some 0) v a off)
]

-- The response after `stream_send` took some of the bytes.
send-IsAnswering :
    (size remaining n k : ℕ) (v : View)
    → IsAnswering size (some remaining) v
    → v.can_send ≡ true
    → n ≤ k
    → k ≤ remaining
    → IsAnswering size
        (some (remaining - n))
        (record v { outbox = v.outbox ++ take n (replicate k 0) })
send-IsAnswering size remaining n k v a on taken fits =
    rw (take-replicate {A = ℕ} n k 0 taken) (record {
      zeros = replicate-extend v.outbox n 0 a.zeros;
      within = ground (arith, length-append-replicate v.outbox n 0, a.pending on);
      complete = λ e. cc (on, (a.complete e).1);
      pending = λ e.
          (remaining - n, refl, ground (arith, length-append-replicate v.outbox n 0, a.pending on));
    })

Answered-trans :
    {size : ℕ} {u v v' : View} {left : Option ℕ}
    → SameInput u v
    → u.can_send ≡ v.can_send
    → Answered size v left v'
    → Answered size u left v'
Answered-trans (e, f) same h = record {
  answering = h.answering;
  input = (h.input.0 ∙ e, h.input.1 ∙ f);
  blocked = h.blocked;
  finishes = λ on e. h.finishes (cc) e;
}

module _ {t : Transport} (laws : IsTransport t) (c i : ℕ) where
  open t use {World, stream_send}
  open laws use {view, send_law, close_law}

  -- The post-condition of a call that starts with the view `v` of the stream.
  abbrev Posted : ℕ → View → Option ℕ × World → Type 0
  Posted size v (left, w') = Answered size v left (view c i w')

  after_send-Returns :
      (again : ℕ → World → Outcome (Option ℕ × World)) (size remaining k : ℕ) (v : View)
      (r : Option ℕ) (w' : World)
      → ((less : ℕ)
          → less < remaining
          → IsAnswering size (some less) (view c i w')
          → Returns (again less w') (Posted size (view c i w')))
      → 0 < remaining
      → k ≤ remaining
      → IsAnswering size (some remaining) v
      → Sent (replicate k 0) v r (view c i w')
      → Returns (after_send t again remaining (r, w')) (Posted size v)
  unfolding after_send
  after_send-Returns again size remaining k v none w' loop pos fits a (off, same) =
      rw same (fail-Answered size (some remaining) v a off)
  after_send-Returns again size remaining k v (some n) w' loop pos fits a (on, taken, same) =
      elim (Bool-cases (n == 0)) [
        | inl nothing ↦ rw nothing (waits ((==_iff n 0).0 nothing))
        | inr more ↦
            rw (more, le→leb n remaining (omega (arith, fewer)))
              (Returns-map _ _ (again (remaining - n) w')
                (loop (remaining - n) (ground arith) answers)
                (λ (left, u) post. Answered-trans input sending post))
      ]
    where
      fewer : n ≤ k
      fewer = omega (arith, length-replicate {A = ℕ} k 0)

      answers : IsAnswering size (some (remaining - n)) (view c i w')
      answers = rw same (send-IsAnswering size remaining n k v a on fewer fits)

      input : SameInput v (view c i w')
      input = (ap (λ (u : View). u.arrived) same, ap (λ (u : View). u.inbox) same)

      sending : v.can_send ≡ (view c i w').can_send
      sending = sym (ap (λ (u : View). u.can_send) same)

      waits : n ≡ 0 → Answered size v (some remaining) (view c i w')
      waits e = record {
        answering = (let keep : remaining - n ≡ remaining = omega arith in rw keep at answers);
        input = input;
        blocked = λ r eq. ground arith;
        finishes = λ _ eq. cc;
      }

  send_loop-Returns :
      (fuel size remaining : ℕ) (w : World)
      → remaining < fuel
      → IsAnswering size (some remaining) (view c i w)
      → Returns (send_loop t fuel c i remaining w) (Posted size (view c i w))
  unfolding send_loop
  send_loop-Returns zero size remaining w h a = absurd (omega arith)
  send_loop-Returns (suc fuel) size zero w h a = close-Answered size _ _ a (close_law c i w)
  send_loop-Returns (suc fuel) size (suc remaining) w h a =
      let k = min (suc remaining) buf_len in
      let call = stream_send c i (replicate k 0) w in
      after_send-Returns (send_loop t fuel c i) size (suc remaining) k (view c i w) call.0 call.1
        (λ less lt b. send_loop-Returns fuel size less call.1 (omega arith) b) (omega arith)
        (omega arith) a (send_law c i (replicate k 0) w)

  pub try_send_response-none :
      (state : StreamState) (w : World)
      → state.write_remaining ≡ none
      → try_send_response t c i state w ≡ ok (state, w)
  unfolding try_send_response
  try_send_response-none state w e = ground arith

  -- `try_send_response` ends and never panics. From a response as it stands it goes on to one, does
  -- not touch what the client has sent or what was read of it, stops with something left only if
  -- that is not nothing, and has finished a stream that could be sent on if nothing is left.
  pub try_send_response-Returns :
      (size : ℕ) (state : StreamState) (w : World)
      → IsAnswering size state.write_remaining (view c i w)
      → Returns (try_send_response t c i state w) (λ (state', w').
        (state'.read_buf ≡ state.read_buf)
        × Answered size (view c i w) state'.write_remaining (view c i w'))
  unfolding try_send_response
  try_send_response-Returns size state w a = elim (Option-cases state.write_remaining) [
    | inl nothing ↦
        rw (nothing, try_send_response)
          (
            refl,
            record {
              answering = a;
              input = (refl, refl);
              blocked = λ r e. cc;
              finishes = λ on e. cc ((a.pending on).1);
            },
          )
    | inr (remaining, some_left) ↦
        rw (some_left, try_send_response)
          (Returns-bind (Posted size (view c i w)) _ (send_loop t (suc remaining) c i remaining w) _
            (send_loop-Returns (suc remaining) size remaining w (omega arith) (rw some_left at a))
            (λ (left, w') post. (refl, post)))
  ]
