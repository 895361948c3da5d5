-- ===== src/Neqo/Server/Frame.antt =====
-- The calls of the server on one stream keep whatever the transport's calls on that stream keep.
use nesquic.Prelude.{
  ℕ, zero, suc, Bool, Option, none, some, List, Outcome, ok, IfReturns, Bool-cases, IfReturns-bind,
  Option-cases, replicate, ◌||◌, err, if◌then◌else◌, inl, length, min, ◌==◌, inr, not, leb, ◌&&◌,
  ◌-◌, panic, stuck,
}
use nesquic.Neqo.Transport.{Transport}
use nesquic.Neqo.Server.{
  StreamState, send_loop, after_send, try_send_response, after_round, respond, parse_header,
  after_recv, read_loop, Blob, buf_len, is_some, try_from,
}

-- A property of the endpoint that the calls on stream `i` of connection `c` keep.
pub record IsFrame (t : Transport) (c i : ℕ) (P : t.World → Type 0) : Type 0 where
  pub recv : (n : ℕ) (w : t.World) → P w → P (t.stream_recv c i n w).1
  pub send : (bytes : List ℕ) (w : t.World) → P w → P (t.stream_send c i bytes w).1
  pub close : (w : t.World) → P w → P (t.stream_close_send c i w).1

module _ {t : Transport} {c i : ℕ} {P : t.World → Type 0} (frame : IsFrame t c i P) where
  open t use {World}

  abbrev pub Kept {ℓ} : {A : Type ℓ} → A × World → Type 0
  Kept (a, w) = P w

  pub after_send-Kept :
      (again : ℕ → World → Outcome (Option ℕ × World)) (remaining : ℕ) (r : Option ℕ) (w : World)
      → P w
      → ((less : ℕ) → IfReturns (again less w) Kept)
      → IfReturns (after_send t again remaining (r, w)) Kept
  unfolding after_send
  after_send-Kept again remaining none w h loop = h
  after_send-Kept again remaining (some n) w h loop = elim (Bool-cases (n == 0)) [
    | inl nothing ↦ rw nothing h
    | inr more ↦ elim (Bool-cases (leb n remaining)) [
      | inl fits ↦ rw (more, fits) (loop (remaining - n))
      | inr beyond ↦ rw (more, beyond) tt
    ]
  ]

  pub send_loop-Kept :
      (fuel remaining : ℕ) (w : World) → P w → IfReturns (send_loop t fuel c i remaining w) Kept
  unfolding send_loop
  send_loop-Kept zero remaining w h = tt
  send_loop-Kept (suc fuel) zero w h = frame.close w h
  send_loop-Kept (suc fuel) (suc less) w h =
      let bytes = replicate (min (suc less) buf_len) 0 in
      let call = t.stream_send c i bytes w in
      after_send-Kept (send_loop t fuel c i) (suc less) call.0 call.1 (frame.send bytes w h)
        (λ m. send_loop-Kept fuel m call.1 (frame.send bytes w h))

  pub try_send_response-Kept :
      (s : StreamState) (w : World) → P w → IfReturns (try_send_response t c i s w) Kept
  unfolding try_send_response
  try_send_response-Kept s w h = elim (Option-cases s.write_remaining) [
    | inl nothing ↦ rw (nothing, try_send_response) h
    | inr (remaining, some_left) ↦
        rw (some_left, try_send_response)
          (IfReturns-bind Kept Kept (send_loop t (suc remaining) c i remaining w) _
            (send_loop-Kept (suc remaining) remaining w h) (λ (left, w') kept. kept))
  ]

  abbrev Continue : Type 0
  Continue = StreamState → World → Outcome (StreamState × World)

  respond-Kept :
      (again : Continue) (stop : Bool) (s : StreamState) (w : World)
      → P w
      → ((s' : StreamState) (w' : World) → P w' → IfReturns (again s' w') Kept)
      → IfReturns (respond t again c i stop s w) Kept
  unfolding respond after_round
  respond-Kept again stop s w h loop =
      IfReturns-bind Kept Kept
        (if is_some s.write_remaining then try_send_response t c i s w else ok (s, w))
        (after_round t again stop)
        (elim (Bool-cases (is_some s.write_remaining)) [
          | inl on ↦ rw on (try_send_response-Kept s w h)
          | inr off ↦ rw off h
        ])
        (λ (s', w') kept. elim (Bool-cases stop) [
          | inl ends ↦ rw ends kept
          | inr goes ↦ rw goes (loop s' w' kept)
        ])

  parse_header-Kept :
      (continue : Continue) (s : StreamState) (w : World)
      → P w
      → ((s' : StreamState) → IfReturns (continue s' w) Kept)
      → IfReturns (parse_header t continue s w) Kept
  unfolding parse_header
  parse_header-Kept continue s w h go =
      elim (Bool-cases (not (is_some s.write_remaining) && leb 8 (length s.read_buf))) [
        | inr skip ↦ rw skip (go s)
        | inl parse ↦ rw parse (parsed (try_from s.read_buf))
      ]
    where
      parsed :
          (r : Outcome Blob)
          → IfReturns
              (elim r [
                | ok blob ↦ continue (record s { write_remaining = some blob.size }) w
                | err e ↦ ok (s, w)
                | panic ↦ panic
                | stuck ↦ stuck
              ])
              Kept
      parsed (ok blob) = go _
      parsed (err e) = h
      parsed panic = tt
      parsed stuck = tt

  after_recv-Kept :
      (again : Continue) (s : StreamState) (r : Option (List ℕ × Bool)) (w : World)
      → P w
      → ((s' : StreamState) (w' : World) → P w' → IfReturns (again s' w') Kept)
      → IfReturns (after_recv t again c i s (r, w)) Kept
  unfolding after_recv
  after_recv-Kept again s none w h loop = h
  after_recv-Kept again s (some (bytes, fin)) w h loop =
      parse_header-Kept (respond t again c i (fin || length bytes == 0)) _ w h
        (λ s'. respond-Kept again (fin || length bytes == 0) s' w h loop)

  pub read_loop-Kept :
      (fuel : ℕ) (s : StreamState) (w : World) → P w → IfReturns (read_loop t fuel c i s w) Kept
  unfolding read_loop
  read_loop-Kept zero s w h = tt
  read_loop-Kept (suc fuel) s w h =
      let call = t.stream_recv c i buf_len w in
      after_recv-Kept (read_loop t fuel c i) s call.0 call.1 (frame.recv buf_len w h)
        (λ s' w' kept. read_loop-Kept fuel s' w' kept)
