-- ===== src/Neqo/Server/Reading.antt =====
-- `read_request`: a stream between two events, and what it makes of the bytes that have arrived.
pub mod Loop
use mathlib.Core.Path.{ap₂, subst}
use nesquic.Prelude.{
  ℕ, ◌≤◌, ◌<◌, ◌≡◌, ◌⊎◌, refl, none, some, List, ◌++◌, length, take, ap, inl, ◌∙◌, arith, sym,
  take-append_le, append_assoc, inr, length-append, Returns, Option-cases, Bool-cases, leb→le,
  Returns-bind, Returns-map, if◌then◌else◌, ltb, ◌||◌, append-nil, ◌==◌, ◌∷◌, lt→ltb, zero,
}
use nesquic.Perf.Bytes.{from_be_bytes}
use nesquic.Neqo.Transport.{View, IsTransport, Received}
use nesquic.Neqo.Server.{
  StreamState, Option, [], false, Transport, Outcome, parse_header, is_some, leb, respond, try_from,
  after_round, ok, Bool, try_send_response, after_recv, read_loop, suc, buf_len,
}
use nesquic.Neqo.Server.Sending.{
  IsAnswering, SameInput, Answered, try_send_response-Returns, try_send_response-none,
}
use nesquic.Perf.Blob.Wire.{try_from-of_bytes}

-- The size that a request asks for.
unfoldable pub size_of : List ℕ → ℕ
size_of bytes = from_be_bytes (take 8 bytes)

abbrev pub Unparsed : StreamState → View → Type 0
Unparsed s v = (s.write_remaining ≡ none) × (v.outbox ≡ []) × (v.finished ≡ false)

abbrev pub Serving : StreamState → View → Type 0
Serving s v = (8 ≤ length s.read_buf) × IsAnswering (size_of s.read_buf) s.write_remaining v

-- A stream between two events: what has arrived is in `read_buf` or still unread, and either the
-- request is not complete and nothing was sent, or the response stands as `IsAnswering` says.
pub record IsServing (s : StreamState) (v : View) : Type 0 where
  pub arrives : v.arrived ≡ s.read_buf ++ v.inbox
  pub phase : (length s.read_buf < 8) × Unparsed s v ⊎ Serving s v

-- The same before the header is looked at.
pub record IsReading (s : StreamState) (v : View) : Type 0 where
  pub arrives : v.arrived ≡ s.read_buf ++ v.inbox
  pub phase : Unparsed s v ⊎ Serving s v

-- A prefix of eight bytes decides the size.
pub size_of-append : (xs ys : List ℕ) → 8 ≤ length xs → size_of (xs ++ ys) ≡ size_of xs
unfolding size_of
size_of-append xs ys h = ap from_be_bytes (take-append_le 8 xs ys h)

pub try_from-size_of :
    (value : List ℕ)
    → 8 ≤ length value
    → try_from value ≡ ok (record { size = size_of value; cursor = 0 })
unfolding size_of
try_from-size_of = try_from-of_bytes

IsAnswering-size :
    {size size' : ℕ} {left : Option ℕ} {v : View}
    → size ≡ size'
    → IsAnswering size left v
    → IsAnswering size' left v
IsAnswering-size e a = rw e at a

IsAnswering-inbox :
    {size : ℕ} {left : Option ℕ} {v : View} (rest : List ℕ)
    → IsAnswering size left v
    → IsAnswering size left (record v { inbox = rest })
IsAnswering-inbox rest a = record {
  zeros = a.zeros;
  within = a.within;
  complete = a.complete;
  pending = a.pending;
}

-- The bytes that `stream_recv` hands out go behind those that were read before.
pub received-IsReading :
    (s : StreamState) (v : View) (bytes rest : List ℕ)
    → IsServing s v
    → v.inbox ≡ bytes ++ rest
    → IsReading (record s { read_buf = s.read_buf ++ bytes }) (record v { inbox = rest })
received-IsReading s v bytes rest h e = record {
  arrives = h.arrives ∙ ap (λ (l : List ℕ). s.read_buf ++ l) e ∙ sym (append_assoc _ bytes rest);
  phase = elim h.phase [
    | inl (short, waiting) ↦ inl waiting
    | inr (enough, a) ↦ inr (
      omega (arith, length-append s.read_buf bytes),
      IsAnswering-inbox rest (IsAnswering-size (sym (size_of-append s.read_buf bytes enough)) a),
    )
  ];
}

-- Once there are eight bytes and nothing is left to send, the header is parsed (again).
pub parsed-IsAnswering :
    (s : StreamState) (v : View)
    → s.write_remaining ≡ none
    → Unparsed s v ⊎ Serving s v
    → IsAnswering (size_of s.read_buf) (some (size_of s.read_buf)) v
parsed-IsAnswering s v none_left (inl (_, empty, open_)) = record {
  zeros = rw empty;
  within = rw empty (omega arith);
  complete = λ e. cc;
  pending = λ on. (size_of s.read_buf, refl, rw empty (omega arith));
}
parsed-IsAnswering s v none_left (inr (enough, a)) = record {
  zeros = a.zeros;
  within = a.within;
  complete = a.complete;
  pending = λ on. cc (none_left, (a.pending on).1);
}

-- Reading nothing extends the buffer by nothing.
pub extended :
    (s : StreamState) (bytes : List ℕ)
    → (if ltb 0 (length bytes) then record s { read_buf = s.read_buf ++ bytes } else s)
      ≡ record s { read_buf = s.read_buf ++ bytes }
extended s [] = rw (append-nil s.read_buf)
extended s (b ∷ bytes) = rw (lt→ltb 0 (suc (length bytes)) (omega arith))
