-- ===== src/Perf/Blob/Wire.antt =====
-- The request on the wire and the payload that answers it.
use nesquic.Prelude.{
  ℕ, zero, suc, ◌+◌, ◌-◌, ◌≤◌, ◌<◌, ◌≡◌, refl, ap, ◌∙◌, ◌↔◌, List, ◌++◌, ok, err, panic, String,
  ◌≢◌, ◌>>=◌, leb, length, length-append, length-take, take, true, take-append_le, take-all,
  replicate, All, All-take, leb→le, arith, le→leb, Bool-cases, inl, inr, append-nil, [],
}
use nesquic.Perf.Bytes.{
  IsByte, IsU64, to_be_bytes, length-to_be_bytes, from-to_be_bytes, to-from_be_bytes,
  from_be_bytes-lt,
}
use nesquic.Perf.Blob.{
  Request, Blob, to_bytes, len, of_bytes, try_from, next_byte, collect, from_iter, from_be_bytes,
}

pub take_header : (r : Request) (more : List ℕ) → take 8 (to_bytes r ++ more) ≡ to_bytes r
unfolding to_bytes
take_header r more =
    take-append_le 8 (to_be_bytes 8 r.size) more (omega (arith, length-to_be_bytes 8 r.size))
    ∙ take-all 8 (to_be_bytes 8 r.size) (omega (arith, length-to_be_bytes 8 r.size))

header_fits : (r : Request) (more : List ℕ) → leb 8 (length (to_bytes r ++ more)) ≡ true
unfolding to_bytes
header_fits r more =
    le→leb _ _
      (omega (arith, length-append (to_be_bytes 8 r.size) more, length-to_be_bytes 8 r.size))

-- The server reads back the size that the client wrote, whatever bytes follow the request.
pub try_from-to_bytes :
    (r : Request) (more : List ℕ)
    → IsU64 r.size
    → try_from (to_bytes r ++ more) ≡ ok (record { size = len r; cursor = 0 })
unfolding try_from len
try_from-to_bytes r more h =
    rw (header_fits r more, take_header r more)
      (unfold to_bytes in rw (from-to_be_bytes 8 r.size h))

of_bytes_lem :
    (bs : List ℕ)
    → length bs ≡ 8
    → All IsByte bs
    → (to_be_bytes 8 (of_bytes bs).size ≡ bs)
      × IsU64 (of_bytes bs).size
      × ((of_bytes bs).cursor ≡ 0)
unfolding of_bytes
of_bytes_lem bs e h = (rw e at (to-from_be_bytes bs h), rw e at (from_be_bytes-lt bs h), refl)

-- A request that is accepted is the encoding of the size that was read, which is a u64, and nothing
-- of the answer has been sent.
to_bytes-try_from :
    (value : List ℕ) (b : Blob)
    → All IsByte value
    → try_from value ≡ ok b
    → (to_bytes (record { size = b.size }) ≡ take 8 value) × IsU64 b.size × (b.cursor ≡ 0)
unfolding try_from to_bytes
to_bytes-try_from value b h e = elim (Bool-cases (leb 8 (length value))) [
  | inl fits ↦
      let same : b ≡ of_bytes (take 8 value) = cc (rw fits at e) in
      rw same (of_bytes_lem (take 8 value) (header (leb→le 8 _ fits)) (All-take IsByte 8 value h))
  | inr short ↦ cc (rw short at e)
]
  where
    header : 8 ≤ length value → length (take 8 value) ≡ 8
    header fits = omega (arith, length-take 8 value)

-- A request of fewer than eight bytes makes `try_from` panic, and nothing else does: it never
-- returns an error.
pub try_from-panic_iff :
    (value : List ℕ)
    → ((try_from value ≡ panic) ↔ (length value < 8))
      × ((message : String) → try_from value ≢ err message)
unfolding try_from
try_from-panic_iff value = (((λ e. ground arith), (λ h. ground arith)), λ message e. ground arith)

collect_lem :
    (fuel size cursor : ℕ)
    → size - cursor < fuel
    → collect fuel (record { size = size; cursor = cursor }) ≡ ok (replicate (size - cursor) 0)
unfolding collect next_byte
collect_lem zero size cursor h = absurd (omega arith)
collect_lem (suc fuel) size cursor h = ground (arith, collect_lem fuel size (cursor + 1))

-- A blob yields what is left of it, all zeros, and its iteration ends.
pub from_iter_lem : (b : Blob) → from_iter b ≡ ok (replicate (b.size - b.cursor) 0)
unfolding from_iter
from_iter_lem b = collect_lem (suc b.size) b.size b.cursor (omega arith)

-- The answer to a request, whatever follows its eight bytes, is as long as the request says.
payload-request :
    (r : Request) (more : List ℕ)
    → IsU64 r.size
    → (try_from (to_bytes r ++ more) >>= from_iter) ≡ ok (replicate (len r) 0)
payload-request r more h =
    rw (try_from-to_bytes r more h)
      (from_iter_lem _ ∙ ap (λ (n : ℕ). ok (replicate n 0)) (omega arith))

-- On eight bytes or more, `try_from` reads the first eight.
pub try_from-of_bytes :
    (value : List ℕ)
    → 8 ≤ length value
    → try_from value ≡ ok (record { size = from_be_bytes (take 8 value); cursor = 0 })
unfolding try_from of_bytes
try_from-of_bytes value h = rw (le→leb 8 _ h)

pub length-to_bytes : (r : Request) → length (to_bytes r) ≡ 8
unfolding to_bytes
length-to_bytes r = length-to_be_bytes 8 r.size

pub from_be_bytes-to_bytes :
    (r : Request) → IsU64 r.size → from_be_bytes (take 8 (to_bytes r)) ≡ len r
unfolding to_bytes len
from_be_bytes-to_bytes r h =
    rw (take-all 8 (to_be_bytes 8 r.size) (omega (arith, length-to_be_bytes 8 r.size)))
      (from-to_be_bytes 8 r.size h)

pub try_from-request :
    (r : Request) → IsU64 r.size → try_from (to_bytes r) ≡ ok (record { size = len r; cursor = 0 })
try_from-request r h = rw append-nil at (try_from-to_bytes r [] h)

pub from_iter-whole : (n : ℕ) → from_iter (record { size = n; cursor = 0 }) ≡ ok (replicate n 0)
from_iter-whole n =
    from_iter_lem (record { size = n; cursor = 0 })
    ∙ ap (λ (m : ℕ). ok (replicate m 0)) (omega arith)
