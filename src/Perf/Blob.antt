-- ===== src/Perf/Blob.antt =====
-- `Request` and `Blob` of utils/src/perf.rs. A byte string is a list of numbers. `byte_unit::Byte`
-- is known by its value as a u64, and its parser is a parameter. On the 64-bit targets `as usize`
-- keeps a u64.
pub mod Wire
mod Tests
use nesquic.Prelude.{
  ℕ, zero, suc, ◌+◌, Option, none, some, List, [], ◌∷◌, String, Outcome, ok, err, panic, stuck,
  ◌>>=◌, ltb, leb, if◌then◌else◌, length, take,
}
use nesquic.Perf.Bytes.{to_be_bytes, from_be_bytes}

pub record Request : Type 0 where
  pub size : ℕ

unfoldable pub to_bytes : Request → List ℕ
to_bytes r = to_be_bytes 8 r.size

unfoldable pub len : Request → ℕ
len r = r.size

-- `value.parse()?`, with the parser of `byte_unit`.
unfoldable pub parse_request : (String → Outcome ℕ) → String → Outcome Request
parse_request parse value = do size ← parse value; ok (record { size = size })

pub record Blob : Type 0 where
  pub size : ℕ
  pub cursor : ℕ

-- `From<[u8; 8]>`
unfoldable pub of_bytes : List ℕ → Blob
of_bytes bs = record { size = from_be_bytes bs; cursor = 0 }

-- `TryFrom<&[u8]>`: the slice `value[0..8]` panics where there are fewer than eight bytes, and eight
-- bytes always make a `[u8; 8]`.
unfoldable pub try_from : List ℕ → Outcome Blob
unfolding of_bytes
try_from value = if leb 8 (length value) then ok (of_bytes (take 8 value)) else panic

unfoldable pub next_byte : Blob → Option ℕ × Blob
next_byte b =
    if ltb b.cursor b.size then (some 0, record b { cursor = b.cursor + 1 }) else (none, b)

prepend : ℕ → Outcome (List ℕ) → Outcome (List ℕ)
prepend x rest = do xs ← rest; ok (x ∷ xs)

-- `Bytes::from_iter`, the loop that takes items until there is none.
collect : ℕ → Blob → Outcome (List ℕ)
unfolding prepend
collect zero b = stuck
collect (suc fuel) b = elim (next_byte b).0 [
  | none ↦ ok []
  | some x ↦ prepend x (collect fuel (next_byte b).1)
]

unfoldable pub from_iter : Blob → Outcome (List ℕ)
unfolding collect
from_iter b = collect (suc b.size) b
