-- ===== src/Msquic/Protocol.antt =====
-- iut/msquic/src/protocol.h. A string is a list of codes, and a uint64_t wraps around.
pub mod Wire
pub mod Decimals
use nesquic.Prelude.{
  ℕ, zero, suc, ◌+◌, ◌-◌, ◌*◌, ◌/◌, ◌%◌, ◌^◌, ◌==◌, ◌||◌, ◌&&◌, Bool, not, ltb, leb, if◌then◌else◌,
  Option, none, some, List, [], ◌∷◌, length, take, drop, get_elem?,
}
use nesquic.Text.{Text, codes, eq_text}

abbrev pub u64 : ℕ → ℕ
u64 n = n % 2 ^ 64

abbrev pub is_digit : ℕ → Bool
is_digit c = leb 48 c && leb c 57

-- The loop over the digits.
unfoldable pub read_digits : ℕ → Text → Option ℕ
read_digits n [] = some n
read_digits n (c ∷ cs) =
    let rest = read_digits (u64 (n * 10 + (c - 48))) cs in if is_digit c then rest else none

-- What follows `num_end`.
unfoldable pub scaled : ℕ → Text → Option ℕ
scaled mult digits =
    if length digits == 0
    then none
    else elim (read_digits 0 digits) [ none ↦ none | some n ↦ some (u64 (n * mult) / 8) ]

-- The cases of `prefix`, of which G is 71, M is 77 and K is 75.
unfoldable pub by_prefix : ℕ → Text → Option ℕ
by_prefix prefix value =
    if is_digit prefix
    then scaled 1 (take (length value - 3) value)
    else if prefix == 71
    then scaled (1000 * 1000 * 1000) (take (length value - 4) value)
    else if prefix == 77
    then scaled (1000 * 1000) (take (length value - 4) value)
    else if prefix == 75
    then scaled 1000 (take (length value - 4) value)
    else none

unfoldable pub blob_bytes_from_string : Text → Option ℕ
blob_bytes_from_string value =
    if ltb (length value) 4 || not (eq_text (drop (length value - 3) value) (codes "bit"))
    then none
    else elim (get_elem? value (length value - 4)) [
      | none ↦ none
      | some prefix ↦ by_prefix prefix value
    ]

-- `out[7 - i]`, where `out` has what is written behind it.
unfoldable pub write_from : ℕ → ℕ → ℕ → List ℕ → List ℕ
write_from zero i size out = out
write_from (suc n) i size out = write_from n (suc i) size ((size / 2 ^ (8 * i)) % 256 ∷ out)

unfoldable pub request_to_bytes : ℕ → List ℕ
request_to_bytes size = write_from 8 0 size []

-- The lowest byte is 0 after the shift, so that `|` adds.
unfoldable pub read_from : ℕ → List ℕ → ℕ
read_from size [] = size
read_from size (b ∷ bs) = read_from (u64 (size * 2 ^ 8) + b) bs

unfoldable pub request_from_bytes : List ℕ → ℕ
request_from_bytes bytes = read_from 0 bytes
