-- ===== src/Perf/Blob/Tests.antt =====
-- The tests of utils/src/perf.rs, and the theorems about blobs at concrete inputs.
use nesquic.Prelude.{◌≡◌, refl, [], ◌∷◌, ◌++◌, ok, arith, List, ℕ}
use nesquic.Perf.Bytes.{to_be_bytes, from_be_bytes}
use nesquic.Perf.Blob.{Request, to_bytes, try_from, from_iter, next_byte, len}
use nesquic.Perf.Blob.Wire.{try_from-to_bytes}

-- 20 Gbit.
abbrev twenty_gbit : Request
twenty_gbit = record { size = 2_500_000_000 }

to_bytes_runs : to_bytes twenty_gbit ≡ 0 ∷ 0 ∷ 0 ∷ 0 ∷ 0x95 ∷ 0x02 ∷ 0xf9 ∷ 0x00 ∷ []
unfolding to_bytes to_be_bytes
to_bytes_runs = refl

create_responses :
    try_from (to_bytes twenty_gbit) ≡ ok (record { size = 2_500_000_000; cursor = 0 })
unfolding to_bytes to_be_bytes try_from from_be_bytes
create_responses = refl

from_iter_runs : from_iter (record { size = 3; cursor = 1 }) ≡ ok (0 ∷ 0 ∷ [])
unfolding from_iter next_byte
from_iter_runs = refl

try_from-to_bytes_example :
    try_from (to_bytes twenty_gbit ++ (7 ∷ [])) ≡ ok (record { size = len twenty_gbit; cursor = 0 })
try_from-to_bytes_example = try_from-to_bytes twenty_gbit (7 ∷ []) (omega arith)

abbrev three : Request
three = record { size = 3 }

abbrev three_bytes : List ℕ
three_bytes = 0 ∷ 0 ∷ 0 ∷ 0 ∷ 0 ∷ 0 ∷ 0 ∷ 3 ∷ 9 ∷ []
