-- ===== src/Perf/Bytes.antt =====
-- `u64::to_be_bytes` and `usize::from_be_bytes` of the Rust standard library, at any width.
use nesquic.Prelude.{
  ℕ, zero, suc, ◌+◌, ◌*◌, ◌/◌, ◌%◌, ◌^◌, ◌<◌, ◌≡◌, refl, ap, ◌∙◌, List, [], ◌∷◌, reverse, arith,
  length, length-reverse, All, All-reverse, ◌++◌,
}
use mathlib.Core.List.{reverse-reverse, reverse-cons}
use native.Mathlib.Nat.{pow-suc}

abbrev pub IsByte : ℕ → Type 0
IsByte b = b < 256

abbrev pub IsU64 : ℕ → Type 0
IsU64 v = v < 2 ^ 64

-- The `k` lowest bytes of a number, the lowest first.
to_le_bytes : ℕ → ℕ → List ℕ
to_le_bytes zero v = []
to_le_bytes (suc k) v = (v % 256) ∷ to_le_bytes k (v / 256)

from_le_bytes : List ℕ → ℕ
from_le_bytes [] = 0
from_le_bytes (b ∷ bs) = b + 256 * from_le_bytes bs

unfoldable pub to_be_bytes : ℕ → ℕ → List ℕ
unfolding to_le_bytes
to_be_bytes k v = reverse (to_le_bytes k v)

unfoldable pub from_be_bytes : List ℕ → ℕ
unfolding from_le_bytes
from_be_bytes bs = from_le_bytes (reverse bs)

length-to_le_bytes : (k v : ℕ) → length (to_le_bytes k v) ≡ k
unfolding to_le_bytes
length-to_le_bytes zero v = refl
length-to_le_bytes (suc k) v = ap suc (length-to_le_bytes k (v / 256))

to_le_bytes-IsByte : (k v : ℕ) → All IsByte (to_le_bytes k v)
unfolding to_le_bytes
to_le_bytes-IsByte zero v = tt
to_le_bytes-IsByte (suc k) v = (omega arith, to_le_bytes-IsByte k (v / 256))

from-to_le_bytes : (k v : ℕ) → v < 256 ^ k → from_le_bytes (to_le_bytes k v) ≡ v
unfolding to_le_bytes from_le_bytes
from-to_le_bytes zero v h = omega arith
from-to_le_bytes (suc k) v h =
    omega (arith, from-to_le_bytes k (v / 256) (omega (arith, pow-suc 256 k)))

to-from_le_bytes :
    (k : ℕ) (bs : List ℕ) → length bs ≡ k → All IsByte bs → to_le_bytes k (from_le_bytes bs) ≡ bs
unfolding to_le_bytes from_le_bytes
to-from_le_bytes zero [] e h = refl
to-from_le_bytes zero (b ∷ bs) e h = absurd (omega arith)
to-from_le_bytes (suc k) [] e h = absurd (omega arith)
to-from_le_bytes (suc k) (b ∷ bs) e h = ground (arith, to-from_le_bytes k bs (omega arith) h.1)

from_le_bytes-lt : (bs : List ℕ) → All IsByte bs → from_le_bytes bs < 256 ^ length bs
unfolding from_le_bytes
from_le_bytes-lt [] h = omega arith
from_le_bytes-lt (b ∷ bs) h = omega (arith, from_le_bytes-lt bs h.1, pow-suc 256 (length bs))

pub length-to_be_bytes : (k v : ℕ) → length (to_be_bytes k v) ≡ k
unfolding to_be_bytes
length-to_be_bytes k v = length-reverse (to_le_bytes k v) ∙ length-to_le_bytes k v

pub to_be_bytes-IsByte : (k v : ℕ) → All IsByte (to_be_bytes k v)
unfolding to_be_bytes
to_be_bytes-IsByte k v = All-reverse IsByte _ (to_le_bytes-IsByte k v)

pub from-to_be_bytes : (k v : ℕ) → v < 256 ^ k → from_be_bytes (to_be_bytes k v) ≡ v
unfolding to_be_bytes from_be_bytes
from-to_be_bytes k v h = ap from_le_bytes (reverse-reverse _) ∙ from-to_le_bytes k v h

pub to-from_be_bytes :
    (bs : List ℕ) → All IsByte bs → to_be_bytes (length bs) (from_be_bytes bs) ≡ bs
unfolding to_be_bytes from_be_bytes
to-from_be_bytes bs h =
    ap reverse
      (to-from_le_bytes (length bs) (reverse bs) (length-reverse bs) (All-reverse IsByte bs h))
    ∙ reverse-reverse bs

pub from_be_bytes-lt : (bs : List ℕ) → All IsByte bs → from_be_bytes bs < 256 ^ length bs
unfolding from_be_bytes
from_be_bytes-lt bs h =
    let lt : from_le_bytes (reverse bs) < 256 ^ length (reverse bs) =
      from_le_bytes-lt (reverse bs) (All-reverse IsByte bs h) in
    rw (length-reverse bs) at lt

-- The lowest byte is the last.
pub to_be_bytes-suc : (k v : ℕ) → to_be_bytes (suc k) v ≡ to_be_bytes k (v / 256) ++ (v % 256 ∷ [])
unfolding to_be_bytes to_le_bytes
to_be_bytes-suc k v = reverse-cons (v % 256) (to_le_bytes k (v / 256))

from_le_bytes-snoc :
    (bs : List ℕ) (b : ℕ) → from_le_bytes (bs ++ (b ∷ [])) ≡ from_le_bytes bs + 256 ^ length bs * b
unfolding from_le_bytes
from_le_bytes-snoc [] b = omega arith
from_le_bytes-snoc (x ∷ bs) b = rw (from_le_bytes-snoc bs b) (
    let p : 256 ^ length (x ∷ bs) ≡ 256 * 256 ^ length bs =
      omega (arith, pow-suc 256 (length bs)) in
    rw p (grind arith))

-- The highest byte is the first.
pub from_be_bytes-cons :
    (b : ℕ) (bs : List ℕ) → from_be_bytes (b ∷ bs) ≡ 256 ^ length bs * b + from_be_bytes bs
unfolding from_be_bytes
from_be_bytes-cons b bs =
    ap from_le_bytes (reverse-cons b bs)
    ∙ from_le_bytes-snoc (reverse bs) b
    ∙ rw (length-reverse bs) (omega arith)
