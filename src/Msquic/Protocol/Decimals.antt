-- ===== src/Msquic/Protocol/Decimals.antt =====
-- The sizes that the client over msquic takes.
use nesquic.Prelude.{
  ℕ, suc, ◌+◌, ◌-◌, ◌*◌, ◌/◌, ◌^◌, ◌<◌, ◌≤◌, ◌≡◌, ◌∙◌, refl, ◌==◌, true, false, ltb, some, [], ◌∷◌,
  ◌++◌, length, take, drop, get_elem?, length-append, take-append_le, take-all, All, arith,
}
use native.Mathlib.Nat.{le-mul_of_pos_right}
use nesquic.Text.{Text, codes, eq_text}
use nesquic.Msquic.Protocol.{u64, is_digit, read_digits, scaled, by_prefix, blob_bytes_from_string}

abbrev pub IsDigit : ℕ → Type 0
IsDigit c = is_digit c ≡ true

-- The number that digits stand for, behind `n`.
unfoldable pub decimal : ℕ → Text → ℕ
decimal n [] = n
decimal n (c ∷ cs) = decimal (n * 10 + (c - 48)) cs

pub data Prefix : Type 0 where
  plain : Prefix
  kilo : Prefix
  mega : Prefix
  giga : Prefix

abbrev pub suffix : Prefix → Text
suffix plain = codes "bit"
suffix kilo = codes "Kbit"
suffix mega = codes "Mbit"
suffix giga = codes "Gbit"

abbrev pub factor : Prefix → ℕ
factor plain = 1
factor kilo = 1000
factor mega = 1000000
factor giga = 1000000000

decimal-ge : (n : ℕ) (cs : Text) → n ≤ decimal n cs
unfolding decimal
decimal-ge n [] = omega arith
decimal-ge n (c ∷ cs) = omega (arith, decimal-ge (n * 10 + (c - 48)) cs)

read_digits-decimal :
    (n : ℕ) (cs : Text)
    → All IsDigit cs
    → decimal n cs < 2 ^ 64
    → read_digits n cs ≡ some (decimal n cs)
unfolding read_digits decimal
read_digits-decimal n [] digits fits = refl
read_digits-decimal n (c ∷ cs) digits fits =
    let whole : u64 (n * 10 + (c - 48)) ≡ n * 10 + (c - 48) =
      omega (arith, decimal-ge (n * 10 + (c - 48)) cs) in
    rw (digits.0, whole) (read_digits-decimal (n * 10 + (c - 48)) cs digits.1 fits)

drop-length : (xs ys : Text) (k : ℕ) → drop (length xs + k) (xs ++ ys) ≡ drop k ys
drop-length [] ys k = (let e : 0 + k ≡ k = omega arith in rw e refl)
drop-length (x ∷ xs) ys k =
    (let e : length (x ∷ xs) + k ≡ suc (length xs + k) = omega arith in rw e (drop-length xs ys k))

get_elem?-length : (xs ys : Text) (k : ℕ) → get_elem? (xs ++ ys) (length xs + k) ≡ get_elem? ys k
get_elem?-length [] ys k = (let e : 0 + k ≡ k = omega arith in rw e refl)
get_elem?-length (x ∷ xs) ys k =
    (let e : length (x ∷ xs) + k ≡ suc (length xs + k) = omega arith in
      rw e (get_elem?-length xs ys k))

take-length : (xs ys : Text) → take (length xs) (xs ++ ys) ≡ xs
take-length xs ys =
    take-append_le (length xs) xs ys (omega arith) ∙ take-all (length xs) xs (omega arith)

last-IsDigit :
    (cs ys : Text)
    → All IsDigit cs
    → 0 < length cs
    → (c : ℕ) × (get_elem? (cs ++ ys) (length cs - 1) ≡ some c) × IsDigit c
last-IsDigit [] ys digits some_digits = absurd (omega arith)
last-IsDigit (c ∷ []) ys digits some_digits = (c, refl, digits.0)
last-IsDigit (c ∷ (d ∷ cs)) ys digits some_digits =
    let (e, there, h) = last-IsDigit (d ∷ cs) ys digits.1 (omega arith) in
    let same : length (c ∷ d ∷ cs) - 1 ≡ suc (length (d ∷ cs) - 1) = omega arith in
    (e, rw same there, h)

scaled-decimal :
    (mult : ℕ) (cs : Text)
    → All IsDigit cs
    → 0 < length cs
    → 0 < mult
    → decimal 0 cs * mult < 2 ^ 64
    → scaled mult cs ≡ some (decimal 0 cs * mult / 8)
unfolding scaled
scaled-decimal mult cs digits some_digits pos fits =
    let small : decimal 0 cs < 2 ^ 64 =
      (let le = le-mul_of_pos_right (decimal 0 cs) pos in omega arith) in
    let none_empty : (length cs == 0) ≡ false = ground arith in
    let whole : u64 (decimal 0 cs * mult) ≡ decimal 0 cs * mult = omega arith in
    rw (none_empty, read_digits-decimal 0 cs digits small, whole) refl

by_parts :
    (v : Text) (prefix : ℕ)
    → ltb (length v) 4 ≡ false
    → drop (length v - 3) v ≡ codes "bit"
    → get_elem? v (length v - 4) ≡ some prefix
    → blob_bytes_from_string v ≡ by_prefix prefix v
unfolding blob_bytes_from_string eq_text
by_parts v prefix long bit there = rw (long, bit, there) refl

-- Behind the digits is a prefix, and then bit.
prefixed :
    (cs : Text) (prefix : ℕ) (v : Text)
    → v ≡ cs ++ (prefix ∷ codes "bit")
    → (blob_bytes_from_string v ≡ by_prefix prefix v) × (take (length v - 4) v ≡ cs)
prefixed cs prefix v e =
    let rest = prefix ∷ codes "bit" in
    let four : length v ≡ length cs + 4 = rw e (length-append cs rest) in
    let at_bit : length v - 3 ≡ length cs + 1 = omega arith in
    let at_prefix : length v - 4 ≡ length cs + 0 = omega arith in
    let all : length cs + 0 ≡ length cs = omega arith in
    let long : ltb (length v) 4 ≡ false = ground arith in
    (
      by_parts v prefix long (rw (at_bit, e) (drop-length cs rest 1))
          (rw (at_prefix, e) (get_elem?-length cs rest 0)),
      rw (at_prefix, all, e) (take-length cs rest),
    )

-- Digits, of which there are some, before bit, Kbit, Mbit or Gbit: where so many bits are a number of 64
-- bits, they are read as that many bits, in whole bytes.
pub blob_bytes_from_string-decimal :
    (cs : Text) (prefix : Prefix)
    → All IsDigit cs
    → 0 < length cs
    → decimal 0 cs * factor prefix < 2 ^ 64
    → blob_bytes_from_string (cs ++ suffix prefix) ≡ some (decimal 0 cs * factor prefix / 8)
unfolding by_prefix
blob_bytes_from_string-decimal cs plain digits some_digits fits =
    let v = cs ++ codes "bit" in
    let (c, there, digit) = last-IsDigit cs (codes "bit") digits some_digits in
    let three : length v ≡ length cs + 3 = length-append cs (codes "bit") in
    let at_bit : length v - 3 ≡ length cs + 0 = omega arith in
    let at_last : length v - 4 ≡ length cs - 1 = omega arith in
    let all : length cs + 0 ≡ length cs = omega arith in
    let long : ltb (length v) 4 ≡ false = ground arith in
    by_parts v c long (rw at_bit (drop-length cs (codes "bit") 0)) (rw at_last there)
    ∙ rw (digit, at_bit, all, take-length cs (codes "bit"))
        (scaled-decimal 1 cs digits some_digits (omega arith) fits)
blob_bytes_from_string-decimal cs giga digits some_digits fits =
    let (read, whole) = prefixed cs 71 (cs ++ codes "Gbit") refl in
    read ∙ rw whole (scaled-decimal 1000000000 cs digits some_digits (omega arith) fits)
blob_bytes_from_string-decimal cs mega digits some_digits fits =
    let (read, whole) = prefixed cs 77 (cs ++ codes "Mbit") refl in
    read ∙ rw whole (scaled-decimal 1000000 cs digits some_digits (omega arith) fits)
blob_bytes_from_string-decimal cs kilo digits some_digits fits =
    let (read, whole) = prefixed cs 75 (cs ++ codes "Kbit") refl in
    read ∙ rw whole (scaled-decimal 1000 cs digits some_digits (omega arith) fits)
