-- ===== src/Msquic/Protocol/Wire.antt =====
-- The header of a request is what utils/src/perf.rs writes and reads.
use nesquic.Prelude.{
  ℕ, zero, suc, ◌+◌, ◌*◌, ◌/◌, ◌%◌, ◌^◌, ◌<◌, ◌≡◌, refl, ◌∙◌, ap, sym, List, [], ◌∷◌, ◌++◌,
  append_assoc, append-nil, length, All, arith,
}
use nesquic.Perf.Bytes.{
  to_be_bytes, from_be_bytes, to_be_bytes-suc, from_be_bytes-cons, IsByte, from_be_bytes-lt,
}
use nesquic.Perf.Blob.{Request, to_bytes, of_bytes}
use nesquic.Msquic.Protocol.{u64, write_from, request_to_bytes, read_from, request_from_bytes}
use native.Mathlib.Nat.{le-mul_of_pos_right, div-div-eq-div-mul, pow-suc}

pow_add : (n k : ℕ) → 2 ^ (n + k) ≡ 2 ^ n * 2 ^ k
pow_add n zero = (let none_more : n + zero ≡ n = omega arith in rw none_more (omega arith))
pow_add n (suc k) =
    let next : n + suc k ≡ suc (n + k) = omega arith in
    rw (next, pow-suc 2 (n + k), pow-suc 2 k, pow_add n k) (grind arith)

pow_pos : (n : ℕ) → 0 < 256 ^ n
pow_pos zero = omega arith
pow_pos (suc n) = omega (arith, pow_pos n, pow-suc 256 n)

write_from-to_be_bytes :
    (n i size : ℕ) (out : List ℕ)
    → write_from n i size out ≡ to_be_bytes n (size / 2 ^ (8 * i)) ++ out
unfolding write_from to_be_bytes
write_from-to_be_bytes zero i size out = refl
write_from-to_be_bytes (suc n) i size out =
    let down : size / 2 ^ (8 * i) / 256 ≡ size / 2 ^ (8 * suc i) =
      div-div-eq-div-mul size (2 ^ (8 * i)) 256
      ∙ ap (λ (m : ℕ). size / m)
          (let p : 8 * suc i ≡ 8 * i + 8 = omega arith in rw p (sym (pow_add (8 * i) 8))) in
    write_from-to_be_bytes n (suc i) size _
    ∙ rw
        (
          to_be_bytes-suc n (size / 2 ^ (8 * i)),
          append_assoc (to_be_bytes n (size / 2 ^ (8 * i) / 256)) ((size / 2 ^ (8 * i)) % 256 ∷ [])
              out,
          down,
        )
        refl

-- The program over msquic writes the header of a request as the Rust programs do.
pub request_to_bytes-to_bytes : (r : Request) → request_to_bytes r.size ≡ to_bytes r
unfolding request_to_bytes to_bytes
request_to_bytes-to_bytes r =
    write_from-to_be_bytes 8 0 r.size [] ∙ append-nil _ ∙ ap (to_be_bytes 8) (omega arith)

read_from-from_be_bytes :
    (size : ℕ) (bs : List ℕ)
    → All IsByte bs
    → size * 256 ^ length bs + from_be_bytes bs < 2 ^ 64
    → read_from size bs ≡ size * 256 ^ length bs + from_be_bytes bs
unfolding read_from from_be_bytes
read_from-from_be_bytes size [] h fits = omega (arith, fits)
read_from-from_be_bytes size (b ∷ bs) h fits =
    let q = 256 ^ length bs in
    let p : 256 ^ length (b ∷ bs) ≡ 256 * q = omega (arith, pow-suc 256 (length bs)) in
    let total : size * 256 ^ length (b ∷ bs) + from_be_bytes (b ∷ bs)
        ≡ (size * 2 ^ 8 + b) * q + from_be_bytes bs =
      rw (p, from_be_bytes-cons b bs) (grind arith) in
    let small : (size * 2 ^ 8 + b) * q + from_be_bytes bs < 2 ^ 64 = rw total at fits in
    let shifted : u64 (size * 2 ^ 8) ≡ size * 2 ^ 8 =
      (let le = le-mul_of_pos_right (size * 2 ^ 8 + b) (pow_pos (length bs)) in omega arith) in
    rw shifted (read_from-from_be_bytes (size * 2 ^ 8 + b) bs h.1 small ∙ sym total)

-- They read the same size from a header of eight bytes.
pub request_from_bytes-of_bytes :
    (bs : List ℕ) → length bs ≡ 8 → All IsByte bs → request_from_bytes bs ≡ (of_bytes bs).size
unfolding request_from_bytes of_bytes
request_from_bytes-of_bytes bs e h =
    let small = from_be_bytes-lt bs h in
    read_from-from_be_bytes 0 bs h
      (let lt : from_be_bytes bs < 256 ^ 8 = rw e at small in omega arith)
    ∙ omega arith
