-- ===== src/Counter/Rebuild/Decoded.antt =====
-- The counts of a snapshot are read back as they were written.
use zhiguang_go.Base.{ℕ, ◌+◌, ◌-◌, ◌*◌, ◌%◌, ◌≤◌, ◌<◌, ◌≡◌, ap, ◌∙◌, some, [], ◌∷◌, arith, Bytes}
use zhiguang_go.Base.Int.{pos}
use zhiguang_go.Base.Decimal.{
  format_uint, format_int, parse_uint, parse_digits, parse_uint-format_uint,
}
use zhiguang_go.Counter.Rebuild.{to_int32, parse_bits, parse_int32, signed}

pub to_int32_small : (n : ℕ) → n < 2_147_483_648 → to_int32 n ≡ pos n
unfolding to_int32
to_int32_small n h = ground arith

digit_step :
    (c : ℕ) (s : Bytes) (n m : ℕ)
    → parse_digits n (c ∷ s) ≡ some m
    → (b'0' ≤ c) × (c ≤ b'9') × (parse_digits (n * 10 + (c - b'0')) s ≡ some m)
unfolding parse_digits
digit_step c s n m e = ground arith

parse_digits-le : (s : Bytes) (n m : ℕ) → parse_digits n s ≡ some m → n ≤ m
parse_digits-le [] n m e = unfold parse_digits in ground arith
parse_digits-le (c ∷ s) n m e =
    let step = digit_step c s n m e in
    omega (arith, parse_digits-le s (n * 10 + (c - b'0')) m step.2)

parse_bits-parse_digits :
    (s : Bytes) (n m : ℕ) → m < 2_147_483_648 → parse_digits n s ≡ some m → parse_bits n s ≡ some m
unfolding parse_bits
parse_bits-parse_digits [] n m k e = unfold parse_digits in e
parse_bits-parse_digits (c ∷ s) n m k e =
    let (lo, hi, rest) = digit_step c s n m e in
    let small : (n * 10 + (c - b'0')) % 4_294_967_296 ≡ n * 10 + (c - b'0') =
      omega (arith, parse_digits-le s (n * 10 + (c - b'0')) m rest) in
    rw (small, parse_bits-parse_digits s (n * 10 + (c - b'0')) m k rest) (ground arith)

parse_digits_of : (s : Bytes) (n : ℕ) → parse_uint s ≡ some n → parse_digits 0 s ≡ some n
unfolding parse_uint
parse_digits_of [] n e = cc
parse_digits_of (c ∷ s) n e = e

-- A count below 2^31 that is written as a decimal is read back.
pub parse_int32-format_int :
    (n : ℕ) → n < 2_147_483_648 → parse_int32 (format_int (pos n)) ≡ some (pos n)
parse_int32-format_int n h =
    let read =
      parse_bits-parse_digits (format_uint n) 0 n h
        (parse_digits_of (format_uint n) n (parse_uint-format_uint n (omega arith))) in
    unfold parse_int32 format_int in ap signed read ∙ ap some (to_int32_small n h)
