-- ===== src/Base/Decimal.antt =====
-- strconv.FormatUint, strconv.FormatInt, strconv.ParseUint and strconv.ParseInt at base 10 and 64
-- bits, which the sources use for Redis keys, members and cursors.
use mathlib.Core.List.{append_assoc, append-nil}
use zhiguang_go.Base.Tests.{ltb, leb, ◌==◌, if◌then◌else◌, Bool-cases}
use zhiguang_go.Base.Lists.{All, All-append}
use zhiguang_go.Base.Strings.{Lacks, Bytes}
use zhiguang_go.Base.Int.{ℤ, pos, negsuc}
use Prim.Native.Nat.{ℕ, zero, suc, ◌+◌, ◌-◌, ◌*◌, ◌/◌, ◌%◌, ◌≤◌, ◌<◌}
use mathlib.Core.Path.{◌≡◌, refl, sym, ap, ◌∙◌}
use mathlib.Core.Logic.{inl, inr}
use mathlib.Core.Bool.{Bool, ◌&&◌}
use mathlib.Core.Option.{Option, none, some}
use mathlib.Core.List.{[], ◌∷◌, ◌++◌}
use native.Mathlib.Omega.{arith}

abbrev pub two_63 : ℕ
two_63 = 9_223_372_036_854_775_808

abbrev pub two_64 : ℕ
two_64 = 18_446_744_073_709_551_616

-- one digit for each round; `n + 1` rounds are enough
unfoldable pub digits : ℕ → ℕ → Bytes
digits zero n = []
digits (suc f) n =
    let high = digits f (n / 10) in
    if ltb n 10 then (b'0' + n) ∷ [] else high ++ (b'0' + n % 10) ∷ []

unfoldable pub format_uint : ℕ → Bytes
unfolding digits
format_uint n = digits (suc n) n

is_digit : ℕ → Bool
is_digit c = leb b'0' c && leb c b'9'

-- The value so far is `n`; a value that does not fit 64 bits is an error.
unfoldable pub parse_digits : ℕ → Bytes → Option ℕ
unfolding is_digit
parse_digits n [] = some n
parse_digits n (c ∷ s) =
    let rest = parse_digits (n * 10 + (c - b'0')) s in
    if is_digit c then (if leb two_64 (n * 10 + (c - b'0')) then none else rest) else none

unfoldable pub parse_uint : Bytes → Option ℕ
unfolding parse_digits
parse_uint [] = none
parse_uint (c ∷ s) = parse_digits 0 (c ∷ s)

unfoldable pub format_int : ℤ → Bytes
unfolding format_uint
format_int (pos n) = format_uint n
format_int (negsuc n) = b'-' ∷ format_uint (suc n)

nonneg : Option ℕ → Option ℤ
nonneg none = none
nonneg (some n) = if leb two_63 n then none else some (pos n)

negated : Option ℕ → Option ℤ
negated none = none
negated (some zero) = some (pos 0)
negated (some (suc n)) = if ltb two_63 (suc n) then none else some (negsuc n)

unfoldable pub parse_int : Bytes → Option ℤ
unfolding nonneg negated parse_uint
parse_int [] = none
parse_int (c ∷ s) =
    if c == b'-'
    then negated (parse_uint s)
    else if c == b'+'
    then nonneg (parse_uint s)
    else nonneg (parse_uint (c ∷ s))

-- Reading the digits of `n`, then what follows, is reading what follows from the value `n`.
parse_digits-digits :
    (f n : ℕ) (rest : Bytes)
    → n < f
    → n < two_64
    → parse_digits 0 (digits f n ++ rest) ≡ parse_digits n rest
unfolding parse_digits digits
parse_digits-digits zero n rest h w = elim h [ ]
parse_digits-digits (suc f) n rest h w = elim (Bool-cases (ltb n 10)) [
  | inl small ↦ rw small (ground arith)
  | inr large ↦
      rw (large, append_assoc (digits f (n / 10)) ((b'0' + n % 10) ∷ []) rest)
        (parse_digits-digits f (n / 10) ((b'0' + n % 10) ∷ rest) (ground arith) (omega arith)
          ∙ ground (arith, ap (λ (t : ℕ). parse_digits t rest) (last_digit n)))
]
  where
    last_digit : (n : ℕ) → n / 10 * 10 + (b'0' + n % 10 - b'0') ≡ n
    last_digit n = omega arith

abbrev pub IsDigit : ℕ → Type 0
IsDigit c = (b'0' ≤ c) × (c ≤ b'9')

digits-IsDigit : (f n : ℕ) → All IsDigit (digits f n)
unfolding digits
digits-IsDigit zero n = tt
digits-IsDigit (suc f) n = elim (Bool-cases (ltb n 10)) [
  | inl small ↦ rw small (ground arith)
  | inr large ↦
      rw large (All-append IsDigit (digits f (n / 10)) _ (digits-IsDigit f (n / 10)) (omega arith))
]

pub format_uint-IsDigit : (n : ℕ) → All IsDigit (format_uint n)
unfolding format_uint
format_uint-IsDigit n = digits-IsDigit (suc n) n

parse_uint-append_digit :
    (xs : Bytes) (c : ℕ) → parse_uint (xs ++ c ∷ []) ≡ parse_digits 0 (xs ++ c ∷ [])
unfolding parse_uint
parse_uint-append_digit [] c = refl
parse_uint-append_digit (x ∷ xs) c = refl

parse_uint-digits : (f n : ℕ) → parse_uint (digits (suc f) n) ≡ parse_digits 0 (digits (suc f) n)
unfolding digits
parse_uint-digits f n = elim (Bool-cases (ltb n 10)) [
  | inl small ↦ rw small (parse_uint-append_digit [] (b'0' + n))
  | inr large ↦ rw large (parse_uint-append_digit (digits f (n / 10)) (b'0' + n % 10))
]

-- Parsing a printed 64-bit number gives the number back.
pub parse_uint-format_uint : (n : ℕ) → n < two_64 → parse_uint (format_uint n) ≡ some n
unfolding format_uint
parse_uint-format_uint n w =
    parse_uint-digits n n
    ∙ ap (parse_digits 0) (sym (append-nil (digits (suc n) n)))
    ∙ parse_digits-digits (suc n) n [] (omega arith) w
    ∙ (unfold parse_digits in refl)

pub format_uint-injective :
    (m n : ℕ) → m < two_64 → n < two_64 → format_uint m ≡ format_uint n → m ≡ n
format_uint-injective m n hm hn e =
    cc (parse_uint-format_uint m hm, parse_uint-format_uint n hn, ap parse_uint e)

parse_int-unsigned : (xs : Bytes) → All IsDigit xs → parse_int xs ≡ nonneg (parse_uint xs)
unfolding parse_int
parse_int-unsigned [] h = refl
parse_int-unsigned (c ∷ xs) h = ground arith

parse_int-minus : (xs : Bytes) → parse_int (b'-' ∷ xs) ≡ negated (parse_uint xs)
unfolding parse_int
parse_int-minus xs = refl

-- The integers that an int64 holds.
abbrev pub FitsInt64 : ℤ → Type 0
FitsInt64 (pos n) = n < two_63
FitsInt64 (negsuc n) = n < two_63

pub parse_int-format_int : (z : ℤ) → FitsInt64 z → parse_int (format_int z) ≡ some z
unfolding format_int
parse_int-format_int (pos n) h =
    parse_int-unsigned (format_uint n) (format_uint-IsDigit n)
    ∙ ap nonneg (parse_uint-format_uint n (omega arith))
    ∙ (unfold nonneg in ground arith)
parse_int-format_int (negsuc n) h =
    parse_int-minus (format_uint (suc n))
    ∙ ap negated (parse_uint-format_uint (suc n) (omega arith))
    ∙ (unfold negated in ground arith)

parse_uint_examples :
    (parse_uint (format_uint 65535) ≡ some 65535)
    × (parse_int (format_int (negsuc 6)) ≡ some (negsuc 6))
    × (parse_uint [] ≡ none)
unfolding parse_uint parse_int format_int format_uint
parse_uint_examples = (refl, refl, refl)

digits_no_colon : (xs : Bytes) → All IsDigit xs → Lacks b':' xs
digits_no_colon [] h = tt
digits_no_colon (x ∷ xs) (h, hs) = (λ e. ground arith, digits_no_colon xs hs)

pub format_int-Lacks : (z : ℤ) → Lacks b':' (format_int z)
unfolding format_int
format_int-Lacks (pos n) = digits_no_colon (format_uint n) (format_uint-IsDigit n)
format_int-Lacks (negsuc n) =
    (λ e. ground arith, digits_no_colon (format_uint (suc n)) (format_uint-IsDigit (suc n)))
