-- ===== src/Counter/Likers/Cursors.antt =====
-- The cursors of internal/counter/likers.go are read back as what they were made of.
use zhiguang_go.Base.{
  ℕ, ◌<◌, ◌≡◌, refl, sym, ap, ◌∙◌, ◌≢◌, inl, inr, true, false, ◌||◌, none, some, [], ◌∷◌, arith,
  Bool-cases, All, Bytes, codes, bytes_eq, bytes_eq_iff, cut_lem,
}
use zhiguang_go.Base.Int.{ℤ, pos}
use zhiguang_go.Base.Decimal.{
  format_uint, format_int, parse_uint, two_64, FitsInt64, IsDigit, format_uint-IsDigit,
  parse_int-format_int, parse_uint-format_uint, format_int-Lacks,
}
use zhiguang_go.Counter.Likers.{
  LikersCursor, encode_time_cursor, encode_uid_cursor, cut_prefix, time_parts, time_cursor,
  uid_cursor, parse_uid_form, parse_form, parse_likers_cursor,
}

abbrev pub time_place : ℤ → ℕ → LikersCursor
time_place ts user_id = record { by_time = true; ts = ts; user_id = user_id }

abbrev pub user_place : ℕ → LikersCursor
user_place user_id = record { by_time = false; ts = pos 0; user_id = user_id }

time_lem :
    (ts : ℤ) (u : ℕ)
    → FitsInt64 ts
    → u < two_64
    → parse_likers_cursor (encode_time_cursor ts u) ≡ some (time_place ts u)
unfolding parse_likers_cursor encode_time_cursor cut_prefix time_parts parse_form time_cursor
    bytes_eq
time_lem ts u h w =
    ap (λ p. parse_form p (encode_time_cursor ts u))
      (cut_lem b':' (format_int ts) (format_uint u) (format_int-Lacks ts))
    ∙ ap (λ t. time_cursor t (parse_uint (format_uint u))) (parse_int-format_int ts h)
    ∙ ap (time_cursor (some ts)) (parse_uint-format_uint u w)

uid_lem : (u : ℕ) → u < two_64 → parse_likers_cursor (encode_uid_cursor u) ≡ some (user_place u)
unfolding parse_likers_cursor encode_uid_cursor cut_prefix time_parts parse_form parse_uid_form
    uid_cursor bytes_eq
uid_lem u w = ap uid_cursor (parse_uint-format_uint u w)

zero_text :
    (s : Bytes) (u : ℕ)
    → (bytes_eq s [] || bytes_eq s (codes "0")) ≡ true
    → parse_uint s ≡ some u
    → 0 ≡ u
unfolding bytes_eq parse_uint
zero_text [] u b e = cc
zero_text (c ∷ s) u b e =
    let eq : c ∷ s ≡ codes "0" = (bytes_eq_iff (c ∷ s) (codes "0")).0 b in
    let z : some 0 ≡ some u = ap parse_uint (sym eq) ∙ e in cc

no_prefix : (p c : ℕ) (ps s : Bytes) → p ≢ c → cut_prefix (p ∷ ps) (c ∷ s) ≡ none
unfolding cut_prefix
no_prefix p c ps s ne = ground arith

no_text : parse_uint [] ≡ none
unfolding parse_uint
no_text = refl

form_lem :
    (s : Bytes) (u : ℕ)
    → All IsDigit s
    → parse_uint s ≡ some u
    → parse_form (time_parts (cut_prefix (codes "t:") s)) s ≡ some (user_place u)
unfolding time_parts parse_form parse_uid_form uid_cursor
form_lem [] u h e = let z : parse_uint [] ≡ none = no_text in cc
form_lem (c ∷ s) u (d, ds) e =
    ap (λ p. parse_form (time_parts p) (c ∷ s)) (no_prefix b't' c (codes ":") s (λ z. omega arith))
    ∙ ap (λ p. parse_uid_form p (c ∷ s)) (no_prefix b'u' c (codes ":") s (λ z. omega arith))
    ∙ ap uid_cursor e

-- Digits are read as the identifier of a user.
digits_lem :
    (s : Bytes) (u : ℕ)
    → All IsDigit s
    → parse_uint s ≡ some u
    → parse_likers_cursor s ≡ some (user_place u)
unfolding parse_likers_cursor time_parts parse_form parse_uid_form uid_cursor
digits_lem s u h e = elim (Bool-cases (bytes_eq s [] || bytes_eq s (codes "0"))) [
  | inl b ↦ rw (b) (ap (λ n. some (user_place n)) (zero_text s u b e))
  | inr b ↦ rw (b) (form_lem s u h e)
]

-- A cursor of either path is read back as what it was made of, and the decimal identifiers that earlier
-- clients send are read as those of the user path, where the numbers are int64 and uint64 values.
pub parse_likers_cursor-reads :
    (ts : ℤ) (u : ℕ)
    → FitsInt64 ts
    → u < two_64
    → (parse_likers_cursor (encode_time_cursor ts u) ≡ some (time_place ts u))
      × (parse_likers_cursor (encode_uid_cursor u) ≡ some (user_place u))
      × (parse_likers_cursor (format_uint u) ≡ some (user_place u))
parse_likers_cursor-reads ts u h w = (
  time_lem ts u h w,
  uid_lem u w,
  digits_lem (format_uint u) u (format_uint-IsDigit u) (parse_uint-format_uint u w),
)
