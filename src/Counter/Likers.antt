-- ===== src/Counter/Likers.antt =====
-- internal/counter/likers.go: the cursors of the list of likers. An error is `none`.
pub mod Cursors
pub mod Scan
use zhiguang_go.Base.{
  ℕ, ◌+◌, Bool, true, false, ◌||◌, Option, none, some, [], ◌∷◌, ◌++◌, ◌==◌, if◌then◌else◌, Bytes,
  codes, bytes_eq, cut,
}
use zhiguang_go.Base.Int.{ℤ, pos}
use zhiguang_go.Base.Decimal.{format_uint, format_int, parse_uint, parse_int}

-- likersCursor
pub record LikersCursor : Type 0 where
  pub by_time : Bool
  pub ts : ℤ
  pub user_id : ℕ

-- encodeTimeCursor
unfoldable pub encode_time_cursor : ℤ → ℕ → Bytes
encode_time_cursor ts user_id = codes "t:" ++ (format_int ts ++ b':' ∷ format_uint user_id)

-- encodeUIDCursor
unfoldable pub encode_uid_cursor : ℕ → Bytes
encode_uid_cursor user_id = codes "u:" ++ format_uint user_id

-- strings.CutPrefix
unfoldable pub cut_prefix : Bytes → Bytes → Option Bytes
cut_prefix [] s = some s
cut_prefix (p ∷ ps) [] = none
cut_prefix (p ∷ ps) (c ∷ s) = let rest = cut_prefix ps s in if p == c then rest else none

time_parts : Option Bytes → Option (Bytes × Bytes)
time_parts none = none
time_parts (some body) = cut b':' body

time_cursor : Option ℤ → Option ℕ → Option LikersCursor
time_cursor (some t) (some u) = some (record { by_time = true; ts = t; user_id = u })
time_cursor (some t) none = none
time_cursor none u = none

uid_cursor : Option ℕ → Option LikersCursor
uid_cursor none = none
uid_cursor (some u) = some (record { by_time = false; ts = pos 0; user_id = u })

-- A cursor of the user path; without the prefix it is one of an earlier client.
parse_uid_form : Option Bytes → Bytes → Option LikersCursor
parse_uid_form (some uid) raw = uid_cursor (parse_uint uid)
parse_uid_form none raw = uid_cursor (parse_uint raw)

parse_form : Option (Bytes × Bytes) → Bytes → Option LikersCursor
parse_form (some (ts, uid)) raw = time_cursor (parse_int ts) (parse_uint uid)
parse_form none raw = parse_uid_form (cut_prefix (codes "u:") raw) raw

-- parseLikersCursor
unfoldable pub parse_likers_cursor : Bytes → Option LikersCursor
unfolding parse_form parse_uid_form time_parts time_cursor uid_cursor
parse_likers_cursor raw =
    if bytes_eq raw [] || bytes_eq raw (codes "0")
    then some (record { by_time = false; ts = pos 0; user_id = 0 })
    else parse_form (time_parts (cut_prefix (codes "t:") raw)) raw
