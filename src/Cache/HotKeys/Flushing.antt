-- ===== src/Cache/HotKeys/Flushing.antt =====
-- internal/cache/hotkey.go: flushOnce and the hash of counts of each key in Redis.
pub mod Window
use zhiguang_go.Base.{
  ℕ, Bool, true, false, ◌||◌, Option, none, some, List, [], ◌∷◌, if◌then◌else◌, Bytes, bytes_eq,
  update,
}
use zhiguang_go.Base.Int.{pos, ◌+ℤ◌}
use zhiguang_go.Base.Decimal.{format_int, parse_int}
use zhiguang_go.Cache.HotKeys.{
  Buckets, Buffer, HotKeyConfig, Level, Levels, calc_level, cold, current_bucket, high, low,
  mark_of, medium, stale_bucket_fields, sum_buckets_in_window, wrap64,
}

-- HINCRBY of a field by `n`; a value that is no integer makes the pipeline fail, which is an input.
unfoldable pub hincr_by : Bytes → ℕ → List (Bytes × Bytes) → List (Bytes × Bytes)
hincr_by field n [] = (field, format_int (pos n)) ∷ []
hincr_by field n ((f, v) ∷ h) =
    if bytes_eq f field
    then (f, elim (parse_int v) [ none ↦ v | some z ↦ format_int (wrap64 (z +ℤ pos n)) ]) ∷ h
    else (f, v) ∷ hincr_by field n h

unfoldable pub hincr_buckets : Buckets → List (Bytes × Bytes) → List (Bytes × Bytes)
unfolding hincr_by
hincr_buckets [] h = h
hincr_buckets ((b, n) ∷ bs) h = hincr_buckets bs (hincr_by (format_int (pos b)) n h)

unfoldable pub is_field : Bytes → List Bytes → Bool
is_field f [] = false
is_field f (g ∷ fields) = bytes_eq f g || is_field f fields

-- HDEL
unfoldable pub hdel : List Bytes → List (Bytes × Bytes) → List (Bytes × Bytes)
unfolding is_field
hdel fields [] = []
hdel fields ((f, v) ∷ h) =
    let rest = hdel fields h in if is_field f fields then rest else (f, v) ∷ rest

-- The detector, with the hashes and marks that Redis holds.
pub record Detector : Type 0 where
  pub buf : Buffer
  pub levels : Levels
  pub stats : Bytes → List (Bytes × Bytes)
  pub marks : Bytes → Option Bytes

-- Which pipelines fail; a hash that cannot be read is one of the `unread` ones.
pub record Faults : Type 0 where
  pub write : Bool
  pub unread : Bytes → Bool
  pub mark : Bool

write_stats :
    HotKeyConfig → ℕ → Buffer → (Bytes → List (Bytes × Bytes)) → Bytes → List (Bytes × Bytes)
unfolding hincr_buckets hdel
write_stats cfg bucket [] stats = stats
write_stats cfg bucket ((k, bs) ∷ buf) stats =
    write_stats cfg bucket buf
      (update stats k (hdel (stale_bucket_fields cfg bucket) (hincr_buckets bs (stats k))))

read_levels : HotKeyConfig → Faults → ℕ → Buffer → (Bytes → List (Bytes × Bytes)) → Levels
read_levels cfg f bucket [] stats = []
read_levels cfg f bucket ((k, bs) ∷ buf) stats =
    let rest = read_levels cfg f bucket buf stats in
    if f.unread k
    then rest
    else (k, calc_level cfg (sum_buckets_in_window cfg (stats k) bucket)) ∷ rest

is_hot : Level → Bool
is_hot cold = false
is_hot low = true
is_hot medium = true
is_hot high = true

write_marks : Levels → (Bytes → Option Bytes) → Bytes → Option Bytes
unfolding is_hot
write_marks [] marks = marks
write_marks ((k, l) ∷ levels) marks =
    write_marks levels (if is_hot l then update marks k (some (mark_of l)) else marks)

flushed : HotKeyConfig → Faults → ℕ → Buffer → Detector → Detector
unfolding write_stats read_levels write_marks
flushed cfg f bucket [] d = record d { buf = []; levels = [] }
flushed cfg f bucket (e ∷ buf) d =
    if f.write
    then record d { buf = [] }
    else let stats = write_stats cfg bucket (e ∷ buf) d.stats in
      let levels = read_levels cfg f bucket (e ∷ buf) stats in
      record {
        buf = [];
        levels = levels;
        stats = stats;
        marks = if f.mark then d.marks else write_marks levels d.marks;
      }

-- flushOnce, with snapshotAndReset and replaceLevels, at the time `now`
unfoldable pub flush_once : HotKeyConfig → Faults → ℕ → Detector → Detector
unfolding flushed
flush_once cfg f now d = flushed cfg f (current_bucket cfg now) d.buf d
