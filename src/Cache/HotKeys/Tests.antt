-- ===== src/Cache/HotKeys/Tests.antt =====
-- The hot keys on a small example.
use zhiguang_go.Base.{
  ◌≡◌, refl, false, Option, none, some, [], ◌∷◌, map, arith, if◌then◌else◌, Bytes, codes, bytes_eq,
}
use zhiguang_go.Base.Decimal.{parse_int}
use zhiguang_go.Base.Int.{pos, ◌+ℤ◌}
use zhiguang_go.Cache.HotKeys.{
  put, evict_oldest, ttl_for_level, parse_mark_level, HotKeyConfig, Levels, Buffer, find,
  record_hit, current_bucket, sum_buckets_in_window, calc_level, ttl_for_public_batch, low,
}
use zhiguang_go.Cache.HotKeys.Flushing.{Detector, Faults, hincr_buckets, flush_once}
use zhiguang_go.Cache.HotKeys.Evicting.{IsMap}
use zhiguang_go.Cache.HotKeys.Counting.{IsBuffer}
use zhiguang_go.Cache.HotKeys.Flushing.Window.{flush_once_level}

abbrev cfg : HotKeyConfig
cfg = record {
  bucket_seconds = 10;
  flush_seconds = 5;
  bucket_count = 2;
  level_low = pos 3;
  level_medium = pos 6;
  level_high = pos 9;
  extend_low = pos 20;
  extend_medium = pos 60;
  extend_high = pos 120;
}

abbrev post : Bytes
post = codes "p1"

abbrev feed : Bytes
feed = codes "f"

-- Both keys are counted, the first in a bucket long past.
abbrev buf : Buffer
buf = (post, (1, 4) ∷ []) ∷ (feed, (7, 2) ∷ []) ∷ []

buf-IsMap : IsMap buf
unfolding find bytes_eq
buf-IsMap = (refl, (refl, tt))

buf-IsBuffer : IsBuffer 2 buf
buf-IsBuffer = record { bounded = omega arith; unique = buf-IsMap }

abbrev next : Bytes
next = codes "p2"

evicted_test : map (λ e. e.0) (record_hit cfg 2 75 next buf) ≡ feed ∷ next ∷ []
unfolding record_hit find bytes_eq put evict_oldest current_bucket
evicted_test = refl

-- Redis holds a bucket of the window and one that is past.
abbrev held : Detector
held = record {
  buf = buf;
  levels = [];
  stats = λ k. (codes "3", codes "50") ∷ (codes "6", codes "5") ∷ [];
  marks = λ k. none;
}

abbrev no_faults : Faults
no_faults = record { write = false; unread = λ k. false; mark = false }

feed_found : find buf feed ≡ some ((7, 2) ∷ [])
unfolding find bytes_eq
feed_found = refl

flush_once_level_example :
    find (flush_once cfg no_faults 75 held).levels feed
    ≡ some (
        calc_level cfg (
          sum_buckets_in_window cfg
            (hincr_buckets ((7, 2) ∷ []) (held.stats feed))
            (current_bucket cfg 75)))
flush_once_level_example =
    flush_once_level cfg no_faults 75 held feed ((7, 2) ∷ []) (unfold current_bucket in omega arith)
      buf-IsMap feed_found refl refl

abbrev marks : Bytes → Option Bytes
marks k = if bytes_eq k feed then some (codes "3") else none

abbrev local : Levels
local = (post, low) ∷ []

ttls_test :
    (ttl_for_public_batch cfg 5 false marks (pos 30) (post ∷ feed ∷ next ∷ []) local).0
    ≡ pos 50 ∷ pos 150 ∷ pos 30 ∷ []
unfolding ttl_for_public_batch find bytes_eq ttl_for_level ◌+ℤ◌ parse_mark_level parse_int
ttls_test = refl
