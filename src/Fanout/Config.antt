-- ===== src/Fanout/Config.antt =====
-- internal/fanout/config.go.
use zhiguang_go.Base.{ℕ, ◌*◌, ◌==◌, if◌then◌else◌}
use zhiguang_go.Base.Int.{ℤ, pos, negsuc}

-- Config, as it is written.
pub record RawConfig : Type 0 where
  pub celebrity_threshold : ℤ
  pub fanout_batch_size : ℤ
  pub fanout_max_fans : ℤ
  pub timeline_max_items : ℤ
  pub timeline_ttl : ℤ
  pub author_box_max_items : ℤ
  pub author_box_ttl : ℤ
  pub follow_backfill_limit : ℤ
  pub max_pull_authors : ℤ

-- Config, after withDefaults; durations are in seconds.
pub record Config : Type 0 where
  pub celebrity_threshold : ℕ
  pub fanout_batch_size : ℕ
  pub fanout_max_fans : ℕ
  pub timeline_max_items : ℕ
  pub timeline_ttl : ℕ
  pub author_box_max_items : ℕ
  pub author_box_ttl : ℕ
  pub follow_backfill_limit : ℕ
  pub max_pull_authors : ℕ

-- The value, or the default where it is not positive.
abbrev positive_or : ℤ → ℕ → ℕ
positive_or (pos n) d = if n == 0 then d else n
positive_or (negsuc n) d = d

abbrev clamped : ℤ → ℕ
clamped (pos n) = n
clamped (negsuc n) = 0

abbrev day : ℕ
day = 86400

unfoldable pub with_defaults : RawConfig → Config
with_defaults c = record {
  celebrity_threshold = positive_or c.celebrity_threshold 5000;
  fanout_batch_size = positive_or c.fanout_batch_size 500;
  fanout_max_fans = positive_or c.fanout_max_fans 100000;
  timeline_max_items = positive_or c.timeline_max_items 1000;
  timeline_ttl = positive_or c.timeline_ttl (7 * day);
  author_box_max_items = positive_or c.author_box_max_items 200;
  author_box_ttl = positive_or c.author_box_ttl (30 * day);
  follow_backfill_limit = clamped c.follow_backfill_limit;
  max_pull_authors = positive_or c.max_pull_authors 200;
}
