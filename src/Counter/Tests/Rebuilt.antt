-- ===== src/Counter/Tests/Rebuilt.antt =====
-- The theorems on the rebuilding of snapshots, their repair and the scan of the likers.
use zhiguang_go.Base.{
  Bool, ℕ, zero, suc, ◌≡◌, refl, true, false, ◌&&◌, none, some, List, [], ◌∷◌, arith, ◌==◌, All,
  Bytes, codes, bytes_eq,
}
use mathlib.Core.List.Perm
use zhiguang_go.Base.Int.{pos}
use zhiguang_go.Base.Decimal.{format_uint}
use zhiguang_go.Counter.Model.{bitmap_key, index_to_name}
use zhiguang_go.Counter.Toggle.{Redis}
use zhiguang_go.Counter.Backoff.{Repair, in_backoff, allowed_by_rate_limiter}
use zhiguang_go.Counter.Rebuild.{Page, keys, Entity, Faults, Config, get_counts, parse_int32}
use zhiguang_go.Counter.Rebuild.Reads.{users, IsScanned, IsMetric, MayRebuild, get_counts-users}
use zhiguang_go.Counter.Repair.{World, LockReply, taken, held, Attempt, repair_dirty_members}
use zhiguang_go.Counter.Repair.Accounts.{Popped, IsAccounted, repair_dirty_members-accounts}
use zhiguang_go.Counter.Likers.Scan.{scan_bitmap_for_likers, scan_liker_chunks}
use zhiguang_go.Counter.Likers.Scan.Pages.{AreShards, page_from, scan_bitmap_for_likers-page}
use zhiguang_go.Counter.Likers.Scan.Found.{above, users_from}
use zhiguang_go.Counter.Rebuild.Shards.{AreKeys}

abbrev post : Bytes
post = codes "post"

abbrev liked_once : Redis
liked_once = record {
  bits = λ k o. bytes_eq k (bitmap_key (codes "like") post (codes "1") 0) && (o == 7);
  zset = λ k m. none;
}

abbrev rested : Repair
rested = record { until = none; exponent = none; limiter = none }

abbrev unread : Entity
unread = record { redis = liked_once; sds = []; repair = rested }

abbrev all_well : Faults
all_well = record {
  hmget = false;
  hmget_again = false;
  backoff = false;
  limiter = false;
  exponent = false;
  escalate = false;
  locked = true;
  hgetall = false;
  hset = false;
  reset = false;
}

abbrev rebuild_config : Config
rebuild_config = record { backoff = record { base_ms = 500; max_ms = 30000 }; rate = none }

-- The only key is that of the likes, and SCAN finds nothing for the other metrics.
abbrev one_shard : ℕ → List Page
one_shard zero = keys (bitmap_key (codes "like") post (codes "1") 0 ∷ []) false ∷ []
one_shard (suc i) = keys [] false ∷ []

abbrev one_key : Bytes → Bool
one_key k = bytes_eq k (bitmap_key (codes "like") post (codes "1") 0)

one_key-AreKeys : AreKeys one_key liked_once
one_key-AreKeys key h j = rw (h) refl

one_shard-IsScanned : IsScanned one_key one_shard post (codes "1") 1
unfolding index_to_name bitmap_key bytes_eq format_uint
one_shard-IsScanned zero h = ((refl, tt), Perm.refl _)
one_shard-IsScanned (suc zero) h = ((refl, tt), Perm.refl _)
one_shard-IsScanned (suc (suc zero)) h = ((refl, tt), Perm.refl _)
one_shard-IsScanned (suc (suc (suc zero))) h = ((refl, tt), Perm.refl _)
one_shard-IsScanned (suc (suc (suc (suc zero)))) h = ((refl, tt), Perm.refl _)
one_shard-IsScanned (suc (suc (suc (suc (suc i))))) h = absurd (omega arith)

unread-MayRebuild : MayRebuild rebuild_config all_well 1000 unread
unfolding in_backoff allowed_by_rate_limiter
unread-MayRebuild = record {
  missing = refl;
  read = refl;
  read_again = refl;
  not_backing_off = refl;
  allowed = refl;
  locked = refl;
  stored = refl;
}

like-IsMetric : IsMetric (codes "like")
unfolding index_to_name
like-IsMetric = (0, omega arith, refl)

get_counts-users_example :
    (get_counts rebuild_config all_well one_shard 1000 (codes "like" ∷ []) unread).0
    ≡ some ((codes "like", pos (users liked_once post (codes "1") 1 (codes "like"))) ∷ [])
get_counts-users_example =
    get_counts-users rebuild_config all_well one_shard 1000 1 post (codes "1") (codes "like" ∷ [])
      unread one_key unread-MayRebuild (like-IsMetric, tt) one_key-AreKeys one_shard-IsScanned
      (omega arith)

parse_int32_wraps : parse_int32 (codes "4294967299") ≡ some (pos 3)
unfolding parse_int32
parse_int32_wraps = refl

abbrev attempt : LockReply → Attempt
attempt reply = record {
  lock = reply;
  scans = one_shard;
  set_marker_fails = false;
  hset_fails = true;
  clear_fails = false;
  reset_fails = false;
  unmark_fails = false;
  add_fails = false;
}

abbrev popped : Popped
popped = (codes "post:1", attempt taken) ∷ (codes "post:2", attempt held) ∷ []

abbrev soiled : World
soiled = record {
  redis = liked_once;
  dirty = codes "post:1" ∷ codes "post:2" ∷ [];
  sds = λ k. [];
  marked = λ k. false;
  backoff = λ k. rested;
}

repair_dirty_members-accounts_example :
    All (IsAccounted soiled (repair_dirty_members 10 (some popped) soiled)) popped
unfolding bytes_eq
repair_dirty_members-accounts_example =
    repair_dirty_members-accounts 10 popped soiled (omega arith) ((refl, tt), (tt, tt))

-- The users 1 and 9 of the first shard.
abbrev two_likers : ℕ → Bytes
two_likers zero = 64 ∷ 64 ∷ []
two_likers (suc n) = []

two_likers-AreShards : AreShards two_likers
two_likers-AreShards zero = omega arith
two_likers-AreShards (suc n) = omega arith

scan_two : scan_liker_chunks two_likers (λ c. false) 3 1 20 ≡ some (9 ∷ [])
unfolding scan_liker_chunks bytes_eq
scan_two = refl

scan_bitmap_for_likers-page_example :
    scan_bitmap_for_likers two_likers (λ c. false) 3 1 20
    ≡ some (page_from 20 (above 1 (users_from two_likers 0 3)))
scan_bitmap_for_likers-page_example =
    scan_bitmap_for_likers-page two_likers (λ c. false) 3 1 20 two_likers-AreShards (λ c. refl)
