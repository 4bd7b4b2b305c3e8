-- ===== src/Cache/HotKeys.antt =====
-- internal/cache/hotkey.go: accesses are counted in the process for each key and bucket of time, flushed
-- into a hash of Redis for each key, and the sum over a window of buckets gives a level, by which the
-- lifetime of a cached entry is extended. A map is a list, in the order in which the code meets it;
-- failing calls are inputs. Bucket numbers and local counts are not negative.
pub mod Flushing
pub mod Evicting
pub mod Counting
pub mod Lifetimes
pub mod Tests
use zhiguang_go.Base.{
  ℕ, zero, suc, ◌+◌, ◌-◌, ◌/◌, ◌%◌, Bool, true, not, ◌&&◌, Option, none, some, List, [], ◌∷◌, map,
  ltb, leb, ◌==◌, if◌then◌else◌, length, keep, Bytes, codes, bytes_eq,
}
use zhiguang_go.Base.Int.{ℤ, pos, negsuc, ◌+ℤ◌, leb_ℤ}
use zhiguang_go.Base.Decimal.{format_int, parse_int, two_64}
use zhiguang_go.Counter.Backoff.{to_int64}

-- HotKeyLevel
pub data Level : Type 0 where
  cold low medium high : Level

pub record HotKeyConfig : Type 0 where
  pub bucket_seconds : ℕ
  pub flush_seconds : ℕ
  pub bucket_count : ℕ
  pub level_low : ℤ
  pub level_medium : ℤ
  pub level_high : ℤ
  pub extend_low : ℤ
  pub extend_medium : ℤ
  pub extend_high : ℤ

-- The counts of a key by bucket, and the buffer.
abbrev pub Buckets : Type 0
Buckets = List (ℕ × ℕ)

abbrev pub Buffer : Type 0
Buffer = List (Bytes × Buckets)

abbrev pub Levels : Type 0
Levels = List (Bytes × Level)

module _ {V : Type 0} where
  unfoldable pub find : List (Bytes × V) → Bytes → Option V
  find [] k = none
  find ((j, v) ∷ m) k = if bytes_eq j k then some v else find m k

  unfoldable pub put : Bytes → V → List (Bytes × V) → List (Bytes × V)
  put k v [] = (k, v) ∷ []
  put k v ((j, w) ∷ m) = if bytes_eq j k then (j, v) ∷ m else (j, w) ∷ put k v m

unfoldable pub current_bucket : HotKeyConfig → ℕ → ℕ
current_bucket cfg now = now / cfg.bucket_seconds

unfoldable pub incr : ℕ → Buckets → Buckets
incr b [] = (b, 1) ∷ []
incr b ((c, n) ∷ bs) = if c == b then (c, n + 1) ∷ bs else (c, n) ∷ incr b bs

-- Whether every bucket is before the window.
unfoldable pub is_stale : HotKeyConfig → ℕ → Buckets → Bool
is_stale cfg bucket [] = true
is_stale cfg bucket ((b, n) ∷ bs) = ltb (b + cfg.bucket_count) bucket && is_stale cfg bucket bs

-- The second pass deletes keys until enough are evicted.
unfoldable pub delete_some : ℕ → Buffer → Buffer
delete_some zero buf = buf
delete_some (suc n) [] = []
delete_some (suc n) (e ∷ buf) = delete_some n buf

-- evictOldestLocked
unfoldable pub evict_oldest : HotKeyConfig → ℕ → Buffer → Buffer
unfolding is_stale delete_some
evict_oldest cfg bucket buf =
    let target = if ltb (length buf / 10) 1 then 1 else length buf / 10 in
    let live = keep (λ e. not (is_stale cfg bucket e.1)) buf in
    let evicted = length buf - length live in
    if leb target evicted then live else delete_some (target - evicted) live

pub make_room : HotKeyConfig → ℕ → ℕ → Buffer → Buffer
make_room cfg max_keys bucket buf =
    if leb max_keys (length buf) then evict_oldest cfg bucket buf else buf

record_at : HotKeyConfig → ℕ → ℕ → Bytes → Option Buckets → Buffer → Buffer
unfolding make_room
record_at cfg max_keys bucket k none buf =
    put k (incr bucket []) (make_room cfg max_keys bucket buf)
record_at cfg max_keys bucket k (some bs) buf = put k (incr bucket bs) buf

-- Record, at the time `now`
unfoldable pub record_hit : HotKeyConfig → ℕ → ℕ → Bytes → Buffer → Buffer
unfolding record_at
record_hit cfg max_keys now k buf =
    record_at cfg max_keys (current_bucket cfg now) k (find buf k) buf

unfoldable pub countdown : ℕ → ℕ → List ℕ
countdown b zero = []
countdown b (suc n) = b ∷ countdown (b - 1) n

unfoldable pub slack : HotKeyConfig → ℕ
slack cfg =
    if ltb 0 cfg.bucket_seconds && ltb 1 (cfg.flush_seconds / cfg.bucket_seconds)
    then cfg.flush_seconds / cfg.bucket_seconds
    else 1

-- staleBucketFields
unfoldable pub stale_bucket_fields : HotKeyConfig → ℕ → List Bytes
unfolding countdown slack
stale_bucket_fields cfg bucket =
    if ltb bucket cfg.bucket_count
    then []
    else let newest = bucket - cfg.bucket_count in
      let oldest = newest - slack cfg in
      map (λ b. format_int (pos b)) (countdown newest (newest - oldest + 1))

-- int64 addition
pub wrap64 : ℤ → ℤ
wrap64 (pos n) = to_int64 (n % two_64)
wrap64 (negsuc n) = to_int64 (two_64 - 1 - n % two_64)

unfoldable pub in_window : HotKeyConfig → ℕ → ℤ → Bool
in_window cfg bucket b = leb_ℤ (pos (bucket + 1 - cfg.bucket_count)) b && leb_ℤ b (pos bucket)

add_entry : HotKeyConfig → ℕ → Option ℤ → Option ℤ → ℤ → ℤ
unfolding wrap64 in_window
add_entry cfg bucket none count total = total
add_entry cfg bucket (some b) none total = total
add_entry cfg bucket (some b) (some n) total =
    if in_window cfg bucket b then wrap64 (total +ℤ n) else total

sum_from : HotKeyConfig → ℕ → List (Bytes × Bytes) → ℤ → ℤ
unfolding add_entry
sum_from cfg bucket [] total = total
sum_from cfg bucket ((field, value) ∷ h) total =
    sum_from cfg bucket h (add_entry cfg bucket (parse_int field) (parse_int value) total)

-- sumBucketsInWindow
unfoldable pub sum_buckets_in_window : HotKeyConfig → List (Bytes × Bytes) → ℕ → ℤ
unfolding sum_from
sum_buckets_in_window cfg values bucket = sum_from cfg bucket values (pos 0)

unfoldable pub calc_level : HotKeyConfig → ℤ → Level
calc_level cfg total =
    if leb_ℤ cfg.level_high total
    then high
    else if leb_ℤ cfg.level_medium total
    then medium
    else if leb_ℤ cfg.level_low total
    then low
    else cold

unfoldable pub ttl_for_level : HotKeyConfig → ℤ → Level → ℤ
ttl_for_level cfg base high = base +ℤ cfg.extend_high
ttl_for_level cfg base medium = base +ℤ cfg.extend_medium
ttl_for_level cfg base low = base +ℤ cfg.extend_low
ttl_for_level cfg base cold = base

level_of_number : Option ℤ → Level
level_of_number none = medium
level_of_number (some (pos n)) =
    if n == 1 then low else if n == 2 then medium else if n == 3 then high else medium
level_of_number (some (negsuc n)) = medium

-- parseMarkLevel
unfoldable pub parse_mark_level : Bytes → Level
unfolding level_of_number
parse_mark_level val = level_of_number (parse_int val)

-- strconv.Itoa of a level
unfoldable pub mark_of : Level → Bytes
mark_of cold = codes "0"
mark_of low = codes "1"
mark_of medium = codes "2"
mark_of high = codes "3"

-- Writes a level that was read from Redis into the local ones, if there is room.
unfoldable pub remember : ℕ → Bytes → Level → Levels → Levels
remember max_keys k l levels = if ltb (length levels) max_keys then put k l levels else levels

read_mark : ℕ → Bytes → Option Bytes → Levels → Level × Levels
read_mark max_keys k none levels = (cold, levels)
read_mark max_keys k (some val) levels =
    (parse_mark_level val, remember max_keys k (parse_mark_level val) levels)

level_or : ℕ → Bool → (Bytes → Option Bytes) → Bytes → Option Level → Levels → Level × Levels
unfolding read_mark
level_or max_keys fails marks k (some l) levels = (l, levels)
level_or max_keys fails marks k none levels =
    if fails then (cold, levels) else read_mark max_keys k (marks k) levels

-- getLevel; `marks` are the marks that Redis holds.
unfoldable pub get_level : ℕ → Bool → (Bytes → Option Bytes) → Bytes → Levels → Level × Levels
unfolding level_or
get_level max_keys fails marks k levels = level_or max_keys fails marks k (find levels k) levels

-- TTLForPublic
unfoldable pub ttl_for_public :
    HotKeyConfig → ℕ → Bool → (Bytes → Option Bytes) → ℤ → Bytes → Levels → ℤ × Levels
unfolding get_level
ttl_for_public cfg max_keys fails marks base k levels =
    let (l, levels') = get_level max_keys fails marks k levels in
    (ttl_for_level cfg base l, levels')

-- The first pass of TTLForPublicBatch: the local levels.
unfoldable pub local_levels : List Bytes → Levels → List (Bytes × Option Level)
local_levels [] levels = []
local_levels (k ∷ ks) levels = (k, find levels k) ∷ local_levels ks levels

local_ttl : HotKeyConfig → ℤ → Option Level → ℤ
local_ttl cfg base none = base
local_ttl cfg base (some l) = ttl_for_level cfg base l

unfoldable pub local_ttls : HotKeyConfig → ℤ → List (Bytes × Option Level) → List ℤ
unfolding local_ttl
local_ttls cfg base [] = []
local_ttls cfg base ((k, o) ∷ xs) = local_ttl cfg base o ∷ local_ttls cfg base xs

mark_ttl : HotKeyConfig → ℕ → ℤ → Bytes → Option Bytes → Levels → ℤ × Levels
mark_ttl cfg max_keys base k none levels = (base, levels)
mark_ttl cfg max_keys base k (some val) levels = (
  ttl_for_level cfg base (parse_mark_level val),
  remember max_keys k (parse_mark_level val) levels,
)

-- The second pass: the marks of the keys that have no local level.
unfoldable pub mark_ttls :
    HotKeyConfig
    → ℕ
    → (Bytes → Option Bytes)
    → ℤ
    → List (Bytes × Option Level)
    → Levels
    → List ℤ × Levels
unfolding mark_ttl
mark_ttls cfg max_keys marks base [] levels = ([], levels)
mark_ttls cfg max_keys marks base ((k, some l) ∷ xs) levels =
    let (ttls, levels') = mark_ttls cfg max_keys marks base xs levels in
    (ttl_for_level cfg base l ∷ ttls, levels')
mark_ttls cfg max_keys marks base ((k, none) ∷ xs) levels =
    let (ttl, levels') = mark_ttl cfg max_keys base k (marks k) levels in
    let (ttls, levels'') = mark_ttls cfg max_keys marks base xs levels' in (ttl ∷ ttls, levels'')

-- TTLForPublicBatch; `fails` is the failure of the MGET, which is not sent for no keys.
unfoldable pub ttl_for_public_batch :
    HotKeyConfig → ℕ → Bool → (Bytes → Option Bytes) → ℤ → List Bytes → Levels → List ℤ × Levels
unfolding local_levels local_ttls mark_ttls
ttl_for_public_batch cfg max_keys fails marks base ks levels =
    let xs = local_levels ks levels in
    if fails then (local_ttls cfg base xs, levels) else mark_ttls cfg max_keys marks base xs levels
