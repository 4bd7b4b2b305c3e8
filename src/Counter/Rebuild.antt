-- ===== src/Counter/Rebuild.antt =====
-- internal/counter/sds_rebuild.go and the counts of sds_read.go: an entity's snapshot is read, and rebuilt
-- from the bitmaps where it is missing. What SCAN answers, the lock and failing calls are inputs; a
-- failing BITCOUNT shows in the execution of its pipeline.
pub mod Shards
pub mod Decoded
pub mod Reads
use zhiguang_go.Base.{
  ℕ, zero, suc, ◌+◌, ◌-◌, ◌*◌, ◌%◌, Bool, true, false, not, ◌&&◌, ◌||◌, Option, none, some, List,
  [], ◌∷◌, map, ltb, ◌==◌, if◌then◌else◌, length, Bytes, bytes_eq,
}
use zhiguang_go.Base.Int.{ℤ, pos, negsuc}
use zhiguang_go.Base.Decimal.{format_int}
use zhiguang_go.Counter.Model.{chunk_size, index_to_name, schema_len}
use zhiguang_go.Counter.Toggle.{Redis}
use zhiguang_go.Counter.Backoff.{
  Repair, BackoffConfig, RateConfig, in_backoff, allowed_by_rate_limiter, escalate_backoff,
  reset_backoff,
}

-- int32(n)
pub to_int32 : ℕ → ℤ
to_int32 n =
    let m = n % 4_294_967_296 in if ltb m 2_147_483_648 then pos m else negsuc (4_294_967_295 - m)

-- The loop of parseInt32, on the 32 bits of its number.
unfoldable pub parse_bits : ℕ → Bytes → Option ℕ
parse_bits n [] = some n
parse_bits n (c ∷ s) =
    let rest = parse_bits ((n * 10 + (c - b'0')) % 4_294_967_296) s in
    if ltb c b'0' || ltb b'9' c then none else rest

signed : Option ℕ → Option ℤ
signed none = none
signed (some n) = some (to_int32 n)

unfoldable pub parse_int32 : Bytes → Option ℤ
unfolding signed parse_bits to_int32
parse_int32 s = signed (parse_bits 0 s)

-- A hash of Redis, and a map from metrics to counts.
abbrev pub Hash : Type 0
Hash = List (Bytes × Bytes)

abbrev pub Counts : Type 0
Counts = List (Bytes × ℤ)

unfoldable pub field : Hash → Bytes → Option Bytes
field [] k = none
field ((j, v) ∷ h) k = if bytes_eq j k then some v else field h k

unfoldable pub set_field : Bytes → Bytes → Hash → Hash
set_field k v [] = (k, v) ∷ []
set_field k v ((j, w) ∷ h) = if bytes_eq j k then (j, v) ∷ h else (j, w) ∷ set_field k v h

-- HSET of a snapshot
unfoldable pub set_fields : Counts → Hash → Hash
unfolding set_field
set_fields [] h = h
set_fields ((k, n) ∷ counts) h = set_fields counts (set_field k (format_int n) h)

or_zero : Option ℤ → ℤ
or_zero none = pos 0
or_zero (some n) = n

value_of : Option Bytes → ℤ
unfolding or_zero
value_of none = pos 0
value_of (some s) = or_zero (parse_int32 s)

-- parseHashValues, of the fields that HMGET reads
unfoldable pub parse_hash_values : List Bytes → Hash → Counts
unfolding value_of
parse_hash_values [] h = []
parse_hash_values (m ∷ metrics) h = (m, value_of (field h m)) ∷ parse_hash_values metrics h

unfoldable pub empty_counts : List Bytes → Counts
empty_counts [] = []
empty_counts (m ∷ metrics) = (m, pos 0) ∷ empty_counts metrics

-- BITCOUNT of a shard: the bits below `n`
unfoldable pub bit_count : ℕ → (ℕ → Bool) → ℕ
bit_count zero bits = 0
bit_count (suc n) bits = (if bits n then 1 else 0) + bit_count n bits

-- An answer of SCAN: an error, or keys, whose counting may fail.
pub data Page : Type 0 where
  scan_fails : Page
  keys : List Bytes → Bool → Page

unfoldable pub sum_shards : (Bytes → ℕ → Bool) → List Bytes → ℕ
sum_shards bits [] = 0
sum_shards bits (k ∷ ks) = bit_count chunk_size (bits k) + sum_shards bits ks

-- bitCountShards, up to the answer whose cursor is 0; `none` is an error.
unfoldable pub bit_count_shards : (Bytes → ℕ → Bool) → List Page → ℕ → Option ℕ
unfolding sum_shards
bit_count_shards bits [] total = some total
bit_count_shards bits (scan_fails ∷ pages) total = none
bit_count_shards bits (keys ks fails ∷ pages) total =
    let rest = bit_count_shards bits pages (total + sum_shards bits ks) in
    if not (length ks == 0) && fails then none else rest

add_count : Bytes → Option ℕ → Option Counts → Option Counts
add_count metric none rest = none
add_count metric (some total) none = none
add_count metric (some total) (some counts) = some ((metric, to_int32 total) ∷ counts)

snapshot_from : (Bytes → ℕ → Bool) → (ℕ → List Page) → ℕ → ℕ → Option Counts
unfolding add_count to_int32
snapshot_from bits scans i zero = some []
snapshot_from bits scans i (suc n) =
    add_count (index_to_name i) (bit_count_shards bits (scans i) 0)
      (snapshot_from bits scans (i + 1) n)

-- buildSnapshotFromBitmap; `scans i` is what SCAN answers for the metric of the slot i.
unfoldable pub build_snapshot_from_bitmap : (Bytes → ℕ → Bool) → (ℕ → List Page) → Option Counts
unfolding snapshot_from bit_count_shards index_to_name
build_snapshot_from_bitmap bits scans = snapshot_from bits scans 0 schema_len

-- What Redis holds for the entity.
pub record Entity : Type 0 where
  pub redis : Redis
  pub sds : Hash
  pub repair : Repair

-- Which calls fail; `locked` says that the lock was acquired.
pub record Faults : Type 0 where
  pub hmget : Bool
  pub hmget_again : Bool
  pub backoff : Bool
  pub limiter : Bool
  pub exponent : Bool
  pub escalate : Bool
  pub locked : Bool
  pub hgetall : Bool
  pub hset : Bool
  pub reset : Bool

pub record Config : Type 0 where
  pub backoff : BackoffConfig
  pub rate : Option RateConfig

escalated : Config → Faults → ℕ → Entity → Entity
escalated cfg f now e = record e {
  repair = escalate_backoff cfg.backoff f.exponent f.escalate now e.repair;
}

-- The counts of the snapshot that another has rebuilt.
pub parse_fields : Hash → Counts
parse_fields [] = []
parse_fields ((k, v) ∷ h) =
    let rest = parse_fields h in elim (parse_int32 v) [ none ↦ rest | some n ↦ (k, n) ∷ rest ]

store_snapshot : Config → Faults → ℕ → Entity → Option Counts → Option Counts × Entity
unfolding escalated
store_snapshot cfg f now e none = (none, escalated cfg f now e)
store_snapshot cfg f now e (some counts) = if f.hset then (none, escalated cfg f now e) else (
  some counts,
  record e { sds = set_fields counts e.sds; repair = reset_backoff f.reset e.repair },
)

under_lock : Config → Faults → (ℕ → List Page) → ℕ → Entity → Option Counts × Entity
unfolding store_snapshot parse_fields
under_lock cfg f scans now e =
    if not f.hgetall && not (length e.sds == 0)
    then (some (parse_fields e.sds), record e { repair = reset_backoff f.reset e.repair })
    else store_snapshot cfg f now e (build_snapshot_from_bitmap e.redis.bits scans)

after_limiter :
    Config → Faults → (ℕ → List Page) → ℕ → Entity → Bool × Repair → Option Counts × Entity
unfolding under_lock escalated
after_limiter cfg f scans now e (true, r) =
    let e' = record e { repair = r } in
    if f.locked then under_lock cfg f scans now e' else (none, escalated cfg f now e')
after_limiter cfg f scans now e (false, r) = (none, escalated cfg f now (record e { repair = r }))

-- rebuildSds
unfoldable pub rebuild_sds : Config → Faults → (ℕ → List Page) → ℕ → Entity → Option Counts × Entity
unfolding after_limiter
rebuild_sds cfg f scans now e =
    if in_backoff f.backoff now e.repair
    then (none, e)
    else after_limiter cfg f scans now e (allowed_by_rate_limiter cfg.rate f.limiter now e.repair)

all_nil : List Bytes → Hash → Bool
all_nil [] h = true
all_nil (m ∷ metrics) h = elim (field h m) [ none ↦ all_nil metrics h | some v ↦ false ]

after_rebuild : Faults → List Bytes → Option Counts × Entity → Counts × Entity
after_rebuild f metrics (none, e) = (empty_counts metrics, e)
after_rebuild f metrics (some counts, e) =
    (if f.hmget_again then empty_counts metrics else parse_hash_values metrics e.sds, e)

answered : Counts × Entity → Option Counts × Entity
answered (counts, e) = (some counts, e)

-- GetCounts; `none` is an error
unfoldable pub get_counts :
    Config → Faults → (ℕ → List Page) → ℕ → List Bytes → Entity → Option Counts × Entity
unfolding all_nil after_rebuild answered
get_counts cfg f scans now [] e = (some [], e)
get_counts cfg f scans now (m ∷ metrics) e =
    if f.hmget
    then (none, e)
    else if all_nil (m ∷ metrics) e.sds
    then answered (after_rebuild f (m ∷ metrics) (rebuild_sds cfg f scans now e))
    else (some (parse_hash_values (m ∷ metrics) e.sds), e)

-- GetCountsBatch, of the snapshots of the entities
unfoldable pub get_counts_batch :
    Bool → List Bytes → List (Bytes × Hash) → Option (List (Bytes × Counts))
get_counts_batch fails metrics [] = some []
get_counts_batch fails metrics (e ∷ es) =
    if fails then none else some (map (λ x. (x.0, parse_hash_values metrics x.1)) (e ∷ es))
