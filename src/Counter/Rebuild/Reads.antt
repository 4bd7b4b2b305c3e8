-- ===== src/Counter/Rebuild/Reads.antt =====
-- What GetCounts of sds_read.go answers for an entity whose snapshot has to be rebuilt.
use zhiguang_go.Base.{
  ℕ, zero, suc, ◌+◌, ◌*◌, ◌≤◌, ◌<◌, ◌≡◌, refl, sym, ap, ◌∙◌, subst, Bool, true, false, not, ◌&&◌,
  Option, none, some, List, [], ◌∷◌, map, arith, ◌==◌, if◌then◌else◌, length, All, Bytes, bytes_eq,
}
use mathlib.Core.Path.{ap₂}
use mathlib.Core.List.{Perm}
use zhiguang_go.Base.Int.{pos}
use zhiguang_go.Base.Decimal.{format_int}
use zhiguang_go.Counter.Model.{chunk_size, index_to_name, schema_len}
use zhiguang_go.Counter.Toggle.{Redis, is_set}
use zhiguang_go.Counter.Backoff.{Repair, in_backoff, allowed_by_rate_limiter}
use zhiguang_go.Counter.Rebuild.{
  bit_count, Page, Counts, field, set_fields, value_of, or_zero, parse_hash_values,
  build_snapshot_from_bitmap, snapshot_from, add_count, Entity, Faults, Config, rebuild_sds,
  after_limiter, under_lock, store_snapshot, get_counts, all_nil, after_rebuild, answered,
}
use zhiguang_go.Counter.Rebuild.Shards.{
  bit_count-le, listed, IsServed, shards, present, AreKeys, bit_count_shards-counts,
}
use zhiguang_go.Counter.Rebuild.Decoded.{to_int32_small, parse_int32-format_int}

-- The count of a metric.
abbrev pub users : Redis → Bytes → Bytes → ℕ → Bytes → ℕ
users r entity_type entity_id n metric =
    bit_count (n * chunk_size) (λ u. is_set r metric u entity_type entity_id)

-- For each metric of the schema, SCAN lists once each of the shards 0 to n - 1 that is a key of Redis.
abbrev pub IsScanned : (Bytes → Bool) → (ℕ → List Page) → Bytes → Bytes → ℕ → Type 0
IsScanned exists scans entity_type entity_id n =
    (i : ℕ)
    → i < schema_len
    → All IsServed (scans i)
      × Perm (listed (scans i)) (present exists (shards (index_to_name i) entity_type entity_id n))

-- A metric of the schema.
abbrev pub IsMetric : Bytes → Type 0
IsMetric m = (i : ℕ) × (i < schema_len) × (m ≡ index_to_name i)

module _ (r : Redis) (exists : Bytes → Bool) (keyed : AreKeys exists r)
    (entity_type entity_id : Bytes) (n : ℕ) (scans : ℕ → List Page)
    (scanned : IsScanned exists scans entity_type entity_id n) (few : n < 32_768) where
  abbrev pub counts_from : ℕ → ℕ → Counts
  counts_from i zero = []
  counts_from i (suc k) =
      (index_to_name i, pos (users r entity_type entity_id n (index_to_name i)))
      ∷ counts_from (i + 1) k

  users-lt : (metric : Bytes) → users r entity_type entity_id n metric < 2_147_483_648
  users-lt metric =
      omega (arith, bit_count-le (n * chunk_size) (λ u. is_set r metric u entity_type entity_id))

  snapshot_from-counts :
      (i k : ℕ) → i + k ≤ schema_len → snapshot_from r.bits scans i k ≡ some (counts_from i k)
  unfolding snapshot_from add_count
  snapshot_from-counts i zero h = refl
  snapshot_from-counts i (suc k) h =
      let here = scanned i (omega arith) in
      rw
        (
          snapshot_from-counts (i + 1) k (omega arith),
          bit_count_shards-counts r exists (index_to_name i) entity_type entity_id n (scans i) keyed
              here.0 here.1,
          to_int32_small _ (users-lt (index_to_name i)),
        )
        refl

  abbrev pub exact_counts : Counts
  exact_counts = counts_from 0 5

  snapshot-exact : build_snapshot_from_bitmap r.bits scans ≡ some exact_counts
  unfolding build_snapshot_from_bitmap
  snapshot-exact = snapshot_from-counts 0 5 (omega arith)

  field-exact :
      (i : ℕ)
      → i < schema_len
      → field (set_fields exact_counts []) (index_to_name i)
        ≡ some (format_int (pos (users r entity_type entity_id n (index_to_name i))))
  unfolding field set_fields index_to_name bytes_eq
  field-exact zero h = refl
  field-exact (suc zero) h = refl
  field-exact (suc (suc zero)) h = refl
  field-exact (suc (suc (suc zero))) h = refl
  field-exact (suc (suc (suc (suc zero)))) h = refl
  field-exact (suc (suc (suc (suc (suc i))))) h = absurd (omega arith)

  value-exact :
      (m : Bytes)
      → IsMetric m
      → value_of (field (set_fields exact_counts []) m) ≡ pos (users r entity_type entity_id n m)
  unfolding value_of or_zero
  value-exact m (i, l, e) =
      subst
        (λ k.
          value_of (field (set_fields exact_counts []) k) ≡ pos (users r entity_type entity_id n k))
        (sym e)
        (ap value_of (field-exact i l)
          ∙ ap or_zero (parse_int32-format_int _ (users-lt (index_to_name i))))

  parse_hash_values-exact :
      (metrics : List Bytes)
      → All IsMetric metrics
      → parse_hash_values metrics (set_fields exact_counts [])
        ≡ map (λ m. (m, pos (users r entity_type entity_id n m))) metrics
  unfolding parse_hash_values
  parse_hash_values-exact [] h = refl
  parse_hash_values-exact (m ∷ metrics) (h, hs) =
      rw (value-exact m h, parse_hash_values-exact metrics hs) refl

-- The snapshot is missing and may be rebuilt, and no call fails that the answer needs.
pub record MayRebuild (cfg : Config) (f : Faults) (now : ℕ) (e : Entity) : Type 0 where
  pub missing : e.sds ≡ []
  pub read : f.hmget ≡ false
  pub read_again : f.hmget_again ≡ false
  pub not_backing_off : in_backoff f.backoff now e.repair ≡ false
  pub allowed : (allowed_by_rate_limiter cfg.rate f.limiter now e.repair).0 ≡ true
  pub locked : f.locked ≡ true
  pub stored : f.hset ≡ false

all_nil-nil : (metrics : List Bytes) → all_nil metrics [] ≡ true
unfolding all_nil field
all_nil-nil [] = refl
all_nil-nil (m ∷ metrics) = all_nil-nil metrics

second_of :
    (a b : Bool) (x y z : Option Counts × Entity)
    → a ≡ false
    → b ≡ true
    → (if a then x else if b then y else z).0 ≡ y.0
second_of a b x y z h k = rw (h, k) refl

-- An answer with these counts, which the snapshot now holds.
abbrev HasStored : Counts → Option Counts × Entity → Type 0
HasStored counts x = (x.0 ≡ some counts) × (x.1.sds ≡ set_fields counts [])

module _ (cfg : Config) (f : Faults) (scans : ℕ → List Page) (now : ℕ) (counts : Counts) where
  store_snapshot-HasStored :
      (e : Entity) (o : Option Counts)
      → o ≡ some counts
      → e.sds ≡ []
      → f.hset ≡ false
      → HasStored counts (store_snapshot cfg f now e o)
  unfolding store_snapshot
  store_snapshot-HasStored e none built none_yet stored = absurd (cc)
  store_snapshot-HasStored e (some c) built none_yet stored =
      let same : c ≡ counts = cc in rw (stored) (ap some same, ap₂ set_fields same none_yet)

  under_lock-HasStored :
      (e : Entity)
      → build_snapshot_from_bitmap e.redis.bits scans ≡ some counts
      → e.sds ≡ []
      → f.hset ≡ false
      → HasStored counts (under_lock cfg f scans now e)
  unfolding under_lock
  under_lock-HasStored e built none_yet stored =
      let no_fields : (not f.hgetall && not (length e.sds == 0)) ≡ false =
        ground (arith, ap length none_yet) in
      rw (no_fields) (store_snapshot-HasStored e _ built none_yet stored)

  after_limiter-HasStored :
      (e : Entity) (x : Bool × Repair)
      → x.0 ≡ true
      → build_snapshot_from_bitmap e.redis.bits scans ≡ some counts
      → e.sds ≡ []
      → f.hset ≡ false
      → f.locked ≡ true
      → HasStored counts (after_limiter cfg f scans now e x)
  unfolding after_limiter
  after_limiter-HasStored e (false, r) a built none_yet stored locked = absurd (cc)
  after_limiter-HasStored e (true, r) a built none_yet stored locked =
      rw (locked) (under_lock-HasStored (record e { repair = r }) built none_yet stored)

  rebuild_sds-HasStored :
      (e : Entity)
      → MayRebuild cfg f now e
      → build_snapshot_from_bitmap e.redis.bits scans ≡ some counts
      → HasStored counts (rebuild_sds cfg f scans now e)
  unfolding rebuild_sds
  rebuild_sds-HasStored e h built =
      rw (h.not_backing_off)
        (after_limiter-HasStored e _ h.allowed built h.missing h.stored h.locked)

  answered-parsed :
      (metrics : List Bytes) (x : Option Counts × Entity)
      → f.hmget_again ≡ false
      → HasStored counts x
      → (answered (after_rebuild f metrics x)).0
        ≡ some (parse_hash_values metrics (set_fields counts []))
  unfolding answered after_rebuild
  answered-parsed metrics (none, e) again h = absurd (cc (h.0))
  answered-parsed metrics (some c, e) again h =
      rw (again) (ap (λ s. some (parse_hash_values metrics s)) h.1)

  get_counts-parsed :
      (metrics : List Bytes) (e : Entity)
      → MayRebuild cfg f now e
      → build_snapshot_from_bitmap e.redis.bits scans ≡ some counts
      → (get_counts cfg f scans now metrics e).0
        ≡ some (parse_hash_values metrics (set_fields counts []))
  unfolding get_counts
  get_counts-parsed [] e h built = unfold parse_hash_values in refl
  get_counts-parsed (m ∷ metrics) e h built =
      let nothing : all_nil (m ∷ metrics) e.sds ≡ true =
        ap (all_nil (m ∷ metrics)) h.missing ∙ all_nil-nil (m ∷ metrics) in
      second_of f.hmget _ _ _ _ h.read nothing
      ∙ answered-parsed (m ∷ metrics) (rebuild_sds cfg f scans now e) h.read_again
          (rebuild_sds-HasStored e h built)

-- For an entity without a snapshot, which is not backing off, passes the rate limiter and gets the
-- lock, GetCounts answers for each metric of the schema with the number of users below n * 65536 whose
-- bit is set, where the reads that the answer needs and the write of the snapshot do not fail. Of each
-- metric SCAN lists, in any order and pages, each of the shards 0 to n - 1 that is a key of Redis once
-- and no other key. A key that Redis does not have has no bit set, so that a metric without shards
-- counts 0, and n is below 32768, so that no count leaves int32.
pub get_counts-users :
    (cfg : Config) (f : Faults) (scans : ℕ → List Page) (now n : ℕ) (entity_type entity_id : Bytes)
    (metrics : List Bytes) (e : Entity) (exists : Bytes → Bool)
    → MayRebuild cfg f now e
    → All IsMetric metrics
    → AreKeys exists e.redis
    → IsScanned exists scans entity_type entity_id n
    → n < 32_768
    → (get_counts cfg f scans now metrics e).0
      ≡ some (map (λ m. (m, pos (users e.redis entity_type entity_id n m))) metrics)
get_counts-users cfg f scans now n t i metrics e exists h known keyed scanned few =
    get_counts-parsed cfg f scans now (exact_counts e.redis exists keyed t i n scans scanned few)
      metrics e h (snapshot-exact e.redis exists keyed t i n scans scanned few)
    ∙ ap some (parse_hash_values-exact e.redis exists keyed t i n scans scanned few metrics known)
