-- ===== src/Counter/Flush.antt =====
-- internal/counter/consumer.go: the flush of a batch, from the keys of the script to the retries.
pub mod Keys
pub mod Count
pub mod Lost
pub mod Order
use zhiguang_go.Base.{
  ℕ, zero, suc, ◌+◌, Bool, true, false, ◌&&◌, ◌||◌, Option, none, some, List, [], ◌∷◌, ◌++◌, map,
  ltb, ◌==◌, if◌then◌else◌, length, Bytes, bytes_eq, cut,
}
use zhiguang_go.Base.Int.{ℤ, pos, negsuc}
use zhiguang_go.Counter.Model.{
  dirty_member, parse_dirty_member, sds_key, rebuild_marker_key, index_to_name,
}
use zhiguang_go.Counter.Watermark.{Store, Event, Reply, ok, gap, no_key, apply_partition_batch}
use zhiguang_go.Counter.Batch.{
  BatchEvent, Batch, Consumer, size, store, restore, add_entity, new_batch,
}

-- strings.Compare, as sort.Strings uses it
unfoldable pub bytes_leb : Bytes → Bytes → Bool
bytes_leb [] ys = true
bytes_leb (x ∷ xs) [] = false
bytes_leb (x ∷ xs) (y ∷ ys) = ltb x y || ((x == y) && bytes_leb xs ys)

insert_sorted : Bytes → List Bytes → List Bytes
insert_sorted m [] = m ∷ []
insert_sorted m (x ∷ xs) = if bytes_leb m x then m ∷ x ∷ xs else x ∷ insert_sorted m xs

-- sort.Strings, up to the choice of the algorithm
unfoldable pub sort_strings : List Bytes → List Bytes
unfolding insert_sorted bytes_leb
sort_strings [] = []
sort_strings (m ∷ ms) = insert_sorted m (sort_strings ms)

add_key :
    Bytes
    → ℕ
    → Option (Bytes × Bytes)
    → List Bytes × List (Bytes × ℕ)
    → List Bytes × List (Bytes × ℕ)
add_key member i none rest = rest
add_key member i (some (entity_type, entity_id)) rest =
    (sds_key entity_type entity_id ∷ rest.0, (member, i) ∷ rest.1)

-- The loop of cntKeys from the position `i` on. A member that cannot be read has no key, but counts.
unfoldable pub cnt_keys_from : ℕ → List Bytes → List Bytes × List (Bytes × ℕ)
unfolding add_key
cnt_keys_from i [] = ([], [])
cnt_keys_from i (m ∷ ms) = add_key m i (parse_dirty_member m) (cnt_keys_from (i + 1) ms)

-- cntKeys
unfoldable pub cnt_keys : Batch → List Bytes × List (Bytes × ℕ)
unfolding cnt_keys_from sort_strings
cnt_keys b = cnt_keys_from 0 (sort_strings b.entities)

-- keyIndexes[member], 0 where the map has no such key
unfoldable pub index_of : Bytes → List (Bytes × ℕ) → ℕ
index_of m [] = 0
index_of m ((k, i) ∷ r) = if bytes_eq m k then i else index_of m r

marker_of_parts : Option (Bytes × Bytes) → Bytes
marker_of_parts none = []
marker_of_parts (some (entity_type, entity_id)) = rebuild_marker_key entity_type entity_id

-- k[4:], cut at its first colon
unfoldable pub marker_of_key : Bytes → Bytes
unfolding marker_of_parts
marker_of_key (c ∷ n ∷ t ∷ colon ∷ meta) = marker_of_parts (cut b':' meta)
marker_of_key k = []

unfoldable pub metric_at : ℤ → Bytes
metric_at (pos i) = index_to_name i
metric_at (negsuc i) = []

unfoldable pub script_event : List (Bytes × ℕ) → BatchEvent → Event
unfolding index_of metric_at
script_event indexes e = record {
  offset = e.offset;
  key_index = index_of (dirty_member e.entity_type e.entity_id) indexes;
  field = metric_at e.index;
  delta = e.delta;
}

pub data FlushError : Type 0 where
  no_scope redis_failed script_failed commit_failed : FlushError

pub data Result : Type 0 where
  done : Result
  failed : FlushError → Result

-- What the calls of a flush run into: no group id or topic, a Redis error, a Kafka error.
pub record FlushFaults : Type 0 where
  pub scope_missing : Bool
  pub redis_fails : Bool
  pub commit_fails : Bool

settle : ℕ → Consumer → Reply × Store → Result × Consumer
settle p c (ok w, r) = (done, restore c p r)
settle p c (gap, r) = (failed script_failed, restore c p r)
settle p c (no_key, r) = (failed script_failed, restore c p r)

pub run_batch : ℕ → Batch → Consumer → Result × Consumer
run_batch p b c =
    let (keys, indexes) = cnt_keys b in
    settle p c (
      apply_partition_batch (keys ++ map marker_of_key keys) (length keys)
        (map (script_event indexes) b.events) (store c p))

apply_to : FlushFaults → Option ℕ → Batch → Consumer → Result × Consumer
apply_to f none b c = (failed no_scope, c)
apply_to f (some p) b c =
    if f.scope_missing
    then (failed no_scope, c)
    else if f.redis_fails
    then (failed redis_failed, c)
    else run_batch p b c

-- applyBatch
unfoldable pub apply_batch : FlushFaults → Batch → Consumer → Result × Consumer
unfolding apply_to run_batch settle
apply_batch f b c = if size b == 0 then (done, c) else apply_to f b.partition b c

pub commit_after : FlushFaults → Batch → Result × Consumer → Result × Consumer
commit_after f b (failed e, c) = (failed e, c)
commit_after f b (done, c) =
    if f.commit_fails
    then (failed commit_failed, c)
    else (done, record c { committed = c.committed ++ b.messages })

-- flushBatch
unfoldable pub flush_batch : FlushFaults → Batch → Consumer → Result × Consumer
unfolding apply_batch commit_after
flush_batch f b c = if size b == 0 then (done, c) else commit_after f b (apply_batch f b c)

-- What an attempt runs into, and whether the wait after it is cut short.
pub record Attempt : Type 0 where
  pub faults : FlushFaults
  pub cancelled : Bool

add_entities : List Bytes → List Bytes → List Bytes
add_entities [] dirty = dirty
add_entities (m ∷ ms) dirty = add_entities ms (add_entity m dirty)

-- The retries are used up: the messages are recorded, and the entities are marked for the repair.
give_up : Bool → Bool → Batch → Consumer → Consumer
unfolding add_entities
give_up record_fails mark_fails b c = record c {
  recorded = if record_fails then c.recorded else c.recorded ++ b.messages;
  dirty = if mark_fails then c.dirty else add_entities b.entities c.dirty;
}

retry :
    ℕ
    → Bool
    → Bool
    → Bool
    → Batch
    → Result × Consumer
    → (Consumer → Batch × Consumer)
    → Batch × Consumer
retry n cancelled record_fails mark_fails b (done, c) next = (new_batch, c)
retry zero cancelled record_fails mark_fails b (failed e, c) next =
    (new_batch, give_up record_fails mark_fails b c)
retry (suc n) cancelled record_fails mark_fails b (failed e, c) next =
    if cancelled then (b, c) else next c

-- The attempts that are left, numbered from `i` on.
attempts : ℕ → ℕ → (ℕ → Attempt) → Bool → Bool → Batch → Consumer → Batch × Consumer
unfolding retry flush_batch give_up
attempts zero i at record_fails mark_fails b c = (new_batch, c)
attempts (suc n) i at record_fails mark_fails b c =
    retry n (at i).cancelled record_fails mark_fails b (flush_batch (at i).faults b c)
      (attempts n (i + 1) at record_fails mark_fails b)

-- flushAndReset
unfoldable pub flush_and_reset :
    ℕ → (ℕ → Attempt) → Bool → Bool → Batch → Consumer → Batch × Consumer
unfolding attempts
flush_and_reset max_attempts at record_fails mark_fails b c =
    if size b == 0 then (b, c) else attempts max_attempts 0 at record_fails mark_fails b c
