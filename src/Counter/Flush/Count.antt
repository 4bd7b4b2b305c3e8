-- ===== src/Counter/Flush/Count.antt =====
-- The flush of a well-formed batch counts each of its events once, at the hash of its entity, and
-- leaves alone the entities that are being repaired.
use zhiguang_go.Base.{
  ℕ, suc, ◌+◌, ◌<◌, ◌≡◌, refl, sym, ap, ◌∙◌, Bool, true, false, Option, some, List, [], ◌∷◌, ◌++◌,
  map, arith, ◌==◌, if◌then◌else◌, length, get_elem?, All, Bytes,
}
use zhiguang_go.Counter.Model.{dirty_member, sds_key, rebuild_marker_key}
use zhiguang_go.Counter.Watermark.{ok, apply_partition_batch, incr_clamped, at_most}
use zhiguang_go.Counter.Watermark.Refine.{
  Hash, count_event, count_events, Ascends, last_offset, apply_partition_batch-count,
}
use zhiguang_go.Counter.Batch.{BatchEvent, Batch, Consumer, size, store, restore, contains}
use zhiguang_go.Counter.Batch.Contiguity.{Runs, IsWellFormed}
use zhiguang_go.Counter.Flush.{
  cnt_keys, index_of, marker_of_key, metric_at, script_event, FlushFaults, done, settle, run_batch,
  apply_to, apply_batch, commit_after, flush_batch,
}
use zhiguang_go.Counter.Flush.Keys.{Readable, Placed, cnt_keys-Placed}

-- One event at the hash of its entity.
pub count_one : (Bytes → Bool) → BatchEvent → Hash → Hash
count_one marked e hash =
    if marked (rebuild_marker_key e.entity_type e.entity_id)
    then hash
    else incr_clamped hash (sds_key e.entity_type e.entity_id) (metric_at e.index) e.delta

pub count_batch : (Bytes → Bool) → List BatchEvent → Hash → Hash
count_batch marked [] hash = hash
count_batch marked (e ∷ es) hash = count_batch marked es (count_one marked e hash)

-- All events in order, each at the hash of its entity.
pub count_all : List BatchEvent → Hash → Hash
count_all [] hash = hash
count_all (e ∷ es) hash =
    count_all es (incr_clamped hash (sds_key e.entity_type e.entity_id) (metric_at e.index) e.delta)

-- No entity of the events is being rebuilt.
abbrev pub AreUnmarked : (Bytes → Bool) → List BatchEvent → Type 0
AreUnmarked marked es = All (λ e. marked (rebuild_marker_key e.entity_type e.entity_id) ≡ false) es

pub count_batch-unmarked :
    (marked : Bytes → Bool) (es : List BatchEvent) (hash : Hash)
    → AreUnmarked marked es
    → count_batch marked es hash ≡ count_all es hash
unfolding count_batch count_one count_all
count_batch-unmarked marked [] hash h = refl
count_batch-unmarked marked (e ∷ es) hash (h, hs) = rw (h) (count_batch-unmarked marked es _ hs)

module _ (keys : List Bytes) (indexes : List (Bytes × ℕ)) where
  abbrev IsPlaced : BatchEvent → Type 0
  IsPlaced e =
      Placed keys (index_of (dirty_member e.entity_type e.entity_id) indexes) e.entity_type
        e.entity_id

  count_event-placed :
      (marked : Bytes → Bool) (e : BatchEvent) (hash : Hash)
      → IsPlaced e
      → count_event marked
          (script_event indexes e)
          (get_elem? keys (script_event indexes e).key_index)
          (get_elem? (map marker_of_key keys) (script_event indexes e).key_index)
          hash
        ≡ count_one marked e hash
  unfolding script_event count_one count_event
  count_event-placed marked e hash p = rw (p.key, p.marker)

  count_events-placed :
      (marked : Bytes → Bool) (es : List BatchEvent) (hash : Hash)
      → All IsPlaced es
      → count_events keys (map marker_of_key keys) marked (map (script_event indexes) es) hash
        ≡ count_batch marked es hash
  unfolding count_batch count_events
  count_events-placed marked [] hash ps = refl
  count_events-placed marked (e ∷ es) hash ps =
      ap (count_events keys (map marker_of_key keys) marked (map (script_event indexes) es))
        (count_event-placed marked e hash ps.0)
      ∙ count_events-placed marked es (count_one marked e hash) ps.1

  named-placed :
      (es : List BatchEvent)
      → All IsPlaced es
      → All (λ e. e.key_index < length keys) (map (script_event indexes) es)
  unfolding script_event
  named-placed [] ps = tt
  named-placed (e ∷ es) ps = (ps.0.within, named-placed es ps.1)

  Runs-Ascends :
      (s t : ℕ) (w : Option ℕ) (es : List BatchEvent)
      → at_most s w ≡ false
      → Runs s es t
      → Ascends w (map (script_event indexes) es)
  unfolding script_event
  Runs-Ascends s t w [] h r = tt
  Runs-Ascends s t w (e ∷ es) h r =
      (rw r.0 h, Runs-Ascends (s + 1) t (some e.offset) es (ground arith) r.1)

  Runs-last_offset :
      (s t : ℕ) (w : Option ℕ) (e : BatchEvent) (es : List BatchEvent)
      → Runs s (e ∷ es) (t + 1)
      → last_offset w (map (script_event indexes) (e ∷ es)) ≡ some t
  unfolding script_event last_offset
  Runs-last_offset s t w e [] r = ap some (omega arith)
  Runs-last_offset s t w e (e' ∷ es) r = Runs-last_offset (s + 1) t (some e.offset) e' es r.1

  known-IsPlaced :
      (b : Batch) (es : List BatchEvent)
      → keys ≡ (cnt_keys b).0
      → indexes ≡ (cnt_keys b).1
      → All Readable b.entities
      → All (λ e. contains (dirty_member e.entity_type e.entity_id) b.entities ≡ true) es
      → All IsPlaced es
  known-IsPlaced b [] hk hi rs ks = tt
  known-IsPlaced b (e ∷ es) hk hi rs ks = (
    rw (hk, hi) (cnt_keys-Placed b e.entity_type e.entity_id rs ks.0),
    known-IsPlaced b es hk hi rs ks.1,
  )

length-map : (f : Bytes → Bytes) (xs : List Bytes) → length (map f xs) ≡ length xs
length-map f [] = refl
length-map f (x ∷ xs) = ap suc (length-map f xs)

-- The consumer after a flush of `b`, which is of the partition `p`.
unfoldable pub counted : ℕ → Batch → Consumer → Consumer
counted p b c = record c {
  watermark = λ q. if p == q then some b.end_offset else c.watermark q;
  hash = count_batch c.marked b.events c.hash;
  committed = c.committed ++ b.messages;
}

Runs-end :
    (indexes : List (Bytes × ℕ)) (s t : ℕ) (w : Option ℕ) (es : List BatchEvent)
    → 0 < length es
    → Runs s es (t + 1)
    → last_offset w (map (script_event indexes) es) ≡ some t
Runs-end indexes s t w [] h r = elim h [ ]
Runs-end indexes s t w (e ∷ es) h r = Runs-last_offset [] indexes s t w e es r

script-count :
    (p : ℕ) (b : Batch) (c : Consumer)
    → IsWellFormed b
    → 0 < size b
    → All Readable b.entities
    → at_most b.start_offset (c.watermark p) ≡ false
    → apply_partition_batch
        ((cnt_keys b).0 ++ map marker_of_key (cnt_keys b).0)
        (length (cnt_keys b).0)
        (map (script_event (cnt_keys b).1) b.events)
        (store c p)
      ≡ (
        ok (some b.end_offset),
        record {
          applied = some b.end_offset;
          hash = count_batch c.marked b.events c.hash;
          marked = c.marked;
        },
      )
script-count p b c v h rs fresh =
    let (keys, indexes) = cnt_keys b in
    let placed = known-IsPlaced keys indexes b b.events refl refl rs v.known in
    let last : last_offset (c.watermark p) (map (script_event indexes) b.events)
        ≡ some b.end_offset =
      Runs-end indexes b.start_offset b.end_offset (c.watermark p) b.events
        (omega (arith, v.counted)) (v.runs h) in
    apply_partition_batch-count keys (map marker_of_key keys) []
      (map (script_event indexes) b.events) (store c p)
      (record {
        paired = sym (length-map marker_of_key keys);
        named = named-placed keys indexes b.events placed;
      })
      tt
      (Runs-Ascends keys indexes b.start_offset (b.end_offset + 1) (c.watermark p) b.events fresh
        (v.runs h))
    ∙ rw (last, count_events-placed keys indexes c.marked b.events c.hash placed) refl

run_batch-count :
    (p : ℕ) (b : Batch) (c : Consumer)
    → IsWellFormed b
    → 0 < size b
    → All Readable b.entities
    → at_most b.start_offset (c.watermark p) ≡ false
    → run_batch p b c ≡ (
      done,
      restore c p (record {
        applied = some b.end_offset;
        hash = count_batch c.marked b.events c.hash;
        marked = c.marked;
      }),
    )
unfolding run_batch settle
run_batch-count p b c v h rs fresh = ap (settle p c) (script-count p b c v h rs fresh)

is_open : (b : Batch) → 0 < size b → (size b == 0) ≡ false
is_open b h = ground arith

apply_to-run_batch :
    (f : FlushFaults) (p : ℕ) (b : Batch) (c : Consumer)
    → f.scope_missing ≡ false
    → f.redis_fails ≡ false
    → apply_to f (some p) b c ≡ run_batch p b c
unfolding apply_to
apply_to-run_batch f p b c scoped reached = rw (scoped, reached)

pub commit_after_lem :
    (f : FlushFaults) (b : Batch) (c : Consumer)
    → f.commit_fails ≡ false
    → commit_after f b (done, c) ≡ (done, record c { committed = c.committed ++ b.messages })
unfolding commit_after
commit_after_lem f b c h = rw h

-- A flush of a batch that is not empty is the script, then the commit.
pub flush_batch-run_batch :
    (f : FlushFaults) (p : ℕ) (b : Batch) (c : Consumer)
    → f.scope_missing ≡ false
    → f.redis_fails ≡ false
    → 0 < size b
    → b.partition ≡ some p
    → flush_batch f b c ≡ commit_after f b (run_batch p b c)
unfolding flush_batch apply_batch
flush_batch-run_batch f p b c scoped reached h hp = rw (is_open b h) (
    ap (λ (o : Option ℕ). commit_after f b (apply_to f o b c)) hp
    ∙ ap (commit_after f b) (apply_to-run_batch f p b c scoped reached))

-- A flush with no failure of a well-formed batch above the watermark, which is not empty and of which
-- the entities can be written as members of the dirty set and read back, goes through its events once
-- and in order: an event is added at the hash of its entity, but where the rebuild marker of that
-- entity is set it is left out. The flush sets the watermark to the end of the batch and commits all
-- its messages, those of the events left out too.
pub flush_batch-count :
    (f : FlushFaults) (p : ℕ) (b : Batch) (c : Consumer)
    → f.scope_missing ≡ false
    → f.redis_fails ≡ false
    → f.commit_fails ≡ false
    → IsWellFormed b
    → 0 < size b
    → b.partition ≡ some p
    → All Readable b.entities
    → at_most b.start_offset (c.watermark p) ≡ false
    → flush_batch f b c ≡ (done, counted p b c)
unfolding counted
flush_batch-count f p b c scoped reached commits v h hp rs fresh =
    flush_batch-run_batch f p b c scoped reached h hp
    ∙ ap (commit_after f b) (run_batch-count p b c v h rs fresh)
    ∙ commit_after_lem f b _ commits
