-- ===== src/Counter/Batch.antt =====
-- internal/counter/consumer.go: the batches of the aggregation consumer, from a Kafka message to the
-- flush of the batch that it fills. Messages are offered one at a time, as consumeLoop does; the
-- JSON decoder is a parameter, and a failing call of Redis or Kafka is an input.
pub mod Contiguity
pub mod Handled
use zhiguang_go.Base.{
  ℕ, ◌+◌, Bool, false, not, ◌&&◌, ◌||◌, Option, none, some, List, [], ◌∷◌, ◌++◌, ltb, leb, ◌==◌,
  if◌then◌else◌, length, Bytes, bytes_eq,
}
use zhiguang_go.Base.Int.{ℤ, pos, ltb_ℤ, leb_ℤ, eq_ℤ}
use zhiguang_go.Counter.Model.{CounterEvent, dirty_member, schema_len}
use zhiguang_go.Counter.Watermark.{Store, advance_applied_offset}

-- kafka.Message, as far as it is used
pub record Message : Type 0 where
  pub partition : ℕ
  pub offset : ℕ
  pub value : Bytes

-- counterBatchEvent
pub record BatchEvent : Type 0 where
  pub offset : ℕ
  pub entity_type : Bytes
  pub entity_id : Bytes
  pub index : ℤ
  pub delta : ℤ

-- counterBatch; the empty batch has no partition.
pub record Batch : Type 0 where
  pub partition : Option ℕ
  pub opened_at : ℕ
  pub start_offset : ℕ
  pub end_offset : ℕ
  pub messages : List Message
  pub events : List BatchEvent
  pub entities : List Bytes

-- newCounterBatch
unfoldable pub new_batch : Batch
new_batch = record {
  partition = none;
  opened_at = 0;
  start_offset = 0;
  end_offset = 0;
  messages = [];
  events = [];
  entities = [];
}

abbrev pub size : Batch → ℕ
size b = length b.messages

pub data AddError : Type 0 where
  missing_entity index_out_of_range zero_delta partition_mismatch offset_gap : AddError

pub data Added : Type 0 where
  added : Batch → Added
  refused : AddError → Added

unfoldable pub contains : Bytes → List Bytes → Bool
contains k [] = false
contains k (x ∷ xs) = bytes_eq k x || contains k xs

-- entities[member] = struct{}{}
unfoldable pub add_entity : Bytes → List Bytes → List Bytes
unfolding contains
add_entity member entities = if contains member entities then entities else entities ++ member ∷ []

append_event : Batch → Message → CounterEvent → Batch
append_event b msg evt = record b {
  messages = b.messages ++ msg ∷ [];
  events =
      b.events
      ++ record {
        offset = msg.offset;
        entity_type = evt.entity_type;
        entity_id = evt.entity_id;
        index = evt.index;
        delta = evt.delta;
      }
        ∷ [];
  entities = add_entity (dirty_member evt.entity_type evt.entity_id) b.entities;
}

abbrev is_partition : Option ℕ → ℕ → Bool
is_partition none p = false
is_partition (some q) p = q == p

-- The extent of the batch after the message, at the time `now`.
extend_batch : ℕ → Batch → Message → CounterEvent → Added
unfolding append_event
extend_batch now b msg evt =
    if size b == 0
    then added (
        append_event
          (record b {
            partition = some msg.partition;
            opened_at = now;
            start_offset = msg.offset;
            end_offset = msg.offset;
          })
          msg evt)
    else if not (is_partition b.partition msg.partition)
    then refused partition_mismatch
    else if not (msg.offset == b.end_offset + 1)
    then refused offset_gap
    else added (append_event (record b { end_offset = msg.offset }) msg evt)

-- addEvent
unfoldable pub add_event : ℕ → Batch → Message → CounterEvent → Added
unfolding extend_batch add_entity
add_event now b msg evt =
    if bytes_eq evt.entity_type [] || bytes_eq evt.entity_id []
    then refused missing_entity
    else if ltb_ℤ evt.index (pos 0) || leb_ℤ (pos schema_len) evt.index
    then refused index_out_of_range
    else if eq_ℤ evt.delta (pos 0)
    then refused zero_delta
    else extend_batch now b msg evt

-- The consumer: its batches by partition, and what the outside holds: the watermark store of each
-- partition is a `Store` whose hashes and markers are shared, the committed messages, the dirty set of
-- the repair, and the messages recorded as failed.
pub record Consumer : Type 0 where
  pub batch_size : ℕ
  pub batches : ℕ → Option Batch
  pub watermark : ℕ → Option ℕ
  pub hash : Bytes → Bytes → Option ℤ
  pub marked : Bytes → Bool
  pub committed : List Message
  pub dirty : List Bytes
  pub recorded : List Message

abbrev pub at : (ℕ → Option Batch) → ℕ → Option Batch → ℕ → Option Batch
at m p b q = if p == q then b else m q

abbrev pub store : Consumer → ℕ → Store
store c p = record { applied = c.watermark p; hash = c.hash; marked = c.marked }

abbrev pub restore : Consumer → ℕ → Store → Consumer
restore c p r = record c {
  watermark = λ q. if p == q then r.applied else c.watermark q;
  hash = r.hash;
  marked = r.marked;
}

-- Which of the two calls fails when a malformed message is skipped.
pub record Faults : Type 0 where
  pub advance_fails : Bool
  pub commit_fails : Bool

-- skipMalformedMessage
unfoldable pub skip_malformed_message : Faults → Message → Consumer → Consumer
skip_malformed_message f msg c =
    if f.advance_fails
    then c
    else let (w, r) = advance_applied_offset msg.offset (store c msg.partition) in
      let c' = restore c msg.partition r in
      if f.commit_fails then c' else record c' { committed = c'.committed ++ msg ∷ [] }

-- takes the batch of a partition off the map
abbrev pub drop_batch : ℕ → Consumer → Consumer
drop_batch p c = record c { batches = at c.batches p none }

abbrev pub put_batch : ℕ → Batch → Consumer → Consumer
put_batch p b c = record c { batches = at c.batches p (some b) }

abbrev open_size : Option Batch → ℕ
open_size none = 0
open_size (some b) = size b

-- parse error: the open batch is handed over for a flush after the message is skipped
refuse_message : Faults → Message → Option Batch → Consumer → Option Batch × Consumer
refuse_message f msg none c = (none, skip_malformed_message f msg c)
refuse_message f msg (some b) c =
    if 0 == size b
    then (none, skip_malformed_message f msg c)
    else (some b, skip_malformed_message f msg (drop_batch msg.partition c))

add_to_new : ℕ → Message → CounterEvent → Batch → Added → Consumer → Option Batch × Consumer
add_to_new now msg evt old (added b) c = (some old, put_batch msg.partition b c)
add_to_new now msg evt old (refused e) c = (some old, put_batch msg.partition new_batch c)

add_to_open : Faults → Message → Batch → Added → Consumer → Option Batch × Consumer
add_to_open f msg old (added b) c =
    if leb c.batch_size (size b)
    then (some b, drop_batch msg.partition c)
    else (none, put_batch msg.partition b c)
add_to_open f msg old (refused e) c =
    if ltb 0 (size old)
    then (some old, skip_malformed_message f msg (drop_batch msg.partition c))
    else (none, skip_malformed_message f msg (put_batch msg.partition old c))

accept_message :
    ℕ → Faults → Message → CounterEvent → Option Batch → Consumer → Option Batch × Consumer
accept_message now f msg evt none c =
    add_to_open f msg new_batch (add_event now new_batch msg evt) c
accept_message now f msg evt (some b) c =
    if ltb 0 (size b) && not (msg.offset == b.end_offset + 1)
    then add_to_new now msg evt b (add_event now new_batch msg evt) (drop_batch msg.partition c)
    else add_to_open f msg b (add_event now b msg evt) c

-- handleMessage: the batch to flush, if any, and the consumer.
handle_parsed : ℕ → Faults → Message → Option CounterEvent → Consumer → Option Batch × Consumer
handle_parsed now f msg none c = refuse_message f msg (c.batches msg.partition) c
handle_parsed now f msg (some evt) c = accept_message now f msg evt (c.batches msg.partition) c

module _ (parse_counter_event : Bytes → Option CounterEvent) where
  unfoldable pub handle_message : ℕ → Faults → Message → Consumer → Option Batch × Consumer
  unfolding handle_parsed accept_message add_to_open add_to_new refuse_message
  handle_message now f msg c = handle_parsed now f msg (parse_counter_event msg.value) c
