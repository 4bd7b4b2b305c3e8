-- ===== src/Counter/Publish.antt =====
-- internal/counter/failure.go (publishCounterEvent, markDirty, recordFailedEvent) with
-- CounterFailedMessage of failure_recorder.go: how an event is handed to Kafka, and what is kept of an
-- event for which that fails. The producer and MySQL are seen by what they accept, and a failing call
-- is an input.
pub mod Balance
use zhiguang_go.Base.{
  ℕ, if◌then◌else◌, Bool, Option, none, some, List, [], ◌∷◌, ◌++◌, Bytes, codes, take,
}
use zhiguang_go.Base.Int.{ℤ}
use zhiguang_go.Counter.Model.{CounterEvent, dirty_member}
use zhiguang_go.Counter.Batch.{add_entity}

-- CounterFailedMessage as it is created. The payload, which is the event in JSON, stands as the event.
pub record FailedMessage : Type 0 where
  pub stage : Bytes
  pub topic : Bytes
  pub message_key : Bytes
  pub entity_type : Bytes
  pub entity_id : Bytes
  pub metric : Bytes
  pub delta : ℤ
  pub payload : CounterEvent
  pub error_message : Bytes
  pub retry_count : ℕ
  pub status : Bytes

-- The producer with the events that it accepted, the dirty set, and the recorder with its rows.
pub record Publisher : Type 0 where
  pub has_producer : Bool
  pub published : List CounterEvent
  pub dirty : List Bytes
  pub has_recorder : Bool
  pub failure_topic : Bytes
  pub failures : List FailedMessage

-- How a publication goes: the error of Publish, and whether the mark and the record fail after it.
pub record Publishing : Type 0 where
  pub error : Option Bytes
  pub mark_fails : Bool
  pub record_fails : Bool

-- failureErrorMessage of an error
unfoldable pub failure_error_message : Bytes → Bytes
failure_error_message message = take 1024 message

-- markDirty; the caller only logs its error
unfoldable pub mark_dirty : Bool → Bytes → Bytes → Publisher → Publisher
mark_dirty fails entity_type entity_id s =
    if fails
    then s
    else record s { dirty = add_entity (dirty_member entity_type entity_id) s.dirty }

failed_message : Bytes → CounterEvent → Bytes → Publisher → FailedMessage
unfolding failure_error_message
failed_message stage event cause s = record {
  stage = stage;
  topic = s.failure_topic;
  message_key = event.entity_type ++ (codes ":" ++ event.entity_id);
  entity_type = event.entity_type;
  entity_id = event.entity_id;
  metric = event.metric;
  delta = event.delta;
  payload = event;
  error_message = failure_error_message cause;
  retry_count = 0;
  status = codes "pending";
}

-- recordFailedEvent; the caller only logs its error
unfoldable pub record_failed_event : Bool → Bytes → CounterEvent → Bytes → Publisher → Publisher
unfolding failed_message
record_failed_event fails stage event cause s =
    if s.has_recorder
    then (if fails
        then s
        else record s { failures = s.failures ++ failed_message stage event cause s ∷ [] })
    else s

after_publish : Publishing → CounterEvent → Publisher → Option Bytes → Publisher
after_publish p event s none = record s { published = s.published ++ event ∷ [] }
after_publish p event s (some cause) =
    record_failed_event p.record_fails (codes "publish") event cause
      (mark_dirty p.mark_fails event.entity_type event.entity_id s)

-- publishCounterEvent
unfoldable pub publish_counter_event : Publishing → CounterEvent → Publisher → Publisher
unfolding after_publish
publish_counter_event p event s = if s.has_producer then after_publish p event s p.error else s
