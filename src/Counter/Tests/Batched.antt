-- ===== src/Counter/Tests/Batched.antt =====
-- A batch of one event, and a message that cannot be decoded after it.
use zhiguang_go.Base.{
  ℕ, ◌++◌, ◌≡◌, refl, subst, false, none, some, [], ◌∷◌, arith, All, codes, bytes_eq, cut,
}
use zhiguang_go.Base.Int.{pos}
use zhiguang_go.Counter.Model.{CounterEvent, dirty_member, parse_dirty_member}
use zhiguang_go.Counter.Batch.{
  Message, BatchEvent, Batch, Consumer, Faults, new_batch, handle_message, contains,
}
use zhiguang_go.Counter.Batch.Contiguity.{IsCountable, IsWellFormed}
use zhiguang_go.Counter.Batch.Handled.{IsSound}
use zhiguang_go.Counter.Flush.{FlushFaults, done, flush_batch}
use zhiguang_go.Counter.Flush.Count.{counted, count_all, flush_batch-count}
use zhiguang_go.Counter.Flush.Keys.{Readable}
use zhiguang_go.Counter.Flush.Lost.{malformed_message_loses_batch}
use zhiguang_go.Counter.Flush.Order.{IsSmooth, IsHanded, overtaken_batch_uncounted}

abbrev pub like_event : BatchEvent
like_event = record {
  offset = 5;
  entity_type = codes "kp";
  entity_id = codes "1";
  index = pos 0;
  delta = pos 1;
}

abbrev pub message : Message
message = record { partition = 0; offset = 5; value = [] }

abbrev pub next_message : Message
next_message = record { partition = 0; offset = 6; value = [] }

abbrev pub counter_event : CounterEvent
counter_event = record {
  message_id = 1;
  entity_type = codes "kp";
  entity_id = codes "1";
  metric = codes "like";
  index = pos 0;
  user_id = 7;
  delta = pos 1;
}

abbrev pub batch : Batch
batch = record {
  partition = some 0;
  opened_at = 0;
  start_offset = 5;
  end_offset = 5;
  messages = message ∷ [];
  events = like_event ∷ [];
  entities = codes "kp:1" ∷ [];
}

abbrev pub consumer : Consumer
consumer = record {
  batch_size = 10;
  batches = λ p. some batch;
  watermark = λ p. some 4;
  hash = λ k f. none;
  marked = λ k. false;
  committed = [];
  dirty = [];
  recorded = [];
}

abbrev idle : Consumer
idle = record consumer { batches = λ p. none }

abbrev working : FlushFaults
working = record { scope_missing = false; redis_fails = false; commit_fails = false }

abbrev pub skipping : Faults
skipping = record { advance_fails = false; commit_fails = false }

like_event-IsCountable : (offset : ℕ) → IsCountable (record like_event { offset = offset })
like_event-IsCountable offset = record {
  typed = λ h. cc;
  named = λ h. cc;
  from_zero = ground arith;
  in_schema = ground arith;
  moves = ground arith;
}

batch-IsWellFormed : IsWellFormed batch
unfolding contains dirty_member bytes_eq
batch-IsWellFormed = record {
  counted = refl;
  runs = λ h. (refl, refl);
  countable = (like_event-IsCountable 5, tt);
  known = (refl, tt);
}

new_batch-IsWellFormed : IsWellFormed new_batch
unfolding new_batch
new_batch-IsWellFormed = record {
  counted = refl;
  runs = λ h. ground arith;
  countable = tt;
  known = tt;
}

readable : All Readable batch.entities
unfolding parse_dirty_member cut bytes_eq
readable = (((codes "kp", codes "1"), refl), tt)

pub consumer-IsSound : IsSound consumer
consumer-IsSound = record {
  each = λ p b h. let same : batch ≡ b = cc in subst IsWellFormed same batch-IsWellFormed;
}

flush_batch-count_example : flush_batch working batch consumer ≡ (done, counted 0 batch consumer)
flush_batch-count_example =
    flush_batch-count working 0 batch consumer refl refl refl batch-IsWellFormed (ground arith) refl
      readable (ground arith)

malformed_message_loses_batch_example :
    ((handle_message (λ v. none) 0 skipping next_message consumer).0 ≡ some batch)
    × ((flush_batch working batch (handle_message (λ v. none) 0 skipping next_message consumer).1).0
        ≡ done)
    × ((flush_batch working batch
          (handle_message (λ v. none) 0 skipping next_message consumer).1).1.hash
        ≡ consumer.hash)
malformed_message_loses_batch_example =
    malformed_message_loses_batch (λ v. none) 0 skipping working next_message batch consumer refl
      refl refl refl refl refl batch-IsWellFormed (ground arith) refl (ground arith)

abbrev second_batch : Batch
second_batch = record batch {
  start_offset = 6;
  end_offset = 6;
  messages = next_message ∷ [];
  events = record like_event { offset = 6 } ∷ [];
}

second_batch-IsHanded : IsHanded 0 second_batch
unfolding contains dirty_member bytes_eq
second_batch-IsHanded = record {
  formed = record {
    counted = refl;
    runs = λ h. (refl, refl);
    countable = (like_event-IsCountable 6, tt);
    known = (refl, tt);
  };
  filled = ground arith;
  placed = refl;
  readable = readable;
}

abbrev working-IsSmooth : IsSmooth working
working-IsSmooth = record { scoped = refl; reached = refl; commits = refl }

overtaken_batch_uncounted_example :
    ((flush_batch working second_batch (flush_batch working batch consumer).1).1.hash
      ≡ count_all second_batch.events (count_all batch.events consumer.hash))
    × ((flush_batch working second_batch consumer).0 ≡ done)
    × ((flush_batch working batch (flush_batch working second_batch consumer).1).0 ≡ done)
    × ((flush_batch working batch (flush_batch working second_batch consumer).1).1.committed
        ≡ (consumer.committed ++ next_message ∷ []) ++ batch.messages)
    × ((flush_batch working batch (flush_batch working second_batch consumer).1).1.hash
        ≡ count_all second_batch.events consumer.hash)
overtaken_batch_uncounted_example =
    overtaken_batch_uncounted 0 working working batch second_batch consumer working-IsSmooth
      working-IsSmooth
      (record {
        formed = batch-IsWellFormed;
        filled = ground arith;
        placed = refl;
        readable = readable;
      })
      second_batch-IsHanded (ground arith) (ground arith) (refl, tt) (refl, tt)
