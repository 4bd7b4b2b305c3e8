-- ===== src/Counter/Tests/Looped.antt =====
-- The loop of the consumer for a batch that was opened at the time 0.
use zhiguang_go.Base.{ℕ, ◌<◌, ◌≤◌, ◌≡◌, refl, none, some, [], ◌∷◌, All}
use zhiguang_go.Counter.Batch.{Batch}
use zhiguang_go.Counter.Batch.Handled.{IsSound}
use zhiguang_go.Counter.Loop.{
  deadline_of, take_expired_batch, next_batch_deadline, look, fetch, consume_loop,
}
use zhiguang_go.Counter.Loop.Waiting.{IsWaiting}
use zhiguang_go.Counter.Loop.Deadlines.{take_expired_batch-waits}
use zhiguang_go.Counter.Loop.Sent.{IsFlushable, consume_loop-IsFlushable}
use zhiguang_go.Counter.Tests.Batched.{
  batch, consumer, consumer-IsSound, next_message, skipping, counter_event,
}

nothing_taken : (take_expired_batch 1000 10 (0 ∷ []) consumer).0 ≡ none
unfolding take_expired_batch
nothing_taken = refl

batch_taken : (take_expired_batch 1000 1000 (0 ∷ []) consumer).0 ≡ some batch
unfolding take_expired_batch
batch_taken = refl

next_deadline : next_batch_deadline 1000 (0 ∷ []) consumer.batches ≡ some 1000
unfolding next_batch_deadline
next_deadline = refl

take_expired_batch-waits_example :
    let m = (take_expired_batch 1000 10 (0 ∷ []) consumer).1.batches in
    All (IsWaiting 1000 10 m) (0 ∷ [])
    × ((d : ℕ)
        → next_batch_deadline 1000 (0 ∷ []) m ≡ some d
        → (10 < d) × All (λ q. (b : Batch) → m q ≡ some b → d ≤ deadline_of 1000 b) (0 ∷ []))
take_expired_batch-waits_example =
    take_expired_batch-waits 1000 10 (0 ∷ []) (0 ∷ []) consumer nothing_taken (refl, tt)

consume_loop-IsFlushable_example :
    All IsFlushable
      (consume_loop
        (λ v. some counter_event)
        1000
        (fetch 20 skipping next_message ∷ look 1000 (0 ∷ []) ∷ [])
        consumer).0
    × IsSound
        (consume_loop
          (λ v. some counter_event)
          1000
          (fetch 20 skipping next_message ∷ look 1000 (0 ∷ []) ∷ [])
          consumer).1
consume_loop-IsFlushable_example =
    consume_loop-IsFlushable (λ v. some counter_event) 1000
      (fetch 20 skipping next_message ∷ look 1000 (0 ∷ []) ∷ []) consumer consumer-IsSound
