-- ===== src/Counter/Flush/Lost.antt =====
-- The watermark can overtake a batch that was not applied yet. A flush of it then counts nothing and
-- still reports success.
use zhiguang_go.Base.{
  ℕ, ◌+◌, ◌≤◌, ◌<◌, ◌≡◌, refl, ap, ◌∙◌, true, false, Option, none, some, List, [], ◌∷◌, ◌++◌, map,
  arith, length, Bytes,
}
use zhiguang_go.Counter.Model.{CounterEvent}
use zhiguang_go.Counter.Watermark.{at_most}
use zhiguang_go.Counter.Watermark.Replay.{Covered, apply_partition_batch-Covered}
use zhiguang_go.Counter.Batch.{
  Message, BatchEvent, Batch, Consumer, Faults, size, store, restore, handle_message,
  skip_malformed_message, drop_batch,
}
use zhiguang_go.Counter.Batch.Handled.{
  handle_message_malformed, skip_malformed_message-watermark, skip_malformed_message-hash,
}
use zhiguang_go.Counter.Batch.Contiguity.{Runs, IsWellFormed}
use zhiguang_go.Counter.Flush.{
  cnt_keys, script_event, marker_of_key, FlushFaults, done, settle, run_batch, commit_after,
  flush_batch,
}
use zhiguang_go.Counter.Flush.Count.{flush_batch-run_batch, commit_after_lem}

pub Runs-le : (s t : ℕ) (es : List BatchEvent) → Runs s es t → s ≤ t
Runs-le s t [] r = omega arith
Runs-le s t (e ∷ es) r = omega (arith, Runs-le (s + 1) t es r.1)

Runs-Covered :
    (indexes : List (Bytes × ℕ)) (s t : ℕ) (w : Option ℕ) (es : List BatchEvent)
    → Runs s es t
    → ((o : ℕ) → o < t → at_most o w ≡ true)
    → Covered w (map (script_event indexes) es)
unfolding script_event
Runs-Covered indexes s t w [] r h = tt
Runs-Covered indexes s t w (e ∷ es) r h = (
  h e.offset (omega (arith, Runs-le (s + 1) t es r.1)),
  Runs-Covered indexes (s + 1) t w es r.1 h,
)

up_to : (o w : ℕ) (v : Option ℕ) → at_most w v ≡ true → o < w + 1 → at_most o v ≡ true
up_to o w none h l = cc
up_to o w (some v) h l = ground arith

module _ (f : FlushFaults) (p : ℕ) (b : Batch) (c : Consumer) (scoped : f.scope_missing ≡ false)
    (reached : f.redis_fails ≡ false) (commits : f.commit_fails ≡ false) (v : IsWellFormed b)
    (h : 0 < size b) (placed : b.partition ≡ some p)
    (late : at_most b.end_offset (c.watermark p) ≡ true) where
  run_batch-late : run_batch p b c ≡ (done, restore c p (store c p))
  unfolding run_batch settle
  run_batch-late =
      let (keys, indexes) = cnt_keys b in
      ap (settle p c) (
        apply_partition_batch-Covered (keys ++ map marker_of_key keys) (length keys)
          (map (script_event indexes) b.events) (store c p)
          (Runs-Covered indexes b.start_offset (b.end_offset + 1) (c.watermark p) b.events
            (v.runs h) λ o l. up_to o b.end_offset (c.watermark p) late l))

  -- A flush with no failure of a batch that the watermark has reached reports success and commits the
  -- messages, and no counter changes.
  pub flush_batch-late :
      ((flush_batch f b c).0 ≡ done)
      × ((flush_batch f b c).1.hash ≡ c.hash)
      × ((flush_batch f b c).1.committed ≡ c.committed ++ b.messages)
  flush_batch-late =
      let flushed : flush_batch f b c
          ≡ (done, record (restore c p (store c p)) { committed = c.committed ++ b.messages }) =
        flush_batch-run_batch f p b c scoped reached h placed
        ∙ ap (commit_after f b) run_batch-late
        ∙ commit_after_lem f b _ commits in
      (rw flushed refl, rw flushed refl, rw flushed refl)

-- A message that cannot be decoded loses the open batch of its partition: the batch is flushed after
-- the watermark has passed it, so none of its events is counted.
pub malformed_message_loses_batch :
    (parse : Bytes → Option CounterEvent) (now : ℕ) (sf : Faults) (f : FlushFaults) (msg : Message)
    (b : Batch) (c : Consumer)
    → f.scope_missing ≡ false
    → f.redis_fails ≡ false
    → f.commit_fails ≡ false
    → sf.advance_fails ≡ false
    → parse msg.value ≡ none
    → c.batches msg.partition ≡ some b
    → IsWellFormed b
    → 0 < size b
    → b.partition ≡ some msg.partition
    → b.end_offset < msg.offset
    → ((handle_message parse now sf msg c).0 ≡ some b)
      × ((flush_batch f b (handle_message parse now sf msg c).1).0 ≡ done)
      × ((flush_batch f b (handle_message parse now sf msg c).1).1.hash ≡ c.hash)
malformed_message_loses_batch parse now sf f msg b c scoped reached commits advances bad going v h
      placed behind =
    let handled = handle_message_malformed parse now sf msg b c bad going h in
    let late =
      flush_batch-late f msg.partition b
        (skip_malformed_message sf msg (drop_batch msg.partition c)) scoped reached commits v h
        placed
        (skip_malformed_message-watermark sf msg (drop_batch msg.partition c) b.end_offset advances
          (omega arith)) in
    (
      ap (λ (x : Option Batch × Consumer). x.0) handled,
      rw handled late.0,
      rw handled (late.1 ∙ skip_malformed_message-hash sf msg (drop_batch msg.partition c)),
    )
