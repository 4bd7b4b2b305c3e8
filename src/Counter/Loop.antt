-- ===== src/Counter/Loop.antt =====
-- consumeLoop of internal/counter/consumer.go with takeExpiredBatch and nextBatchDeadline. The order in
-- which a range over the map meets the partitions is an input; times are in nanoseconds, as one clock
-- gives them.
pub mod Waiting
pub mod Deadlines
pub mod Sent
use zhiguang_go.Base.{
  ℕ, ◌+◌, Bool, false, not, ◌&&◌, Option, none, some, List, [], ◌∷◌, ltb, leb, ◌==◌, if◌then◌else◌,
  Bytes,
}
use zhiguang_go.Counter.Model.{CounterEvent}
use zhiguang_go.Counter.Batch.{
  Message, Batch, Consumer, Faults, size, at, drop_batch, handle_message,
}

-- a batch is closed at this time
abbrev pub deadline_of : ℕ → Batch → ℕ
deadline_of interval b = b.opened_at + interval

pub is_expired : ℕ → ℕ → Option Batch → Bool
is_expired interval now none = false
is_expired interval now (some b) = not (size b == 0) && leb (deadline_of interval b) now

abbrev pub keep_filled : Option Batch → Option Batch
keep_filled none = none
keep_filled (some b) = if size b == 0 then none else some b

-- an empty batch is deleted from the map
abbrev pub tidy : ℕ → Consumer → Consumer
tidy p c = record c { batches = at c.batches p (keep_filled (c.batches p)) }

-- takeExpiredBatch
unfoldable pub take_expired_batch : ℕ → ℕ → List ℕ → Consumer → Option Batch × Consumer
unfolding is_expired
take_expired_batch interval now [] c = (none, c)
take_expired_batch interval now (p ∷ ps) c =
    let rest = take_expired_batch interval now ps (tidy p c) in
    if is_expired interval now (c.batches p) then (c.batches p, drop_batch p c) else rest

pub earlier : Option ℕ → ℕ → Option ℕ
earlier none d = some d
earlier (some e) d = if ltb d e then some d else some e

pub with_batch : ℕ → Option ℕ → Option Batch → Option ℕ
unfolding earlier
with_batch interval found none = found
with_batch interval found (some b) =
    if size b == 0 then found else earlier found (deadline_of interval b)

pub earliest_from : ℕ → Option ℕ → List ℕ → (ℕ → Option Batch) → Option ℕ
unfolding with_batch
earliest_from interval found [] m = found
earliest_from interval found (p ∷ ps) m =
    earliest_from interval (with_batch interval found (m p)) ps m

-- nextBatchDeadline
unfoldable pub next_batch_deadline : ℕ → List ℕ → (ℕ → Option Batch) → Option ℕ
unfolding earliest_from
next_batch_deadline interval ps m = earliest_from interval none ps m

-- What a round of the loop does: it looks for a batch whose time is over, or it takes a message.
pub data Round : Type 0 where
  look : ℕ → List ℕ → Round
  fetch : ℕ → Faults → Message → Round

module _ (parse_counter_event : Bytes → Option CounterEvent) (interval : ℕ) where
  pub round_of : Round → Consumer → Option Batch × Consumer
  round_of (look now order) c = take_expired_batch interval now order c
  round_of (fetch now f msg) c = handle_message parse_counter_event now f msg c

  send : Option Batch → List Batch → List Batch
  send none bs = bs
  send (some b) bs = b ∷ bs

  -- consumeLoop: the batches that are sent to the workers, and the consumer after the rounds
  unfoldable pub consume_loop : List Round → Consumer → List Batch × Consumer
  unfolding round_of send
  consume_loop [] c = ([], c)
  consume_loop (r ∷ rs) c =
      let (o, c') = round_of r c in let (bs, c'') = consume_loop rs c' in (send o bs, c'')
