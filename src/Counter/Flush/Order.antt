-- ===== src/Counter/Flush/Order.antt =====
-- Start of internal/counter/consumer.go runs two workers that flush batches as they come, so that two
-- batches of one partition can be flushed in either order.
use zhiguang_go.Base.{
  ◌∙◌, ℕ, ◌+◌, ◌≤◌, ◌<◌, ◌≡◌, refl, ap, true, false, Option, none, some, ◌++◌, arith, All,
}
use zhiguang_go.Counter.Watermark.{at_most}
use zhiguang_go.Counter.Batch.{Batch, Consumer, size}
use zhiguang_go.Counter.Batch.Contiguity.{IsWellFormed}
use zhiguang_go.Counter.Flush.{FlushFaults, Result, done, flush_batch}
use zhiguang_go.Counter.Flush.Count.{
  counted, count_all, AreUnmarked, count_batch-unmarked, flush_batch-count,
}
use zhiguang_go.Counter.Flush.Lost.{flush_batch-late, Runs-le}
use zhiguang_go.Counter.Flush.Keys.{Readable}

-- No call of a flush fails.
pub record IsSmooth (f : FlushFaults) : Type 0 where
  pub scoped : f.scope_missing ≡ false
  pub reached : f.redis_fails ≡ false
  pub commits : f.commit_fails ≡ false

-- A batch of the partition as the consumer hands it over.
pub record IsHanded (p : ℕ) (b : Batch) : Type 0 where
  pub formed : IsWellFormed b
  pub filled : 0 < size b
  pub placed : b.partition ≡ some p
  pub readable : All Readable b.entities

counted-watermark :
    (p : ℕ) (b : Batch) (c : Consumer) → (counted p b c).watermark p ≡ some b.end_offset
unfolding counted
counted-watermark p b c = ground arith

below_next : (e s : ℕ) (v : Option ℕ) → v ≡ some e → e < s → at_most s v ≡ false
below_next e s v h l = rw h (ground arith)

above_last : (e s : ℕ) (v : Option ℕ) → v ≡ some e → s ≤ e → at_most s v ≡ true
above_last e s v h l = rw h (ground arith)

later : (s t : ℕ) (v : Option ℕ) → at_most s v ≡ false → s ≤ t → at_most t v ≡ false
later s t none h l = h
later s t (some v) h l = ground arith

start-le-end : (p : ℕ) (b : Batch) → IsHanded p b → b.start_offset ≤ b.end_offset + 1
start-le-end p b h = Runs-le b.start_offset (b.end_offset + 1) b.events (h.formed.runs h.filled)

module _ (p : ℕ) (f1 f2 : FlushFaults) (b1 b2 : Batch) (c : Consumer) (s1 : IsSmooth f1)
    (s2 : IsSmooth f2) (h1 : IsHanded p b1) (h2 : IsHanded p b2)
    (fresh : at_most b1.start_offset (c.watermark p) ≡ false)
    (follows : b1.end_offset < b2.start_offset) (u1 : AreUnmarked c.marked b1.events)
    (u2 : AreUnmarked c.marked b2.events) where
  -- Of two batches of a partition as the consumer hands them over, of which the second lies after the
  -- first and both above the watermark, and of which no entity has its rebuild marker set: flushed in
  -- their order, with no failure, every event of both is counted. Flushed the other way round, with no
  -- failure either, both flushes report success and commit their messages, but only the events of the
  -- second batch are counted.
  pub overtaken_batch_uncounted :
      ((flush_batch f2 b2 (flush_batch f1 b1 c).1).1.hash
        ≡ count_all b2.events (count_all b1.events c.hash))
      × ((flush_batch f2 b2 c).0 ≡ done)
      × ((flush_batch f1 b1 (flush_batch f2 b2 c).1).0 ≡ done)
      × ((flush_batch f1 b1 (flush_batch f2 b2 c).1).1.committed
          ≡ (c.committed ++ b2.messages) ++ b1.messages)
      × ((flush_batch f1 b1 (flush_batch f2 b2 c).1).1.hash ≡ count_all b2.events c.hash)
  unfolding counted
  overtaken_batch_uncounted =
      let first =
        flush_batch-count f1 p b1 c s1.scoped s1.reached s1.commits h1.formed h1.filled h1.placed
          h1.readable fresh in
      let then_second =
        flush_batch-count f2 p b2 (counted p b1 c) s2.scoped s2.reached s2.commits h2.formed
          h2.filled h2.placed h2.readable
          (below_next b1.end_offset b2.start_offset _ (counted-watermark p b1 c) follows) in
      let second =
        flush_batch-count f2 p b2 c s2.scoped s2.reached s2.commits h2.formed h2.filled h2.placed
          h2.readable
          (later b1.start_offset b2.start_offset (c.watermark p) fresh
            (omega (arith, start-le-end p b1 h1))) in
      let late =
        flush_batch-late f1 p b1 (counted p b2 c) s1.scoped s1.reached s1.commits h1.formed
          h1.filled h1.placed
          (above_last b2.end_offset b1.end_offset _ (counted-watermark p b2 c)
            (omega (arith, start-le-end p b2 h2))) in
      let both =
        count_batch-unmarked c.marked b2.events _ u2
        ∙ ap (count_all b2.events) (count_batch-unmarked c.marked b1.events c.hash u1) in
      let one = count_batch-unmarked c.marked b2.events c.hash u2 in
      rw (first, second)
        (
          ap (λ (x : Result × Consumer). x.1.hash) then_second ∙ both,
          refl,
          late.0,
          late.2,
          late.1 ∙ one,
        )
