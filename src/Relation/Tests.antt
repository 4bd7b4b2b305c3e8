-- ===== src/Relation/Tests.antt =====
-- The theorems on follow events, for user 7 following user 8.
use zhiguang_go.Base.{◌≡◌, refl, false, none, arith, bytes_eq, update}
use zhiguang_go.Base.Int.{pos, ◌+ℤ◌}
use zhiguang_go.Counter.UserCounter.{apply_follow_delta, followers_of, apply_follow_delta_once}
use zhiguang_go.Relation.EventProcessor.{Redis, process, dedupe_key}
use zhiguang_go.Relation.EventProcessor.Delivery.{
  no_faults, created, canceled, follows, AreMoved, delta_named, process_redelivered,
  second_cancel_uncounted,
}

abbrev redis : Redis
redis = record {
  zset = λ k m. none;
  zset_expires = λ k. none;
  counters = record { marks = λ k. none; hash = λ k f. none };
}

abbrev once : Redis
once = (process no_faults 0 (canceled 7 8) redis).1

abbrev twice : Redis
twice = (process no_faults 10 (created 7 8 3) once).1

process_redelivered_example :
    AreMoved
      (created 7 8 3)
      (delta_named (created 7 8 3))
      redis
      (process no_faults 300 (created 7 8 3) (process no_faults 0 (created 7 8 3) redis).1).1
    × ((process no_faults 300
          (created 7 8 3)
          (process no_faults 0 (created 7 8 3) redis).1).1.counters
        ≡ (process no_faults 0 (created 7 8 3) redis).1.counters)
process_redelivered_example = process_redelivered 0 300 (created 7 8 3) redis refl (ground arith)

second_cancel_uncounted_example :
    (followers_of (process no_faults 20 (canceled 7 8) twice).1.counters 8
      ≡ followers_of once.counters 8 +ℤ pos 1)
    × (follows (process no_faults 20 (canceled 7 8) twice).1 7 8 ≡ (false, false))
unfolding process dedupe_key bytes_eq apply_follow_delta_once apply_follow_delta update
second_cancel_uncounted_example =
    second_cancel_uncounted 0 10 20 7 8 3 redis once twice
      (process no_faults 20 (canceled 7 8) twice).1 refl refl refl refl (ground arith) refl
