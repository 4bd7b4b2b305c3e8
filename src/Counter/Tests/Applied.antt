-- ===== src/Counter/Tests/Applied.antt =====
-- Two events of one entity, under the watermark.
use zhiguang_go.Base.{◌≡◌, refl, false, none, some, List, [], ◌∷◌, ◌++◌, arith, Bytes, codes}
use zhiguang_go.Base.Int.{pos, negsuc}
use zhiguang_go.Counter.Watermark.{Store, Event, ok, apply_partition_batch}
use zhiguang_go.Counter.Watermark.Refine.{last_offset, count_events, apply_partition_batch-count}

abbrev cnt : List Bytes
cnt = codes "cnt:v1:kp:1" ∷ []

abbrev markers : List Bytes
markers = codes "repair:counter:rebuilding:kp:1" ∷ []

abbrev liked : Event
liked = record { offset = 5; key_index = 0; field = codes "like"; delta = pos 1 }

abbrev unliked : Event
unliked = record { offset = 6; key_index = 0; field = codes "like"; delta = negsuc 0 }

abbrev empty : Store
empty = record { applied = none; hash = λ k f. none; marked = λ k. false }

abbrev half_applied : Store
half_applied = record { applied = some 5; hash = λ k f. none; marked = λ k. false }

apply_partition_batch-count_example :
    apply_partition_batch (cnt ++ markers) 1 (liked ∷ unliked ∷ []) half_applied ≡ (
      ok (some 6),
      record half_applied {
        applied = some 6;
        hash = count_events cnt markers half_applied.marked (unliked ∷ []) half_applied.hash;
      },
    )
unfolding last_offset
apply_partition_batch-count_example =
    apply_partition_batch-count cnt markers (liked ∷ []) (unliked ∷ []) half_applied
      (record { paired = refl; named = ground arith }) (ground arith) (ground arith)
