-- ===== src/Counter/Watermark.antt =====
-- internal/counter/consumer_watermark.go: the two scripts that apply a batch of counter events under
-- the shared watermark of a partition. Kafka offsets are not negative, so the watermark is `none`
-- where the script reads -1 for a missing key. Redis does not undo the writes of a script that stops
-- with an error, so the store comes back beside the reply.
pub mod Replay
pub mod Refine
pub mod Nonneg
use zhiguang_go.Base.{
  ℕ, ◌+◌, Bool, false, not, ◌&&◌, Option, none, some, List, [], ◌∷◌, leb, if◌then◌else◌, get_elem?,
  Bytes, bytes_eq,
}
use zhiguang_go.Base.Int.{ℤ, pos, ◌+ℤ◌, ltb_ℤ}

-- The watermark of one partition, the counter hashes, and which repair markers exist.
pub record Store : Type 0 where
  pub applied : Option ℕ
  pub hash : Bytes → Bytes → Option ℤ
  pub marked : Bytes → Bool

-- One group of four arguments: offset, keyIndex, field, delta.
pub record Event : Type 0 where
  pub offset : ℕ
  pub key_index : ℕ
  pub field : Bytes
  pub delta : ℤ

pub data Reply : Type 0 where
  ok : Option ℕ → Reply
  -- "counter offset gap"
  gap : Reply
  -- a call with a key that was not passed
  no_key : Reply

-- offset <= current
abbrev pub at_most : ℕ → Option ℕ → Bool
at_most offset none = false
at_most offset (some w) = leb offset w

abbrev value_or_zero : Option ℤ → ℤ
value_or_zero none = pos 0
value_or_zero (some n) = n

abbrev clamp : ℤ → ℤ
clamp n = if ltb_ℤ n (pos 0) then pos 0 else n

-- HINCRBY, HGET, and HSET to 0 of a negative value. The count is not bounded by int64, past which
-- HINCRBY is refused.
unfoldable pub incr_clamped :
    (Bytes → Bytes → Option ℤ) → Bytes → Bytes → ℤ → Bytes → Bytes → Option ℤ
unfolding ◌+ℤ◌
incr_clamped hash key field delta k f =
    if bytes_eq key k && bytes_eq field f
    then some (clamp (value_or_zero (hash key field) +ℤ delta))
    else hash k f

-- One round: go on with the last offset and the store, or stop.
pub data Round : Type 0 where
  go_on : Option ℕ → Store → Round
  stop : Reply → Round

write_event : Event → Option Bytes → Option Bytes → Store → Round
write_event e none marker r = stop no_key
write_event e (some key) none r = stop no_key
write_event e (some key) (some marker) r =
    go_on (some e.offset)
      (if r.marked marker then r else record r { hash = incr_clamped r.hash key e.field e.delta })

-- `keys` are KEYS[2 ..]: the counter hashes, then as many markers.
unfoldable pub round : List Bytes → ℕ → Option ℕ → Event → Option ℕ → Store → Round
unfolding write_event incr_clamped
round keys entity_count current e last r =
    if at_most e.offset current
    then go_on last r
    else if at_most e.offset last
    then stop gap
    else write_event e (get_elem? keys e.key_index) (get_elem? keys (e.key_index + entity_count)) r

abbrev resume : Round → (Option ℕ → Store → Reply × Store) → Store → Reply × Store
resume (go_on last r) k r0 = k last r
resume (stop reply) k r0 = (reply, r0)

unfoldable pub rounds : List Bytes → ℕ → Option ℕ → List Event → Option ℕ → Store → Reply × Store
unfolding round
rounds keys entity_count current [] last r = (ok last, r)
rounds keys entity_count current (e ∷ es) last r =
    resume (round keys entity_count current e last r) (rounds keys entity_count current es) r

-- lastApplied > current
abbrev advanced : Option ℕ → Option ℕ → Bool
advanced current none = false
advanced current (some last) = not (at_most last current)

abbrev finish : Option ℕ → Reply × Store → Reply × Store
finish current (ok last, r) =
    (ok last, if advanced current last then record r { applied = last } else r)
finish current (gap, r) = (gap, r)
finish current (no_key, r) = (no_key, r)

-- applyPartitionBatchLua
unfoldable pub apply_partition_batch : List Bytes → ℕ → List Event → Store → Reply × Store
unfolding rounds
apply_partition_batch keys entity_count events r =
    finish r.applied (rounds keys entity_count r.applied events r.applied r)

-- advanceAppliedOffsetLua
unfoldable pub advance_applied_offset : ℕ → Store → Option ℕ × Store
advance_applied_offset target r =
    if at_most target r.applied
    then (r.applied, r)
    else (some target, record r { applied = some target })
