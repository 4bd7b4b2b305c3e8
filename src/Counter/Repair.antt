-- ===== src/Counter/Repair.antt =====
-- The repair of dirty members in internal/counter/consumer.go: a leader pops members of the dirty set and
-- rebuilds their snapshots under their locks. Which members SPOP takes, the locks and the failing calls
-- are inputs; the watchdog of the rebuild marker only keeps it alive and is left out.
pub mod Cleaning
pub mod Accounts
use zhiguang_go.Base.{
  ℕ, Bool, true, false, not, Option, none, some, List, [], ◌∷◌, ◌==◌, if◌then◌else◌, keep, Bytes,
  bytes_eq, update,
}
use zhiguang_go.Counter.Model.{parse_dirty_member, sds_key, rebuild_marker_key}
use zhiguang_go.Counter.Batch.{add_entity}
use zhiguang_go.Counter.Toggle.{Redis}
use zhiguang_go.Counter.Backoff.{Repair, reset_backoff}
use zhiguang_go.Counter.Rebuild.{Hash, Counts, Page, set_fields, build_snapshot_from_bitmap}

-- What the repair works on; the backoff is kept for each dirty member.
pub record World : Type 0 where
  pub redis : Redis
  pub dirty : List Bytes
  pub sds : Bytes → Hash
  pub marked : Bytes → Bool
  pub backoff : Bytes → Repair

pub data LockReply : Type 0 where
  taken held lock_error : LockReply

-- What happens to one member: the answers of its lock and its scans, and which calls fail.
pub record Attempt : Type 0 where
  pub lock : LockReply
  pub scans : ℕ → List Page
  pub set_marker_fails : Bool
  pub hset_fails : Bool
  pub clear_fails : Bool
  pub reset_fails : Bool
  pub unmark_fails : Bool
  pub add_fails : Bool

pub data Outcome : Type 0 where
  repaired contended failed : Outcome

-- SREM of a member
unfoldable pub remove : Bytes → List Bytes → List Bytes
remove m = keep (λ x. not (bytes_eq m x))

clear_member : Attempt → Bytes → World → World
clear_member a m w = if a.clear_fails then w else record w { dirty = remove m w.dirty }

-- The deferred calls: the marker is deleted.
unmark : Attempt → Bytes → World → World
unmark a marker w = if a.unmark_fails then w else record w { marked = update w.marked marker false }

mark : Attempt → Bytes → World → World
mark a marker w =
    if a.set_marker_fails then w else record w { marked = update w.marked marker true }

finish_repair : Attempt → Bytes → World → Outcome × World
unfolding clear_member
finish_repair a m w =
    if a.clear_fails
    then (failed, w)
    else let w' = clear_member a m w in
      (
        repaired,
        record w' { backoff = update w'.backoff m (reset_backoff a.reset_fails (w'.backoff m)) },
      )

store_repaired : Attempt → Bytes → Bytes → Option Counts → World → Outcome × World
unfolding finish_repair
store_repaired a m key none w = (failed, w)
store_repaired a m key (some counts) w =
    if a.hset_fails
    then (failed, w)
    else finish_repair a m (record w { sds = update w.sds key (set_fields counts (w.sds key)) })

unmarked : Attempt → Bytes → Outcome × World → Outcome × World
unfolding unmark
unmarked a marker (o, w) = (o, unmark a marker w)

locked_repair : LockReply → Attempt → Bytes → Bytes → Bytes → World → Outcome × World
unfolding store_repaired unmarked mark
locked_repair lock_error a m key marker w = (failed, w)
locked_repair held a m key marker w = (contended, w)
locked_repair taken a m key marker w =
    unmarked a marker
      (store_repaired a m key (build_snapshot_from_bitmap w.redis.bits a.scans) (mark a marker w))

parsed_repair : Option (Bytes × Bytes) → Attempt → Bytes → World → Outcome × World
unfolding locked_repair clear_member
parsed_repair none a m w = (if a.clear_fails then failed else repaired, clear_member a m w)
parsed_repair (some (entity_type, entity_id)) a m w =
    locked_repair a.lock a m (sds_key entity_type entity_id)
      (rebuild_marker_key entity_type entity_id) w

-- repairDirtyMember
unfoldable pub repair_dirty_member : Attempt → Bytes → World → Outcome × World
unfolding parsed_repair
repair_dirty_member a m w = parsed_repair (parse_dirty_member m) a m w

-- A member whose repair failed is added again, unless its lock was held.
unfoldable pub after_repair : Attempt → Bytes → Outcome × World → World
after_repair a m (repaired, w) = w
after_repair a m (contended, w) = w
after_repair a m (failed, w) = if a.add_fails then w else record w { dirty = add_entity m w.dirty }

-- repairDirtyMembers, on the members that were popped
unfoldable pub repair_members : List (Bytes × Attempt) → World → World
unfolding repair_dirty_member
repair_members [] w = w
repair_members ((m, a) ∷ rest) w =
    repair_members rest (after_repair a m (repair_dirty_member a m w))

remove_popped : List (Bytes × Attempt) → List Bytes → List Bytes
remove_popped [] dirty = dirty
remove_popped ((m, a) ∷ rest) dirty = remove_popped rest (remove m dirty)

-- repairDirtyMembers; `none` is a failing SPOP, and a limit of 0 pops nothing.
unfoldable pub repair_dirty_members : ℕ → Option (List (Bytes × Attempt)) → World → World
unfolding repair_members remove_popped
repair_dirty_members limit none w = w
repair_dirty_members limit (some popped) w =
    if limit == 0
    then w
    else repair_members popped (record w { dirty = remove_popped popped w.dirty })

-- repairAsLeader
unfoldable pub repair_as_leader : LockReply → ℕ → Option (List (Bytes × Attempt)) → World → World
unfolding repair_dirty_members
repair_as_leader lock_error limit popped w = w
repair_as_leader held limit popped w = w
repair_as_leader taken limit popped w = repair_dirty_members limit popped w
