-- ===== src/Counter/Repair/Cleaning.antt =====
-- What the repair of one member does to the dirty set, and how it ends.
use zhiguang_go.Base.{
  ◌≡◌, refl, ap, ◌∙◌, subst, ◌⊎◌, inl, inr, not, ◌&&◌, Option, none, some, List, [], ◌∷◌, arith,
  Bool-cases, Option-cases, Bytes, bytes_eq, bytes_eq_iff,
}
use zhiguang_go.Counter.Model.{parse_dirty_member}
use zhiguang_go.Counter.Batch.{contains}
use zhiguang_go.Counter.Toggle.{Redis}
use zhiguang_go.Counter.Rebuild.{Counts, build_snapshot_from_bitmap}
use zhiguang_go.Counter.Repair.{
  World, LockReply, taken, held, lock_error, Attempt, Outcome, remove, clear_member, unmark, mark,
  unmarked, finish_repair, store_repaired, locked_repair, parsed_repair, repair_dirty_member,
}

pub contains-remove :
    (k m : Bytes) (xs : List Bytes)
    → contains k (remove m xs) ≡ (not (bytes_eq m k) && contains k xs)
unfolding contains remove
contains-remove k m [] = ground arith
contains-remove k m (x ∷ xs) = elim (Bool-cases (bytes_eq m x)) [
  | inl b ↦
      rw (b, contains-remove k m xs)
        (ground (arith, bytes_eq_iff m x, bytes_eq_iff k x, bytes_eq_iff m k, b))
  | inr b ↦
      rw (b, contains-remove k m xs)
        (ground (arith, bytes_eq_iff m x, bytes_eq_iff k x, bytes_eq_iff m k, b))
]

pub bytes_eq_sym : (k m : Bytes) → bytes_eq k m ≡ bytes_eq m k
bytes_eq_sym k m = ground (arith, bytes_eq_iff k m, bytes_eq_iff m k)

-- All that a repair does to the dirty set is to clear the member.
abbrev pub Cleans : Bytes → List Bytes → Redis → Outcome × World → Type 0
Cleans m dirty r (o, w) = ((w.dirty ≡ dirty) ⊎ (w.dirty ≡ remove m dirty)) × (w.redis ≡ r)

finish_repair-Cleans :
    (a : Attempt) (m : Bytes) (w : World) → Cleans m w.dirty w.redis (finish_repair a m w)
unfolding finish_repair clear_member
finish_repair-Cleans a m w = elim (Bool-cases a.clear_fails) [
  | inl b ↦ rw (b) (inl refl, refl)
  | inr b ↦ rw (b) (inr refl, refl)
]

store_repaired-Cleans :
    (a : Attempt) (m key : Bytes) (o : Option Counts) (w : World)
    → Cleans m w.dirty w.redis (store_repaired a m key o w)
unfolding store_repaired
store_repaired-Cleans a m key none w = (inl refl, refl)
store_repaired-Cleans a m key (some counts) w = elim (Bool-cases a.hset_fails) [
  | inl b ↦ rw (b) (inl refl, refl)
  | inr b ↦ rw (b) (finish_repair-Cleans a m _)
]

unmarked-Cleans :
    (a : Attempt) (m marker : Bytes) (w : World) (x : Outcome × World)
    → Cleans m w.dirty w.redis x
    → Cleans m w.dirty w.redis (unmarked a marker x)
unfolding unmarked unmark
unmarked-Cleans a m marker w (o, w') h = elim (Bool-cases a.unmark_fails) [
  | inl b ↦ rw (b) h
  | inr b ↦ rw (b) h
]

mark-dirty : (a : Attempt) (marker : Bytes) (w : World) → (mark a marker w).dirty ≡ w.dirty
unfolding mark
mark-dirty a marker w = ground arith

mark-redis : (a : Attempt) (marker : Bytes) (w : World) → (mark a marker w).redis ≡ w.redis
unfolding mark
mark-redis a marker w = ground arith

locked_repair-Cleans :
    (l : LockReply) (a : Attempt) (m key marker : Bytes) (w : World)
    → Cleans m w.dirty w.redis (locked_repair l a m key marker w)
unfolding locked_repair
locked_repair-Cleans lock_error a m key marker w = (inl refl, refl)
locked_repair-Cleans held a m key marker w = (inl refl, refl)
locked_repair-Cleans taken a m key marker w =
    let x = locked_repair taken a m key marker w in
    subst (λ d. Cleans m d w.redis x) (mark-dirty a marker w)
      (subst (λ r. Cleans m (mark a marker w).dirty r x) (mark-redis a marker w)
        (unmarked-Cleans a m marker (mark a marker w)
          (store_repaired a m key (build_snapshot_from_bitmap w.redis.bits a.scans)
            (mark a marker w))
          (store_repaired-Cleans a m key (build_snapshot_from_bitmap w.redis.bits a.scans)
            (mark a marker w))))

parsed_repair-Cleans :
    (o : Option (Bytes × Bytes)) (a : Attempt) (m : Bytes) (w : World)
    → Cleans m w.dirty w.redis (parsed_repair o a m w)
unfolding parsed_repair clear_member
parsed_repair-Cleans none a m w = elim (Bool-cases a.clear_fails) [
  | inl b ↦ rw (b) (inl refl, refl)
  | inr b ↦ rw (b) (inr refl, refl)
]
parsed_repair-Cleans (some (t, i)) a m w = locked_repair-Cleans a.lock a m _ _ w

pub repair_dirty_member-Cleans :
    (a : Attempt) (m : Bytes) (w : World) → Cleans m w.dirty w.redis (repair_dirty_member a m w)
unfolding repair_dirty_member
repair_dirty_member-Cleans a m w = parsed_repair-Cleans (parse_dirty_member m) a m w

store_repaired_outcome :
    (a : Attempt) (m key : Bytes) (o : Option Counts) (w w' : World)
    → (store_repaired a m key o w).0 ≡ (store_repaired a m key o w').0
unfolding store_repaired finish_repair
store_repaired_outcome a m key none w w' = refl
store_repaired_outcome a m key (some counts) w w' = ground arith

locked_repair_outcome :
    (l : LockReply) (a : Attempt) (m key marker : Bytes) (w w' : World)
    → w.redis ≡ w'.redis
    → (locked_repair l a m key marker w).0 ≡ (locked_repair l a m key marker w').0
unfolding locked_repair unmarked
locked_repair_outcome lock_error a m key marker w w' e = refl
locked_repair_outcome held a m key marker w w' e = refl
locked_repair_outcome taken a m key marker w w' e =
    ap
      (λ r.
        (store_repaired a m key (build_snapshot_from_bitmap r.bits a.scans) (mark a marker w)).0)
      e
    ∙ store_repaired_outcome a m key _ _ _

-- How the repair of a member ends does not depend on the dirty set.
pub repair_dirty_member_outcome :
    (a : Attempt) (m : Bytes) (w w' : World)
    → w.redis ≡ w'.redis
    → (repair_dirty_member a m w).0 ≡ (repair_dirty_member a m w').0
unfolding repair_dirty_member parsed_repair
repair_dirty_member_outcome a m w w' e = elim (Option-cases (parse_dirty_member m)) [
  | inl n ↦ rw (n) refl
  | inr (p, s) ↦ rw (s) (locked_repair_outcome a.lock a m _ _ w w' e)
]
