-- ===== src/Counter/Repair/Accounts.antt =====
-- What becomes of the members that the repair pops off the dirty set.
use zhiguang_go.Base.{
  ℕ, ◌<◌, ◌≡◌, refl, sym, ap, ◌∙◌, subst, ◌⊎◌, inl, inr, Bool, true, false, not, ◌&&◌, some, List,
  [], ◌∷◌, arith, ◌==◌, Bool-cases, All, Bytes, bytes_eq, bytes_eq_refl,
}
use zhiguang_go.Counter.Batch.{contains}
use zhiguang_go.Counter.Batch.Contiguity.{contains-add_entity}
use zhiguang_go.Counter.Toggle.{Redis}
use zhiguang_go.Counter.Repair.{
  World, Attempt, Outcome, repaired, contended, failed, remove, repair_dirty_member, after_repair,
  repair_members, remove_popped, repair_dirty_members,
}
use zhiguang_go.Counter.Repair.Cleaning.{
  contains-remove, bytes_eq_sym, Cleans, repair_dirty_member-Cleans, repair_dirty_member_outcome,
}

abbrev pub is_failed : Outcome → Bool
is_failed repaired = false
is_failed contended = false
is_failed failed = true

-- What a member's repair leaves of the dirty set, for the other members and for itself.
abbrev Leaves : Attempt → Bytes → List Bytes → Redis → Bool → World → Type 0
Leaves a m dirty r fails w =
    ((k : Bytes) → bytes_eq m k ≡ false → contains k w.dirty ≡ contains k dirty)
    × (contains m dirty ≡ false → contains m w.dirty ≡ (fails && not a.add_fails))
    × (w.redis ≡ r)

cleaned_other :
    (m k : Bytes) (dirty d : List Bytes)
    → (d ≡ dirty) ⊎ (d ≡ remove m dirty)
    → bytes_eq m k ≡ false
    → contains k d ≡ contains k dirty
cleaned_other m k dirty d (inl e) ne = ap (contains k) e
cleaned_other m k dirty d (inr e) ne =
    ap (contains k) e ∙ contains-remove k m dirty ∙ ground (arith, ne)

cleaned_self :
    (m : Bytes) (dirty d : List Bytes)
    → (d ≡ dirty) ⊎ (d ≡ remove m dirty)
    → contains m dirty ≡ false
    → contains m d ≡ false
cleaned_self m dirty d (inl e) out = ap (contains m) e ∙ out
cleaned_self m dirty d (inr e) out =
    ap (contains m) e ∙ contains-remove m m dirty ∙ ground (arith, out)

after_repair-Leaves :
    (a : Attempt) (m : Bytes) (dirty : List Bytes) (r : Redis) (x : Outcome × World)
    → Cleans m dirty r x
    → Leaves a m dirty r (is_failed x.0) (after_repair a m x)
unfolding after_repair
after_repair-Leaves a m dirty r (repaired, w) (c, e) =
    ((λ k ne. cleaned_other m k dirty w.dirty c ne), (λ out. cleaned_self m dirty w.dirty c out), e)
after_repair-Leaves a m dirty r (contended, w) (c, e) =
    ((λ k ne. cleaned_other m k dirty w.dirty c ne), (λ out. cleaned_self m dirty w.dirty c out), e)
after_repair-Leaves a m dirty r (failed, w) (c, e) = elim (Bool-cases a.add_fails) [
  | inl b ↦ rw (b) (
    (λ k ne. cleaned_other m k dirty w.dirty c ne),
    (λ out. cleaned_self m dirty w.dirty c out),
    e,
  )
  | inr b ↦ rw (b) (
    (λ k ne.
        contains-add_entity k m w.dirty
        ∙ ground (arith, cleaned_other m k dirty w.dirty c ne, bytes_eq_sym k m, ne)),
    (λ out. contains-add_entity m m w.dirty ∙ ground (arith, bytes_eq_refl m)),
    e,
  )
]

abbrev pub Popped : Type 0
Popped = List (Bytes × Attempt)

-- SPOP takes each member once.
abbrev pub AreDistinct : Popped → Type 0
AreDistinct [] = Unit
AreDistinct ((m, a) ∷ rest) = All (λ p. bytes_eq m p.0 ≡ false) rest × AreDistinct rest

-- A popped member is dirty exactly if its repair failed and it could be added again.
abbrev pub IsAccounted : World → World → Bytes × Attempt → Type 0
IsAccounted w after (m, a) =
    contains m after.dirty ≡ (is_failed (repair_dirty_member a m w).0 && not a.add_fails)

repair_members-others :
    (k : Bytes) (popped : Popped) (w : World)
    → All (λ p. bytes_eq k p.0 ≡ false) popped
    → contains k (repair_members popped w).dirty ≡ contains k w.dirty
unfolding repair_members
repair_members-others k [] w h = refl
repair_members-others k ((m, a) ∷ rest) w (ne, h) =
    let left = after_repair-Leaves a m w.dirty w.redis _ (repair_dirty_member-Cleans a m w) in
    repair_members-others k rest _ h ∙ left.0 k (bytes_eq_sym m k ∙ ne)

All-IsAccounted :
    (w w' after : World) (popped : Popped)
    → w.redis ≡ w'.redis
    → All (IsAccounted w' after) popped
    → All (IsAccounted w after) popped
All-IsAccounted w w' after [] e h = tt
All-IsAccounted w w' after ((m, a) ∷ rest) e (h, hs) = (
  h ∙ ap (λ o. is_failed o && not a.add_fails) (sym (repair_dirty_member_outcome a m w w' e)),
  All-IsAccounted w w' after rest e hs,
)

All-absent :
    (m : Bytes) (xs ys : List Bytes) (popped : Popped)
    → ((k : Bytes) → bytes_eq m k ≡ false → contains k ys ≡ contains k xs)
    → All (λ p. bytes_eq m p.0 ≡ false) popped
    → All (λ p. contains p.0 xs ≡ false) popped
    → All (λ p. contains p.0 ys ≡ false) popped
All-absent m xs ys [] same h out = tt
All-absent m xs ys ((k, a) ∷ rest) same (ne, h) (o, out) =
    (same k ne ∙ o, All-absent m xs ys rest same h out)

repair_members-accounts :
    (popped : Popped) (w : World)
    → AreDistinct popped
    → All (λ p. contains p.0 w.dirty ≡ false) popped
    → All (IsAccounted w (repair_members popped w)) popped
unfolding repair_members
repair_members-accounts [] w d out = tt
repair_members-accounts ((m, a) ∷ rest) w (ne, d) (o, out) =
    let w' = after_repair a m (repair_dirty_member a m w) in
    let left = after_repair-Leaves a m w.dirty w.redis _ (repair_dirty_member-Cleans a m w) in
    let later =
      repair_members-accounts rest w' d (All-absent m w.dirty w'.dirty rest left.0 ne out) in
    (
      repair_members-others m rest w' ne ∙ left.1 o,
      All-IsAccounted w w' (repair_members rest w') rest (sym left.2) later,
    )

contains-remove_popped :
    (k : Bytes) (popped : Popped) (dirty : List Bytes)
    → contains k dirty ≡ false
    → contains k (remove_popped popped dirty) ≡ false
unfolding remove_popped
contains-remove_popped k [] dirty out = out
contains-remove_popped k ((m, a) ∷ rest) dirty out =
    contains-remove_popped k rest (remove m dirty) (contains-remove k m dirty ∙ ground (arith, out))

remove_popped-absent :
    (popped : Popped) (dirty : List Bytes)
    → All (λ p. contains p.0 (remove_popped popped dirty) ≡ false) popped
unfolding remove_popped
remove_popped-absent [] dirty = tt
remove_popped-absent ((m, a) ∷ rest) dirty = (
  contains-remove_popped m rest (remove m dirty)
      (contains-remove m m dirty ∙ ground (arith, bytes_eq_refl m)),
  remove_popped-absent rest (remove m dirty),
)

repair_dirty_members_popped :
    (limit : ℕ) (popped : Popped) (w : World)
    → 0 < limit
    → repair_dirty_members limit (some popped) w
      ≡ repair_members popped (record w { dirty = remove_popped popped w.dirty })
unfolding repair_dirty_members
repair_dirty_members_popped limit popped w h =
    let some_limit : (limit == 0) ≡ false = ground arith in rw (some_limit) refl

-- After a round of the repair, a member that SPOP took is in the dirty set exactly if its repair failed
-- and adding it again did not. So a member whose lock is held by another, which is no failure, is in it
-- no longer although it was not repaired.
pub repair_dirty_members-accounts :
    (limit : ℕ) (popped : Popped) (w : World)
    → 0 < limit
    → AreDistinct popped
    → All (IsAccounted w (repair_dirty_members limit (some popped) w)) popped
repair_dirty_members-accounts limit popped w h d =
    let w' = record w { dirty = remove_popped popped w.dirty } in
    subst (λ x. All (IsAccounted w x) popped) (sym (repair_dirty_members_popped limit popped w h))
      (All-IsAccounted w w' (repair_members popped w') popped refl
        (repair_members-accounts popped w' d (remove_popped-absent popped w.dirty)))
