-- ===== src/Counter/Publish/Balance.antt =====
-- What publishCounterEvent of internal/counter/failure.go adds to the account of the events.
use zhiguang_go.Base.{
  ℕ, ◌≡◌, sym, ap, subst, if_true, if_false, codes, ◌∙◌, ◌⊎◌, inl, inr, Bool, true, false, Option,
  none, some, List, [], ◌∷◌, ◌++◌, arith, ◌==◌, if◌then◌else◌, All, Bytes, bytes_eq_refl,
}
use zhiguang_go.Base.Int.{ℤ, pos, ◌+ℤ◌, +ℤ_comm, +ℤ_assoc, int_laws}
use zhiguang_go.Counter.Model.{CounterEvent, dirty_member}
use zhiguang_go.Counter.Batch.{contains, add_entity}
use zhiguang_go.Counter.Batch.Contiguity.{contains-add_entity}
use zhiguang_go.Counter.Publish.{
  FailedMessage, Publisher, Publishing, mark_dirty, record_failed_event, after_publish,
  publish_counter_event, failed_message,
}

-- What the events of one user say in sum.
unfoldable pub sum_deltas : ℕ → List CounterEvent → ℤ
sum_deltas v [] = pos 0
sum_deltas v (e ∷ es) = if e.user_id == v then e.delta +ℤ sum_deltas v es else sum_deltas v es

unfoldable pub sum_failures : ℕ → List FailedMessage → ℤ
sum_failures v [] = pos 0
sum_failures v (f ∷ fs) =
    if f.payload.user_id == v then f.delta +ℤ sum_failures v fs else sum_failures v fs

sum_deltas-append :
    (v : ℕ) (es : List CounterEvent) (e : CounterEvent)
    → sum_deltas v (es ++ e ∷ [])
      ≡ (if e.user_id == v then sum_deltas v es +ℤ e.delta else sum_deltas v es)
unfolding sum_deltas
sum_deltas-append v [] e = ground (arith, +ℤ_comm e.delta (pos 0))
sum_deltas-append v (x ∷ es) e =
    ground (arith, sum_deltas-append v es e, +ℤ_assoc x.delta (sum_deltas v es) e.delta)

sum_failures-append :
    (v : ℕ) (fs : List FailedMessage) (f : FailedMessage)
    → sum_failures v (fs ++ f ∷ [])
      ≡ (if f.payload.user_id == v then sum_failures v fs +ℤ f.delta else sum_failures v fs)
unfolding sum_failures
sum_failures-append v [] f = ground (arith, +ℤ_comm f.delta (pos 0))
sum_failures-append v (x ∷ fs) f =
    ground (arith, sum_failures-append v fs f, +ℤ_assoc x.delta (sum_failures v fs) f.delta)

-- What is accounted for a user: the events that the producer accepted, and those recorded as failed.
unfoldable pub accounted : ℕ → Publisher → ℤ
accounted v s = sum_deltas v s.published +ℤ sum_failures v s.failures

-- The publication succeeds, or what follows its failure does.
abbrev pub IsKept : Publishing → Type 0
IsKept p = (p.error ≡ none) ⊎ ((p.mark_fails ≡ false) × (p.record_fails ≡ false))

-- the entity of each recorded failure is in the dirty set
abbrev pub AreMarked : List FailedMessage → List Bytes → Type 0
AreMarked fs dirty = All (λ f. contains (dirty_member f.entity_type f.entity_id) dirty ≡ true) fs

AreMarked-add_entity :
    (fs : List FailedMessage) (dirty : List Bytes) (m : Bytes)
    → AreMarked fs dirty
    → AreMarked fs (add_entity m dirty)
AreMarked-add_entity [] dirty m h = tt
AreMarked-add_entity (f ∷ fs) dirty m (h, hs) = (
  contains-add_entity (dirty_member f.entity_type f.entity_id) m dirty ∙ ground (arith, h),
  AreMarked-add_entity fs dirty m hs,
)

All-snoc :
    (P : FailedMessage → Type 0) (fs : List FailedMessage) (f : FailedMessage)
    → All P fs
    → P f
    → All P (fs ++ f ∷ [])
All-snoc P [] f h p = (p, tt)
All-snoc P (x ∷ fs) f (h, hs) p = (h, All-snoc P fs f hs p)

-- There is a producer and a recorder, and every recorded failure left a mark.
pub record IsReady (s : Publisher) : Type 0 where
  pub producing : s.has_producer ≡ true
  pub recording : s.has_recorder ≡ true
  pub dirty_marked : AreMarked s.failures s.dirty

-- one event more is accounted for its user
abbrev Accounts : CounterEvent → Publisher → Publisher → Type 0
Accounts e s s' =
    (v : ℕ) → accounted v s' ≡ (if e.user_id == v then accounted v s +ℤ e.delta else accounted v s)

add_left :
    (c : Bool) (a b d x : ℤ)
    → x ≡ (if c then a +ℤ d else a)
    → x +ℤ b ≡ (if c then a +ℤ b +ℤ d else a +ℤ b)
add_left true a b d x h = ap (λ y. y +ℤ b) h ∙ omega int_laws
add_left false a b d x h = ap (λ y. y +ℤ b) h

add_right :
    (c : Bool) (a b d x : ℤ)
    → x ≡ (if c then b +ℤ d else b)
    → a +ℤ x ≡ (if c then a +ℤ b +ℤ d else a +ℤ b)
add_right true a b d x h = ap (λ y. a +ℤ y) h ∙ omega int_laws
add_right false a b d x h = ap (λ y. a +ℤ y) h

module _ (p : Publishing) (e : CounterEvent) (s : Publisher) (ready : IsReady s) where
  accepted : Accounts e s (after_publish p e s none) × IsReady (after_publish p e s none)
  unfolding after_publish accounted
  accepted = (
    λ v.
        add_left (e.user_id == v) (sum_deltas v s.published) (sum_failures v s.failures) e.delta _
          (sum_deltas-append v s.published e),
    record {
      producing = ready.producing;
      recording = ready.recording;
      dirty_marked = ready.dirty_marked;
    },
  )

  abbrev marked : Publisher
  marked = record s { dirty = add_entity (dirty_member e.entity_type e.entity_id) s.dirty }

  abbrev recorded : Bytes → Publisher
  recorded cause = record marked {
    failures = s.failures ++ failed_message (codes "publish") e cause marked ∷ [];
  }

  recorded_lem :
      (cause : Bytes)
      → p.mark_fails ≡ false
      → p.record_fails ≡ false
      → after_publish p e s (some cause) ≡ recorded cause
  unfolding after_publish mark_dirty record_failed_event
  recorded_lem cause marks records =
      ap (record_failed_event p.record_fails (codes "publish") e cause) (if_false _ _ marks)
      ∙ (if_true _ _ ready.recording ∙ if_false _ _ records)

  refused : (cause : Bytes) → Accounts e s (recorded cause) × IsReady (recorded cause)
  unfolding accounted failed_message
  refused cause = (
    λ v.
        add_right (e.user_id == v) (sum_deltas v s.published) (sum_failures v s.failures) e.delta _
          (sum_failures-append v s.failures (failed_message (codes "publish") e cause marked)),
    record {
      producing = ready.producing;
      recording = ready.recording;
      dirty_marked =
          All-snoc _ s.failures (failed_message (codes "publish") e cause marked)
            (AreMarked-add_entity s.failures s.dirty (dirty_member e.entity_type e.entity_id)
              ready.dirty_marked)
            (contains-add_entity _ _ s.dirty
              ∙ ground (arith, bytes_eq_refl (dirty_member e.entity_type e.entity_id)));
    },
  )

  after_publish-accounted :
      (o : Option Bytes)
      → (o ≡ none) ⊎ ((p.mark_fails ≡ false) × (p.record_fails ≡ false))
      → Accounts e s (after_publish p e s o) × IsReady (after_publish p e s o)
  after_publish-accounted none kept = accepted
  after_publish-accounted (some cause) (inl h) = absurd (cc)
  after_publish-accounted (some cause) (inr (h, k)) =
      subst (λ s'. Accounts e s s' × IsReady s') (sym (recorded_lem cause h k)) (refused cause)

  -- With a producer and a recorder, an event whose publication succeeds, or is marked and recorded when
  -- it fails, is accounted once for its user, and a recorded failure has its mark.
  pub publish_counter_event-accounted :
      IsKept p → Accounts e s (publish_counter_event p e s) × IsReady (publish_counter_event p e s)
  unfolding publish_counter_event
  publish_counter_event-accounted kept =
      subst (λ s'. Accounts e s s' × IsReady s') (sym (if_true _ _ ready.producing))
        (after_publish-accounted p.error kept)
