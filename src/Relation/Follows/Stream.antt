-- ===== src/Relation/Follows/Stream.antt =====
-- Follow and Unfollow of internal/relation: the two tables agree, and the events add up to them.
use zhiguang_go.Base.{
  if_true, if_false, ℕ, ◌≡◌, refl, sym, ap, ◌∙◌, inl, inr, Bool, true, false, ◌&&◌, ◌||◌, Option,
  none, some, List, [], ◌∷◌, ◌++◌, arith, ◌==◌, if◌then◌else◌, Bool-cases,
}
use mathlib.Core.Path.{ap₂}
use zhiguang_go.Base.Int.{ℤ, pos, negsuc, ◌+ℤ◌, +ℤ_assoc, +ℤ_comm}
use zhiguang_go.Relation.Follows.{
  Table, is_active, set_row, upsert, cancel, EventType, follow_created, follow_canceled,
  OutboxEvent, World, Faults, Reply, follow_tx, follow_allowed, follow, unfollow,
}

-- A call of a user, with the failures that it meets.
pub data Call : Type 0 where
  following_call : Faults → ℕ → ℕ → ℕ → ℕ → Call
  unfollowing_call : Faults → ℕ → ℕ → Call

pub run : Option (ℕ × ℕ) → List Call → World → World
run cfg [] w = w
run cfg (following_call f now id from to ∷ cs) w = run cfg cs (follow cfg f now id from to w).1
run cfg (unfollowing_call f from to ∷ cs) w = run cfg cs (unfollow f from to w).1

unfoldable pub weight : Bool → ℤ
weight true = pos 1
weight false = pos 0

pub delta : EventType → ℤ
delta follow_created = pos 1
delta follow_canceled = negsuc 0

-- What the events of a pair say in sum.
unfoldable pub sum_events : ℕ → ℕ → List OutboxEvent → ℤ
sum_events a b [] = pos 0
sum_events a b (e ∷ es) =
    if (e.from_user == a) && (e.to_user == b)
    then delta e.event_type +ℤ sum_events a b es
    else sum_events a b es

-- The two tables have the same rows, and the events of each pair add up to its row.
pub record IsInStep (w : World) : Type 0 where
  pub mirrored : (a b : ℕ) → w.following a b ≡ w.follower b a
  pub balanced : (a b : ℕ) → sum_events a b w.outbox ≡ weight (is_active (w.following a b))

sum_events-append :
    (a b : ℕ) (es : List OutboxEvent) (e : OutboxEvent)
    → sum_events a b (es ++ e ∷ []) ≡ (
        if (e.from_user == a) && (e.to_user == b)
        then sum_events a b es +ℤ delta e.event_type
        else sum_events a b es)
unfolding sum_events
sum_events-append a b [] e = ground (arith, +ℤ_comm (delta e.event_type) (pos 0))
sum_events-append a b (x ∷ es) e = ground (
  arith,
  sum_events-append a b es e,
  +ℤ_assoc (delta x.event_type) (sum_events a b es) (delta e.event_type),
)

set_row-mirrored :
    (a b : ℕ) (v : Bool) (t u : Table)
    → ((x y : ℕ) → t x y ≡ u y x)
    → (x y : ℕ) → set_row a b v t x y ≡ set_row b a v u y x
unfolding set_row
set_row-mirrored a b v t u h x y = elim (Bool-cases (a == x)) [
  | inl p ↦ elim (Bool-cases (b == y)) [ inl q ↦ rw (p, q) refl | inr q ↦ rw (p, q) (h x y) ]
  | inr p ↦ elim (Bool-cases (b == y)) [ inl q ↦ rw (p, q) (h x y) | inr q ↦ rw (p, q) (h x y) ]
]

both : (a b x y : ℕ) → (a == x) && (b == y) ≡ true → (a ≡ x) × (b ≡ y)
both a b x y h = (ground (arith, h), ground (arith, h))

module _ (a b : ℕ) (v : Bool) (t : Table) (x y : ℕ) where
  set_row_here : (a == x) && (b == y) ≡ true → set_row a b v t x y ≡ some v
  unfolding set_row
  set_row_here h = rw (h) refl

  set_row_there : (a == x) && (b == y) ≡ false → set_row a b v t x y ≡ t x y
  unfolding set_row
  set_row_there h = rw (h) refl

-- A row that is turned on or off, with its event.
stored :
    (w : World) (a b : ℕ) (v : Bool) (e : OutboxEvent)
    → IsInStep w
    → e.from_user ≡ a
    → e.to_user ≡ b
    → weight (is_active (w.following a b)) +ℤ delta e.event_type ≡ weight v
    → IsInStep (record w {
      following = set_row a b v w.following;
      follower = set_row b a v w.follower;
      outbox = w.outbox ++ e ∷ [];
    })
stored w a b v e i p q d = record {
  mirrored = set_row-mirrored a b v w.following w.follower i.mirrored;
  balanced = balanced_row;
}
  where
    balanced_row :
        (x y : ℕ)
        → sum_events x y (w.outbox ++ e ∷ []) ≡ weight (is_active (set_row a b v w.following x y))
    balanced_row x y = elim (Bool-cases ((a == x) && (b == y))) [
      | inl h ↦
          let here : (a ≡ x) × (b ≡ y) = both a b x y h in
          let matches : (e.from_user == x) && (e.to_user == y) ≡ true =
            ap (λ k. (k == x) && (e.to_user == y)) p ∙ (ap (λ k. (a == x) && (k == y)) q ∙ h) in
          sum_events-append x y w.outbox e
          ∙ (if_true _ _ matches
              ∙ (ap (λ z. z +ℤ delta e.event_type)
                    (sym (ap₂ (λ j k. sum_events j k w.outbox) here.0 here.1) ∙ i.balanced a b)
                  ∙ (d
                      ∙ sym
                          (ap (λ z. weight (is_active z)) (set_row_here a b v w.following x y h)))))
      | inr h ↦
          let matches : (e.from_user == x) && (e.to_user == y) ≡ false =
            ap (λ k. (k == x) && (e.to_user == y)) p ∙ (ap (λ k. (a == x) && (k == y)) q ∙ h) in
          sum_events-append x y w.outbox e
          ∙ (if_false _ _ matches
              ∙ (i.balanced x y
                  ∙ sym (ap (λ z. weight (is_active z)) (set_row_there a b v w.following x y h))))
    ]

off_on : weight false +ℤ delta follow_created ≡ weight true
unfolding weight delta ◌+ℤ◌
off_on = refl

on_off : weight true +ℤ delta follow_canceled ≡ weight false
unfolding weight delta ◌+ℤ◌
on_off = refl

-- The transaction of Follow.
follow_tx-IsInStep :
    (f : Faults) (id a b : ℕ) (w : World) → IsInStep w → IsInStep (follow_tx f id a b w).1
unfolding follow_tx upsert
follow_tx-IsInStep f id a b w i = elim (Bool-cases (f.first || f.second)) [
  | inl p ↦ rw (p) i
  | inr p ↦ elim (Bool-cases (is_active (w.following a b))) [
    | inl q ↦ rw (p, q) i
    | inr q ↦ elim (Bool-cases f.commit) [
      | inl c ↦ rw (p, q, c) i
      | inr c ↦
          let q' : is_active (w.follower b a) ≡ false = ap is_active (sym (i.mirrored a b)) ∙ q in
          rw (p, q, q', c)
            (stored w a b true
              (record {
                aggregate_id = some id;
                event_type = follow_created;
                from_user = a;
                to_user = b;
              })
              i refl refl (ap (λ z. weight z +ℤ delta follow_created) q ∙ off_on))
    ]
  ]
]

unfollow-IsInStep : (f : Faults) (a b : ℕ) (w : World) → IsInStep w → IsInStep (unfollow f a b w).1
unfolding unfollow cancel
unfollow-IsInStep f a b w i = elim (Bool-cases f.first) [
  | inl p ↦ rw (p) i
  | inr p ↦ elim (Bool-cases (is_active (w.following a b))) [
    | inr q ↦ rw (p, q) i
    | inl q ↦ elim (Bool-cases (f.second || f.commit)) [
      | inl c ↦ rw (p, q, c) i
      | inr c ↦
          let q' : is_active (w.follower b a) ≡ true = ap is_active (sym (i.mirrored a b)) ∙ q in
          rw (p, q, q', c)
            (stored w a b false
              (record {
                aggregate_id = none;
                event_type = follow_canceled;
                from_user = a;
                to_user = b;
              })
              i refl refl (ap (λ z. weight z +ℤ delta follow_canceled) q ∙ on_off))
    ]
  ]
]

follow_allowed-IsInStep :
    (f : Faults) (id a b : ℕ) (allowed : Bool) (w : World)
    → IsInStep w
    → IsInStep (follow_allowed f id a b allowed w).1
unfolding follow_allowed
follow_allowed-IsInStep f id a b false w i = i
follow_allowed-IsInStep f id a b true w i = follow_tx-IsInStep f id a b w i

follow-IsInStep :
    (cfg : Option (ℕ × ℕ)) (f : Faults) (now id a b : ℕ) (w : World)
    → IsInStep w
    → IsInStep (follow cfg f now id a b w).1
unfolding follow
follow-IsInStep cfg f now id a b w i = elim (Bool-cases f.eval) [
  | inl e ↦ rw (e) i
  | inr e ↦ if_step _ _ e (
      follow_allowed-IsInStep f id a b _ _
        (record { mirrored = i.mirrored; balanced = i.balanced }))
]
  where
    if_step :
        {c : Bool} (x y : Reply × World)
        → c ≡ false
        → IsInStep y.1
        → IsInStep (if c then x else y).1
    if_step x y h k = rw (h) k

-- From a state in which this holds, and after any calls of Follow and Unfollow, whichever statements fail and whichever calls are refused by
-- the bucket, the tables of the followed and of the followers have the same rows, and for each pair of
-- users the events of the outbox, 1 for each that creates a relation and -1 for each that cancels one,
-- add up to whether the one follows the other.
pub run-IsInStep :
    (cfg : Option (ℕ × ℕ)) (cs : List Call) (w : World) → IsInStep w → IsInStep (run cfg cs w)
unfolding run
run-IsInStep cfg [] w i = i
run-IsInStep cfg (following_call f now id from to ∷ cs) w i =
    run-IsInStep cfg cs (follow cfg f now id from to w).1 (follow-IsInStep cfg f now id from to w i)
run-IsInStep cfg (unfollowing_call f from to ∷ cs) w i =
    run-IsInStep cfg cs (unfollow f from to w).1 (unfollow-IsInStep f from to w i)
