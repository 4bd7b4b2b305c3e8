-- ===== src/Relation/EventProcessor/Delivery.antt =====
-- Deliveries of one event and of several: what is counted, and who is a member.
use zhiguang_go.Base.{
  ℕ, ◌+◌, ◌<◌, ◌≡◌, refl, sym, ap, ◌∙◌, inl, inr, Bool, true, false, Option, none, some, arith,
  Bool-cases, if◌then◌else◌, Bytes, codes, bytes_eq, bytes_eq_refl,
}
use zhiguang_go.Base.Decimal.{format_uint}
use zhiguang_go.Base.Int.{ℤ, ◌+ℤ◌, int_laws}
use zhiguang_go.Counter.UserCounter
use zhiguang_go.Relation.EventProcessor.{
  Result, pos, dedupe_ttl, delta_of, dedupe_key, finish, RelationEvent, Redis, Faults, process,
  process_known, apply_zsets, following_zset_key, followers_zset_key,
}
use zhiguang_go.Counter.UserCounter.{
  marks-apply_follow_delta_once, apply_follow_delta_once_marked, followers_of, following_of,
  apply_follow_delta_once_first, is_live, apply_follow_delta_once,
}

abbrev pub no_faults : Faults
no_faults = record { zset_fails = false; count_fails = false }

abbrev pub is_there : Option ℕ → Bool
is_there none = false
is_there (some score) = true

-- `u` is listed as following `v`, and `v` as followed by `u`
pub follows : Redis → ℕ → ℕ → Bool × Bool
follows r u v = (
  is_there (r.zset (following_zset_key u) (format_uint v)),
  is_there (r.zset (followers_zset_key v) (format_uint u)),
)

abbrev pub created : ℕ → ℕ → ℕ → RelationEvent
created u v id = record {
  event_type = codes "FollowCreated";
  from_user = u;
  to_user = v;
  relation_id = some id;
}

abbrev pub canceled : ℕ → ℕ → RelationEvent
canceled u v = record {
  event_type = codes "FollowCanceled";
  from_user = u;
  to_user = v;
  relation_id = none;
}

process-created :
    (now u v id : ℕ) (r : Redis)
    → process no_faults now (created u v id) r ≡ process_known no_faults now (created u v id) true r
unfolding process bytes_eq
process-created now u v id r = refl

process-canceled :
    (now u v : ℕ) (r : Redis)
    → process no_faults now (canceled u v) r ≡ process_known no_faults now (canceled u v) false r
unfolding process bytes_eq
process-canceled now u v r = refl

counters-zsets :
    (now : ℕ) (evt : RelationEvent) (b : Bool) (r : Redis)
    → (apply_zsets now evt b r).counters ≡ r.counters
unfolding apply_zsets
counters-zsets now evt b r = refl

finish-counters :
    (r : Redis) (x : UserCounter.Result Bool × UserCounter.Redis) → (finish r x).1.counters ≡ x.1
unfolding finish
finish-counters r (UserCounter.ok first, c) = refl
finish-counters r (UserCounter.err, c) = refl

finish-zset :
    (r : Redis) (x : UserCounter.Result Bool × UserCounter.Redis) → (finish r x).1.zset ≡ r.zset
unfolding finish
finish-zset r (UserCounter.ok first, c) = refl
finish-zset r (UserCounter.err, c) = refl

abbrev count_once :
    ℕ → RelationEvent → Bool → UserCounter.Redis → UserCounter.Result Bool × UserCounter.Redis
count_once now evt creates c =
    apply_follow_delta_once false now (dedupe_key evt) dedupe_ttl evt.from_user evt.to_user
      (delta_of creates) c

counters-process_known :
    (now : ℕ) (evt : RelationEvent) (creates : Bool) (r : Redis)
    → (process_known no_faults now evt creates r).1.counters
      ≡ (count_once now evt creates r.counters).1
unfolding process_known apply_zsets
counters-process_known now evt creates r =
    finish-counters (apply_zsets now evt creates r) (count_once now evt creates r.counters)

abbrev marked : Redis → RelationEvent → ℕ → Bool
marked r evt now = is_live (r.counters.marks (dedupe_key evt)) now

-- An event that is delivered again while its marker is there changes no count.
redelivered :
    (now : ℕ) (evt : RelationEvent) (creates : Bool) (r : Redis)
    → marked r evt now ≡ true
    → (process_known no_faults now evt creates r).1.counters ≡ r.counters
redelivered now evt creates r h =
    counters-process_known now evt creates r
    ∙ ap (λ (x : UserCounter.Result Bool × UserCounter.Redis). x.1)
        (apply_follow_delta_once_marked now (dedupe_key evt) dedupe_ttl evt.from_user evt.to_user
          (delta_of creates) r.counters h)

-- An event that is delivered for the first time is counted at both sides, and its marker is there
-- for ten minutes.
record IsCounted (now : ℕ) (evt : RelationEvent) (creates : Bool) (r r' : Redis) : Type 0 where
  pub following :
      following_of r'.counters evt.from_user
      ≡ following_of r.counters evt.from_user +ℤ delta_of creates
  pub followers :
      followers_of r'.counters evt.to_user ≡ followers_of r.counters evt.to_user +ℤ delta_of creates
  pub marks : (later : ℕ) → later < now + dedupe_ttl → marked r' evt later ≡ true

first_delivery :
    (now : ℕ) (evt : RelationEvent) (creates : Bool) (r : Redis)
    → marked r evt now ≡ false
    → IsCounted now evt creates r (process_known no_faults now evt creates r).1
first_delivery now evt creates r h =
    let (done, left, right, keeps) =
      apply_follow_delta_once_first now (dedupe_key evt) dedupe_ttl evt.from_user evt.to_user
        (delta_of creates) r.counters h in
    let after = counters-process_known now evt creates r in
    record {
      following = ap (λ c. following_of c evt.from_user) after ∙ left;
      followers = ap (λ c. followers_of c evt.to_user) after ∙ right;
      marks = λ later l.
          ap (λ (c : UserCounter.Redis). is_live (c.marks (dedupe_key evt)) later) after
          ∙ keeps later l;
    }

-- What an event adds to the counts: 1 for a follow, -1 for an unfollow, and nothing for another type.
abbrev pub delta_named : RelationEvent → ℤ
delta_named evt =
    if bytes_eq evt.event_type (codes "FollowCreated")
    then delta_of true
    else if bytes_eq evt.event_type (codes "FollowCanceled")
    then delta_of false
    else pos 0

-- The counts of the two users, in the second state by `delta` more than in the first.
pub record AreMoved (evt : RelationEvent) (delta : ℤ) (r r' : Redis) : Type 0 where
  pub following :
      following_of r'.counters evt.from_user ≡ following_of r.counters evt.from_user +ℤ delta
  pub followers :
      followers_of r'.counters evt.to_user ≡ followers_of r.counters evt.to_user +ℤ delta

-- A known event that is delivered twice is counted at the first time.
counted_once :
    (now later : ℕ) (evt : RelationEvent) (creates : Bool) (r : Redis)
    → marked r evt now ≡ false
    → later < now + dedupe_ttl
    → AreMoved evt
        (delta_of creates)
        r
        (process_known no_faults later evt creates (process_known no_faults now evt creates r).1).1
counted_once now later evt creates r h l =
    let first = first_delivery now evt creates r h in
    let again =
      redelivered later evt creates (process_known no_faults now evt creates r).1
        (first.marks later l) in
    record {
      following = ap (λ c. following_of c evt.from_user) again ∙ first.following;
      followers = ap (λ c. followers_of c evt.to_user) again ∙ first.followers;
    }

+ℤ_zero : (a : ℤ) → a +ℤ pos 0 ≡ a
unfolding ◌+ℤ◌
+ℤ_zero a = omega int_laws

unmoved : (evt : RelationEvent) (r : Redis) → AreMoved evt (pos 0) r r
unmoved evt r = record {
  following = sym (+ℤ_zero (following_of r.counters evt.from_user));
  followers = sym (+ℤ_zero (followers_of r.counters evt.to_user));
}

-- An event that has no live marker and is delivered twice within ten minutes, with no failing call, is
-- counted once: the following count of the one user and the follower count of the other are by 1 higher
-- for a follow, by 1 lower for an unfollow, and as before for another type of event. The second delivery
-- leaves all counters as they are.
pub process_redelivered :
    (now later : ℕ) (evt : RelationEvent) (r : Redis)
    → marked r evt now ≡ false
    → later < now + dedupe_ttl
    → AreMoved evt
        (delta_named evt)
        r
        (process no_faults later evt (process no_faults now evt r).1).1
      × ((process no_faults later evt (process no_faults now evt r).1).1.counters
          ≡ (process no_faults now evt r).1.counters)
unfolding process
process_redelivered now later evt r h l =
    elim (Bool-cases (bytes_eq evt.event_type (codes "FollowCreated"))) [
      | inl c ↦ rw c (
        counted_once now later evt true r h l,
        redelivered later evt true _ ((first_delivery now evt true r h).marks later l),
      )
      | inr n ↦ rw n (elim (Bool-cases (bytes_eq evt.event_type (codes "FollowCanceled"))) [
        | inl c ↦ rw c (
          counted_once now later evt false r h l,
          redelivered later evt false _ ((first_delivery now evt false r h).marks later l),
        )
        | inr m ↦ rw m (unmoved evt r, refl)
      ])
    ]

marks_of_created :
    (now u v id : ℕ) (r : Redis) (t : ℕ)
    → marked (process_known no_faults now (created u v id) true r).1 (canceled u v) t
      ≡ marked r (canceled u v) t
marks_of_created now u v id r t =
    ap (λ (c : UserCounter.Redis). is_live (c.marks (dedupe_key (canceled u v))) t)
      (counters-process_known now (created u v id) true r)
    ∙ ap (λ (o : Option ℕ). is_live o t)
        (marks-apply_follow_delta_once false now (dedupe_key (created u v id))
          (dedupe_key (canceled u v)) dedupe_ttl u v (pos 1) r.counters
          (unfold dedupe_key bytes_eq in refl))

unlisted :
    (now u v : ℕ) (r : Redis)
    → ◌≡◌ {A = Bool × Bool}
        (
          is_there (
              (apply_zsets now (canceled u v) false r).zset (following_zset_key u) (format_uint v)),
          is_there (
              (apply_zsets now (canceled u v) false r).zset (followers_zset_key v) (format_uint u)),
        )
        (false, false)
unfolding apply_zsets
unlisted now u v r = ground (
  arith,
  bytes_eq_refl (following_zset_key u),
  bytes_eq_refl (followers_zset_key v),
  bytes_eq_refl (format_uint u),
  bytes_eq_refl (format_uint v),
)

listed_canceled :
    (now u v : ℕ) (r : Redis)
    → follows (process_known no_faults now (canceled u v) false r).1 u v ≡ (false, false)
unfolding process_known follows
listed_canceled now u v r =
    ap
      (λ (z : Bytes → Bytes → Option ℕ).
        let x : Bool × Bool = (
          is_there (z (following_zset_key u) (format_uint v)),
          is_there (z (followers_zset_key v) (format_uint u)),
        ) in
        x)
      (finish-zset (apply_zsets now (canceled u v) false r)
        (count_once now (canceled u v) false (apply_zsets now (canceled u v) false r).counters))
    ∙ unlisted now u v r

second_cancel_known :
    (first again last u v id : ℕ) (r r1 r2 r3 : Redis)
    → (process_known no_faults first (canceled u v) false r).1 ≡ r1
    → (process_known no_faults again (created u v id) true r1).1 ≡ r2
    → (process_known no_faults last (canceled u v) false r2).1 ≡ r3
    → marked r (canceled u v) first ≡ false
    → last < first + dedupe_ttl
    → marked r1 (created u v id) again ≡ false
    → (followers_of r3.counters v ≡ followers_of r1.counters v +ℤ pos 1)
      × (follows r3 u v ≡ (false, false))
second_cancel_known first again last u v id r r1 r2 r3 e1 e2 e3 h l fresh =
    let still : marked r2 (canceled u v) last ≡ true =
      ap (λ (x : Redis). marked x (canceled u v) last) (sym e2)
      ∙ marks_of_created again u v id r1 last
      ∙ ap (λ (x : Redis). marked x (canceled u v) last) (sym e1)
      ∙ (first_delivery first (canceled u v) false r h).marks last l in
    (
      ap (λ (x : Redis). followers_of x.counters v) (sym e3)
          ∙ ap (λ (c : UserCounter.Redis). followers_of c v)
              (redelivered last (canceled u v) false r2 still)
          ∙ ap (λ (x : Redis). followers_of x.counters v) (sym e2)
          ∙ (first_delivery again (created u v id) true r1 fresh).followers,
      ap (λ (x : Redis). follows x u v) (sym e3) ∙ listed_canceled last u v r2,
    )

-- A follow that is cancelled again within ten minutes of an earlier cancellation: the sorted sets say
-- that `u` does not follow `v`, but the count of the followers of `v` keeps the second follow.
pub second_cancel_uncounted :
    (first again last u v id : ℕ) (r r1 r2 r3 : Redis)
    → (process no_faults first (canceled u v) r).1 ≡ r1
    → (process no_faults again (created u v id) r1).1 ≡ r2
    → (process no_faults last (canceled u v) r2).1 ≡ r3
    → marked r (canceled u v) first ≡ false
    → last < first + dedupe_ttl
    → marked r1 (created u v id) again ≡ false
    → (followers_of r3.counters v ≡ followers_of r1.counters v +ℤ pos 1)
      × (follows r3 u v ≡ (false, false))
second_cancel_uncounted first again last u v id r r1 r2 r3 e1 e2 e3 =
    second_cancel_known first again last u v id r r1 r2 r3
      (ap (λ (x : Result × Redis). x.1) (sym (process-canceled first u v r)) ∙ e1)
      (ap (λ (x : Result × Redis). x.1) (sym (process-created again u v id r1)) ∙ e2)
      (ap (λ (x : Result × Redis). x.1) (sym (process-canceled last u v r2)) ∙ e3)
