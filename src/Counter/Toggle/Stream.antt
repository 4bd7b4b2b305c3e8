-- ===== src/Counter/Toggle/Stream.antt =====
-- The stream of events that a run of toggles publishes adds up to the state of each user.
use zhiguang_go.Base.{
  subst, All, ℕ, ◌<◌, ◌≡◌, refl, sym, ap, ◌∙◌, inl, inr, Bool, true, false, not, List, [], ◌∷◌,
  arith, ◌==◌, if◌then◌else◌, ==_iff, Bool-cases, Bytes, bytes_eq,
}
use zhiguang_go.Base.Int.{ℤ, pos, negsuc, ◌+ℤ◌}
use zhiguang_go.Base.Decimal.{two_64}
use zhiguang_go.Counter.Model.{CounterEvent, name_to_idx}
use zhiguang_go.Counter.Toggle.{
  Redis, Service, toggle, is_set, Reply, changed, unchanged, unknown, after_toggle,
}
use zhiguang_go.Counter.Toggle.Effects.{
  toggle_redis-InStep, op_of, toggle_redis, is_set-toggle_redis, toggle_redis-changed, InStep,
}
use zhiguang_go.Counter.Publish.{Publishing, publish_counter_event}
use zhiguang_go.Counter.Publish.Balance.{
  accounted, IsKept, IsReady, publish_counter_event-accounted,
}

-- A call that turns the state of one user on or off; `fails` says that Redis refuses it, and
-- `publishing` how its event is published.
pub record Call : Type 0 where
  pub fails : Bool
  pub publishing : Publishing
  pub now : ℕ
  pub user : ℕ
  pub on : Bool

-- a bit as a number
unfoldable pub weight : Bool → ℤ
weight true = pos 1
weight false = pos 0

module _ (m t i : Bytes) where
  pub run : Service → List Call → Service
  run s [] = s
  run s (c ∷ cs) = run (toggle s c.fails c.publishing c.now c.user t i m (op_of c.on)).1 cs

  -- The events accounted for `v`, published or recorded as failed, add up to its bit.
  pub record IsBalanced (v : ℕ) (s : Service) : Type 0 where
    pub ready : IsReady s.publisher
    pub balance : accounted v s.publisher ≡ weight (is_set s.redis m v t i)
    pub in_step : InStep m t i s.redis v

  event_of : Service → ℕ → Bool → CounterEvent
  event_of s u on = record {
    message_id = s.next_message_id;
    entity_type = t;
    entity_id = i;
    metric = m;
    index = pos (name_to_idx m);
    user_id = u;
    delta = if on then pos 1 else negsuc 0;
  }

  change_balance :
      (p : Publishing) (v u : ℕ) (s : Service) (on : Bool)
      → IsReady s.publisher
      → IsKept p
      → accounted v s.publisher ≡ weight (is_set s.redis m v t i)
      → is_set s.redis m u t i ≡ not on
      → accounted v (publish_counter_event p (event_of s u on) s.publisher)
        ≡ weight (if u == v then on else is_set s.redis m v t i)
  unfolding event_of weight ◌+ℤ◌
  change_balance p v u s on ready kept b prev =
      let counted =
        (publish_counter_event-accounted p (event_of s u on) s.publisher ready kept).0 v in
      elim (Bool-cases (u == v)) [
        | inl same ↦ rw (counted, same, b, ← (==_iff u v).0 same, prev) (sum_of_change on)
        | inr other ↦ rw (counted, other) b
      ]
    where
      sum_of_change : (on : Bool) → weight (not on) +ℤ (if on then pos 1 else negsuc 0) ≡ weight on
      sum_of_change true = refl
      sum_of_change false = refl

  module _ (v u : ℕ) (s : Service) (now : ℕ) (on : Bool) (a : Reply) (r : Redis)
      (e : toggle_redis m t i s.redis now u on ≡ (a, r)) where
    after_script :
        u < two_64 → v < two_64 → is_set r m v t i ≡ (if u == v then on else is_set s.redis m v t i)
    after_script hu hv =
        ap (λ (x : Reply × Redis). is_set x.1 m v t i) (sym e)
        ∙ is_set-toggle_redis m t i s.redis now u v on hu hv

    reply_lem : a ≡ (
        if is_set s.redis m u t i
        then (if on then unchanged else changed)
        else (if on then changed else unchanged))
    reply_lem =
        ap (λ (x : Reply × Redis). x.0) (sym e) ∙ toggle_redis-changed m t i s.redis now u on

  was_off :
      (b on : Bool)
      → changed
        ≡ (if b then (if on then unchanged else changed) else (if on then changed else unchanged))
      → b ≡ not on
  was_off b on h = ground arith

  was_same :
      (b on : Bool)
      → unchanged
        ≡ (if b then (if on then unchanged else changed) else (if on then changed else unchanged))
      → b ≡ on
  was_same b on h = ground arith

  never_unknown :
      (b on : Bool)
      → unknown
        ≡ (if b then (if on then unchanged else changed) else (if on then changed else unchanged))
      → ⊥
  never_unknown b on h = ground arith

  same_state :
      (v u : ℕ) (r : Redis) (on : Bool)
      → is_set r m u t i ≡ on
      → is_set r m v t i ≡ (if u == v then on else is_set r m v t i)
  same_state v u r on h = elim (Bool-cases (u == v)) [
    | inl same ↦ rw same (rw (← (==_iff u v).0 same) h)
    | inr other ↦ rw other
  ]

  publisher-after :
      (s : Service) (p : Publishing) (u : ℕ) (on : Bool) (r : Redis)
      → IsReady s.publisher
      → (after_toggle s p u t i m (op_of on) (changed, r)).1.publisher
        ≡ publish_counter_event p (event_of s u on) s.publisher
  unfolding after_toggle event_of bytes_eq
  publisher-after s p u true r h = rw (h.producing) refl
  publisher-after s p u false r h = rw (h.producing) refl

  toggle_balance :
      (v : ℕ) (s : Service) (p : Publishing) (now u : ℕ) (on : Bool) (r : Redis) (a : Reply)
      → toggle_redis m t i s.redis now u on ≡ (a, r)
      → u < two_64
      → v < two_64
      → IsKept p
      → IsReady s.publisher
      → accounted v s.publisher ≡ weight (is_set s.redis m v t i)
      → accounted v (after_toggle s p u t i m (op_of on) (a, r)).1.publisher
        ≡ weight (is_set r m v t i)
  unfolding after_toggle
  toggle_balance v s p now u on r changed e hu hv kept ready b =
      ap (accounted v) (publisher-after s p u on r ready)
      ∙ change_balance p v u s on ready kept b
          (was_off (is_set s.redis m u t i) on (reply_lem v u s now on changed r e))
      ∙ ap weight (sym (after_script v u s now on changed r e hu hv))
  toggle_balance v s p now u on r unchanged e hu hv kept ready b =
      b
      ∙ ap weight (
          same_state v u s.redis on
            (was_same (is_set s.redis m u t i) on (reply_lem v u s now on unchanged r e))
          ∙ sym (after_script v u s now on unchanged r e hu hv))
  toggle_balance v s p now u on r unknown e hu hv kept ready b =
      absurd (never_unknown (is_set s.redis m u t i) on (reply_lem v u s now on unknown r e))

  redis-after :
      (s : Service) (p : Publishing) (u : ℕ) (on : Bool) (a : Reply) (r : Redis)
      → (after_toggle s p u t i m (op_of on) (a, r)).1.redis ≡ r
  unfolding after_toggle
  redis-after s p u on changed r = refl
  redis-after s p u on unchanged r = refl
  redis-after s p u on unknown r = refl

  ready-after :
      (s : Service) (p : Publishing) (u : ℕ) (on : Bool) (a : Reply) (r : Redis)
      → IsReady s.publisher
      → IsKept p
      → IsReady (after_toggle s p u t i m (op_of on) (a, r)).1.publisher
  ready-after s p u on changed r h kept =
      subst IsReady (sym (publisher-after s p u on r h))
        (publish_counter_event-accounted p (event_of s u on) s.publisher h kept).1
  ready-after s p u on unchanged r h kept = unfold after_toggle in h
  ready-after s p u on unknown r h kept = unfold after_toggle in h

  after_toggle-IsBalanced :
      (v : ℕ) (s : Service) (p : Publishing) (now u : ℕ) (on : Bool) (a : Reply) (r : Redis)
      → toggle_redis m t i s.redis now u on ≡ (a, r)
      → u < two_64
      → v < two_64
      → IsKept p
      → IsBalanced v s
      → IsBalanced v (after_toggle s p u t i m (op_of on) (a, r)).1
  after_toggle-IsBalanced v s p now u on a r e hu hv kept b = record {
    ready = ready-after s p u on a r b.ready kept;
    balance =
        toggle_balance v s p now u on r a e hu hv kept b.ready b.balance
        ∙ ap (λ (x : Redis). weight (is_set x m v t i)) (sym (redis-after s p u on a r));
    in_step =
        subst (λ (x : Redis). InStep m t i x v)
          (ap (λ (x : Reply × Redis). x.1) e ∙ sym (redis-after s p u on a r))
          (toggle_redis-InStep m t i s.redis now u v on hu hv b.in_step);
  }

  toggle-IsBalanced :
      (v : ℕ) (s : Service) (fails : Bool) (p : Publishing) (now u : ℕ) (on : Bool)
      → u < two_64
      → v < two_64
      → IsKept p
      → IsBalanced v s
      → IsBalanced v (toggle s fails p now u t i m (op_of on)).1
  unfolding toggle toggle_redis
  toggle-IsBalanced v s true p now u on hu hv kept b = b
  toggle-IsBalanced v s false p now u on hu hv kept b =
      let (a, r) = toggle_redis m t i s.redis now u on in
      after_toggle-IsBalanced v s p now u on a r refl hu hv kept b

  -- From a state in which the account of a user is balanced, a run of toggles of an entity leads to such
  -- a state: the events that were published for the user, with those that were recorded because their
  -- publication failed, add up to the bit of the user, every recorded failure has its entity in the
  -- dirty set, and the bitmap and the time index agree. There are a producer and a recorder, user
  -- ids are below 2^64, Redis may refuse the script of a call, and the publication of its event may fail as long
  -- as the mark and the record that follow do not fail too.
  pub run-IsBalanced :
      (v : ℕ) (s : Service) (cs : List Call)
      → v < two_64
      → All (λ c. c.user < two_64) cs
      → All (λ c. IsKept c.publishing) cs
      → IsBalanced v s
      → IsBalanced v (run s cs)
  unfolding run
  run-IsBalanced v s [] hv us ks b = b
  run-IsBalanced v s (c ∷ cs) hv us ks b =
      run-IsBalanced v (toggle s c.fails c.publishing c.now c.user t i m (op_of c.on)).1 cs hv us.1
        ks.1 (toggle-IsBalanced v s c.fails c.publishing c.now c.user c.on us.0 hv ks.0 b)
