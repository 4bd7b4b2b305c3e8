-- ===== src/Counter/Watermark/Replay.antt =====
-- Redelivery: a batch that was applied is skipped when it comes again, as a whole or as a prefix.
use zhiguang_go.Base.{
  ℕ, ◌+◌, ◌≤◌, ◌≡◌, refl, sym, ap, ◌∙◌, subst, ◌≢◌, inl, inr, true, false, Option, none, some, List,
  [], ◌∷◌, ◌++◌, arith, if◌then◌else◌, Bool-cases, get_elem?, All, Bytes,
}
use mathlib.Core.List.{append-nil}
use zhiguang_go.Counter.Watermark.{
  Store, Event, Reply, ok, gap, no_key, at_most, Round, go_on, stop, round, rounds,
  apply_partition_batch, write_event, advanced, finish, resume, incr_clamped,
}

-- no offset of the list is above the watermark
abbrev pub Covered : Option ℕ → List Event → Type 0
Covered w = All (λ e. at_most e.offset w ≡ true)

abbrev pub Below : Option ℕ → Option ℕ → Type 0
Below none w = Unit
Below (some a) none = ⊥
Below (some a) (some b) = a ≤ b

pub Below-refl : (w : Option ℕ) → Below w w
Below-refl none = tt
Below-refl (some a) = omega arith

pub Below-trans : (u v w : Option ℕ) → Below u v → Below v w → Below u w
Below-trans none v w p q = tt
Below-trans (some a) none w p q = absurd p
Below-trans (some a) (some b) none p q = absurd q
Below-trans (some a) (some b) (some c) p q = omega arith

at_most_mono : (o : ℕ) (u w : Option ℕ) → Below u w → at_most o u ≡ true → at_most o w ≡ true
at_most_mono o none w p q = cc
at_most_mono o (some a) none p q = absurd p
at_most_mono o (some a) (some b) p q = ground arith

not_at_most : (o : ℕ) (w : Option ℕ) → at_most o w ≡ false → Below w (some o)
not_at_most o none h = tt
not_at_most o (some a) h = ground arith

at_most_self : (o : ℕ) → at_most o (some o) ≡ true
at_most_self o = ground arith

pub not_advanced : (w last : Option ℕ) → Below w last → advanced w last ≡ false → w ≡ last
not_advanced none none b h = refl
not_advanced none (some l) b h = cc
not_advanced (some w) none b h = absurd b
not_advanced (some w) (some l) b h = ground arith

applied-finish :
    (w last : Option ℕ) (r : Store)
    → Below w last
    → r.applied ≡ w
    → (finish w (ok last, r)).1.applied ≡ last
applied-finish w last r b kept = elim (Bool-cases (advanced w last)) [
  | inl up ↦ rw up
  | inr idle ↦ rw idle (kept ∙ not_advanced w last b idle)
]

module _ (keys : List Bytes) (n : ℕ) where
  -- What a round does: it skips, or it writes and sets the last offset, or it stops.
  pub data RoundView (w : Option ℕ) (e : Event) (last : Option ℕ) (r : Store) (x : Round)
      : Type 0 where
    skips : at_most e.offset w ≡ true → x ≡ go_on last r → RoundView w e last r x
    writes :
        (r' : Store)
        → at_most e.offset w ≡ false
        → at_most e.offset last ≡ false
        → r'.applied ≡ r.applied
        → x ≡ go_on (some e.offset) r'
        → RoundView w e last r x
    stops : (p : Reply) → ((l : Option ℕ) → p ≢ ok l) → x ≡ stop p → RoundView w e last r x

  write_event-view :
      (w : Option ℕ) (e : Event) (last : Option ℕ) (r : Store) (key marker : Option Bytes)
      → at_most e.offset w ≡ false
      → at_most e.offset last ≡ false
      → RoundView w e last r (write_event e key marker r)
  unfolding write_event
  write_event-view w e last r none marker p q = stops no_key (λ l h. cc) refl
  write_event-view w e last r (some key) none p q = stops no_key (λ l h. cc) refl
  write_event-view w e last r (some key) (some marker) p q =
      writes
        (if r.marked marker then r else record r { hash = incr_clamped r.hash key e.field e.delta })
        p q (ground arith) refl

  pub round-view :
      (w : Option ℕ) (e : Event) (last : Option ℕ) (r : Store)
      → RoundView w e last r (round keys n w e last r)
  unfolding round
  round-view w e last r = elim (Bool-cases (at_most e.offset w)) [
    | inl old ↦ skips old (rw old)
    | inr fresh ↦ rw fresh (elim (Bool-cases (at_most e.offset last)) [
      | inl back ↦ rw back (stops gap (λ l h. cc) refl)
      | inr next ↦ rw next (
          write_event-view w e last r (get_elem? keys e.key_index)
            (get_elem? keys (e.key_index + n)) fresh next)
    ])
  ]

  -- Events at or below the watermark are skipped.
  pub rounds-Covered :
      (w : Option ℕ) (es rest : List Event) (last : Option ℕ) (r : Store)
      → Covered w es
      → rounds keys n w (es ++ rest) last r ≡ rounds keys n w rest last r
  unfolding rounds
  rounds-Covered w [] rest last r c = refl
  rounds-Covered w (e ∷ es) rest last r c = rw (c.0, round) (rounds-Covered w es rest last r c.1)

  -- The last offset of a run that ends well covers the whole batch.
  record Ends (w last l : Option ℕ) (es : List Event) (r r' : Store) : Type 0 where
    above : Below last l
    covers : Covered l es
    keeps : r'.applied ≡ r.applied

  after_round :
      (w : Option ℕ) (e : Event) (es : List Event) (last : Option ℕ) (r r' : Store) (l : Option ℕ)
      → Below w last
      → ((last : Option ℕ) (r r' : Store) (l : Option ℕ)
          → Below w last
          → rounds keys n w es last r ≡ (ok l, r')
          → Ends w last l es r r')
      → (x : Round) → RoundView w e last r x
      → resume x (rounds keys n w es) r ≡ (ok l, r')
      → Ends w last l (e ∷ es) r r'
  after_round w e es last r r' l b ih x (skips old q) k =
      let rest = ih last r r' l b (rw q at k) in
      record {
        above = rest.above;
        covers = (at_most_mono e.offset w l (Below-trans w last l b rest.above) old, rest.covers);
        keeps = rest.keeps;
      }
  after_round w e es last r r' l b ih x (writes r2 fresh next kept q) k =
      let rest = ih (some e.offset) r2 r' l (not_at_most e.offset w fresh) (rw q at k) in
      record {
        above = Below-trans last (some e.offset) l (not_at_most e.offset last next) rest.above;
        covers = (
          at_most_mono e.offset (some e.offset) l rest.above (at_most_self e.offset),
          rest.covers,
        );
        keeps = rest.keeps ∙ kept;
      }
  after_round w e es last r r' l b ih x (stops p bad q) k =
      absurd (bad l (ap (λ (y : Reply × Store). y.0) (rw q at k)))

  rounds-Ends :
      (w : Option ℕ) (es : List Event) (last : Option ℕ) (r r' : Store) (l : Option ℕ)
      → Below w last
      → rounds keys n w es last r ≡ (ok l, r')
      → Ends w last l es r r'
  unfolding rounds
  rounds-Ends w [] last r r' l b h = record {
    above = subst (Below last) (last_of h) (Below-refl last);
    covers = tt;
    keeps = ap (λ (x : Reply × Store). x.1.applied) (sym h);
  }
    where
      last_of : ◌≡◌ {A = Reply × Store} (ok last, r) (ok l, r') → last ≡ l
      last_of h = cc
  rounds-Ends w (e ∷ es) last r r' l b h =
      after_round w e es last r r' l b (rounds-Ends w es) (round keys n w e last r)
        (round-view w e last r) h

  finish-covers :
      (es : List Event) (r r2 r' : Store) (p : Reply) (l : Option ℕ)
      → rounds keys n r.applied es r.applied r ≡ (p, r2)
      → finish r.applied (p, r2) ≡ (ok l, r')
      → (r'.applied ≡ l) × Covered l es × Below r.applied l
  finish-covers es r r2 r' (ok last) l h k =
      let same : last ≡ l = reply_of k in
      let ends = rounds-Ends r.applied es r.applied r r2 last (Below-refl r.applied) h in
      (
        ap (λ (x : Reply × Store). x.1.applied) (sym k)
            ∙ applied-finish r.applied last r2 ends.above ends.keeps
            ∙ same,
        subst (λ w. Covered w es) same ends.covers,
        subst (Below r.applied) same ends.above,
      )
    where
      reply_of : {r3 : Store} → ◌≡◌ {A = Reply × Store} (ok last, r3) (ok l, r') → last ≡ l
      reply_of h = cc
  finish-covers es r r2 r' gap l h k = absurd (not_gap k)
    where
      not_gap : ◌≡◌ {A = Reply × Store} (gap, r2) (ok l, r') → ⊥
      not_gap h = cc
  finish-covers es r r2 r' no_key l h k = absurd (not_no_key k)
    where
      not_no_key : ◌≡◌ {A = Reply × Store} (no_key, r2) (ok l, r') → ⊥
      not_no_key h = cc

  -- The watermark after a batch that ends well covers the batch, and was not moved back.
  pub apply_partition_batch-covers :
      (es : List Event) (r r' : Store) (l : Option ℕ)
      → apply_partition_batch keys n es r ≡ (ok l, r')
      → (r'.applied ≡ l) × Covered l es × Below r.applied l
  unfolding apply_partition_batch
  apply_partition_batch-covers es r r' l h =
      let (p, r2) = rounds keys n r.applied es r.applied r in finish-covers es r r2 r' p l refl h

  finish_idle : (w : Option ℕ) (r : Store) → finish w (ok w, r) ≡ (ok w, r)
  finish_idle none r = refl
  finish_idle (some w) r = ground arith

  -- A batch that was applied, delivered again before other events, is skipped: only the events that
  -- follow it are applied.
  pub apply_partition_batch-replay :
      (es rest : List Event) (r r' : Store) (l : Option ℕ)
      → apply_partition_batch keys n es r ≡ (ok l, r')
      → apply_partition_batch keys n (es ++ rest) r' ≡ apply_partition_batch keys n rest r'
  unfolding apply_partition_batch
  apply_partition_batch-replay es rest r r' l h =
      let (at_l, covered, up) = apply_partition_batch-covers es r r' l h in
      ap (finish r'.applied) (
        rounds-Covered r'.applied es rest r'.applied r'
          (subst (λ w. Covered w es) (sym at_l) covered))

  -- A batch below the watermark changes nothing: neither the counters nor the watermark.
  pub apply_partition_batch-Covered :
      (es : List Event) (r : Store)
      → Covered r.applied es
      → apply_partition_batch keys n es r ≡ (ok r.applied, r)
  unfolding apply_partition_batch rounds
  apply_partition_batch-Covered es r c =
      ap (λ (xs : List Event). finish r.applied (rounds keys n r.applied xs r.applied r))
        (sym (append-nil es))
      ∙ ap (finish r.applied) (rounds-Covered r.applied es [] r.applied r c)
      ∙ finish_idle r.applied r
