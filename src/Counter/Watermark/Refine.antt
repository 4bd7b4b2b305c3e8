-- ===== src/Counter/Watermark/Refine.antt =====
-- The script against its specification: exactly the events above the watermark are counted, in
-- order, at the entities that are not being repaired.
use zhiguang_go.Base.{
  ℕ, zero, suc, ◌+◌, ◌<◌, ◌≡◌, refl, ap, ◌∙◌, inl, inr, Bool, true, false, Option, none, some, List,
  [], ◌∷◌, ◌++◌, arith, if◌then◌else◌, Bool-cases, length, get_elem?, All, Bytes,
}
use zhiguang_go.Base.Int.{ℤ}
use native.Mathlib.Nat.{add-zero, add-suc}
use zhiguang_go.Counter.Watermark.{
  Store, Event, ok, at_most, go_on, round, rounds, apply_partition_batch, write_event, advanced,
  finish, incr_clamped,
}
use zhiguang_go.Counter.Watermark.Replay.{
  Covered, Below, Below-refl, Below-trans, not_advanced, rounds-Covered,
}

abbrev pub Hash : Type 0
Hash = Bytes → Bytes → Option ℤ

-- One event at the hash `key`, whose entity has the marker `marker`.
unfoldable pub count_event : (Bytes → Bool) → Event → Option Bytes → Option Bytes → Hash → Hash
count_event marked e none marker hash = hash
count_event marked e (some key) none hash = hash
count_event marked e (some key) (some marker) hash =
    if marked marker then hash else incr_clamped hash key e.field e.delta

-- All events in order, by the hashes and the markers of the entities.
unfoldable pub count_events : List Bytes → List Bytes → (Bytes → Bool) → List Event → Hash → Hash
count_events cnt markers marked [] hash = hash
count_events cnt markers marked (e ∷ es) hash =
    count_events cnt markers marked es
      (count_event marked e (get_elem? cnt e.key_index) (get_elem? markers e.key_index) hash)

-- The offsets rise from the watermark on.
abbrev pub Ascends : Option ℕ → List Event → Type 0
Ascends w [] = Unit
Ascends w (e ∷ es) = (at_most e.offset w ≡ false) × Ascends (some e.offset) es

unfoldable pub last_offset : Option ℕ → List Event → Option ℕ
last_offset w [] = w
last_offset w (e ∷ es) = last_offset (some e.offset) es

get_elem?-append_left :
    {A : Type 0} (xs ys : List A) (i : ℕ) → i < length xs → get_elem? (xs ++ ys) i ≡ get_elem? xs i
get_elem?-append_left [] ys i h = elim h [ ]
get_elem?-append_left (x ∷ xs) ys zero h = refl
get_elem?-append_left (x ∷ xs) ys (suc i) h = get_elem?-append_left xs ys i (omega arith)

get_elem?-append_right :
    {A : Type 0} (xs ys : List A) (i : ℕ) → get_elem? (xs ++ ys) (i + length xs) ≡ get_elem? ys i
get_elem?-append_right [] ys i = rw add-zero
get_elem?-append_right (x ∷ xs) ys i = rw add-suc (get_elem?-append_right xs ys i)

get_elem?-some :
    {A : Type 0} (xs : List A) (i : ℕ) → i < length xs → (a : A) × (get_elem? xs i ≡ some a)
get_elem?-some [] i h = elim h [ ]
get_elem?-some (x ∷ xs) zero h = (x, refl)
get_elem?-some (x ∷ xs) (suc i) h = get_elem?-some xs i (omega arith)

-- a hash and a marker for each entity of the batch, and events that name one of them
pub record IsLaidOut (cnt markers : List Bytes) (es : List Event) : Type 0 where
  pub paired : length cnt ≡ length markers
  pub named : All (λ e. e.key_index < length cnt) es

module _ (cnt markers : List Bytes) (paired : length cnt ≡ length markers) where
  round-fresh :
      (w : Option ℕ) (e : Event) (last : Option ℕ) (r : Store)
      → at_most e.offset w ≡ false
      → at_most e.offset last ≡ false
      → e.key_index < length cnt
      → round (cnt ++ markers) (length cnt) w e last r
        ≡ go_on (some e.offset) (record r {
          hash =
              count_event r.marked e
                (get_elem? cnt e.key_index)
                (get_elem? markers e.key_index)
                r.hash;
        })
  unfolding round write_event count_event
  round-fresh w e last r p q h =
      let (key, has_key) = get_elem?-some cnt e.key_index h in
      let (marker, has_marker) = get_elem?-some markers e.key_index (omega arith) in
      rw
        (
          p,
          q,
          get_elem?-append_left cnt markers e.key_index h,
          get_elem?-append_right cnt markers e.key_index,
          has_key,
          has_marker,
        )
        (ground arith)

  at_most-Below :
      (o : ℕ) (w last : Option ℕ) → Below w last → at_most o last ≡ false → at_most o w ≡ false
  at_most-Below o none last b h = refl
  at_most-Below o (some w) none b h = absurd b
  at_most-Below o (some w) (some l) b h = ground arith

  above : (o : ℕ) (w : Option ℕ) → at_most o w ≡ false → Below w (some o)
  above o none h = tt
  above o (some w) h = ground arith

  rounds-count :
      (w : Option ℕ) (es : List Event) (last : Option ℕ) (r : Store)
      → Below w last
      → Ascends last es
      → All (λ e. e.key_index < length cnt) es
      → rounds (cnt ++ markers) (length cnt) w es last r ≡ (
        ok (last_offset last es),
        record r { hash = count_events cnt markers r.marked es r.hash },
      )
  unfolding rounds last_offset count_events
  rounds-count w [] last r b a h = refl
  rounds-count w (e ∷ es) last r b a h =
      let p = at_most-Below e.offset w last b a.0 in
      rw (round-fresh w e last r p a.0 h.0)
        (rounds-count w es (some e.offset) _ (above e.offset w p) a.1 h.1)

  last_offset-above : (w : Option ℕ) (es : List Event) → Ascends w es → Below w (last_offset w es)
  unfolding last_offset
  last_offset-above w [] a = Below-refl w
  last_offset-above w (e ∷ es) a =
      Below-trans w (some e.offset) (last_offset (some e.offset) es) (above e.offset w a.0)
        (last_offset-above (some e.offset) es a.1)

  finish_lem :
      (w last : Option ℕ) (r : Store)
      → Below w last
      → r.applied ≡ w
      → finish w (ok last, r) ≡ (ok last, record r { applied = last })
  finish_lem w last r b kept = elim (Bool-cases (advanced w last)) [
    | inl up ↦ rw up
    | inr idle ↦
        rw idle (ap (λ x. (ok last, record r { applied = x })) (kept ∙ not_advanced w last b idle))
  ]

-- Of a batch whose first part was applied before, exactly the rest is gone through, each event once
-- and in order: an event is added to the count of its entity, but where the rebuild marker of that
-- entity is set it is left out. The watermark moves to the last offset, past the events left out too.
-- The keys hold a hash and a marker for each entity of the rest, and the offsets of the rest rise from
-- the watermark on.
pub apply_partition_batch-count :
    (cnt markers : List Bytes) (old new : List Event) (r : Store)
    → IsLaidOut cnt markers new
    → Covered r.applied old
    → Ascends r.applied new
    → apply_partition_batch (cnt ++ markers) (length cnt) (old ++ new) r ≡ (
      ok (last_offset r.applied new),
      record r {
        applied = last_offset r.applied new;
        hash = count_events cnt markers r.marked new r.hash;
      },
    )
unfolding apply_partition_batch
apply_partition_batch-count cnt markers old new r laid c a =
    ap (finish r.applied)
      (rounds-Covered (cnt ++ markers) (length cnt) r.applied old new r.applied r c)
    ∙ ap (finish r.applied) (
        rounds-count cnt markers laid.paired r.applied new r.applied r (Below-refl r.applied) a
          laid.named)
    ∙ finish_lem cnt markers laid.paired r.applied (last_offset r.applied new)
        (record r { hash = count_events cnt markers r.marked new r.hash })
        (last_offset-above cnt markers laid.paired r.applied new a) refl

-- The hashes of an entity that is being repaired are left alone.
pub count_event_marked :
    (marked : Bytes → Bool) (e : Event) (key marker : Bytes) (hash : Hash)
    → marked marker ≡ true
    → count_event marked e (some key) (some marker) hash ≡ hash
unfolding count_event
count_event_marked marked e key marker hash h = rw h
