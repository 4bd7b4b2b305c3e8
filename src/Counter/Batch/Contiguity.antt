-- ===== src/Counter/Batch/Contiguity.antt =====
-- A batch holds consecutive offsets of one partition and countable events only, in every state that
-- the consumer reaches.
use zhiguang_go.Base.{
  ℕ, ◌+◌, ◌<◌, ◌≡◌, refl, sym, ap, ◌∙◌, subst, ◌≢◌, inl, inr, true, false, ◌||◌, some, List, [],
  ◌∷◌, ◌++◌, arith, ◌==◌, ==_iff, Bool-cases, length, length-append, All, All-append, Bytes,
  bytes_eq, bytes_eq_iff, bytes_eq_refl,
}
use zhiguang_go.Base.Int.{pos, ltb_ℤ, leb_ℤ, eq_ℤ, ◌≤ℤ◌}
use zhiguang_go.Counter.Model.{CounterEvent, dirty_member, schema_len}
use zhiguang_go.Counter.Batch.{
  Message, BatchEvent, Batch, Added, added, refused, AddError, size, new_batch, add_event,
  extend_batch, append_event, add_entity, contains, is_partition,
}

-- The offsets of the events are `s`, `s + 1`, and so on, up to `t` exclusively.
abbrev pub Runs : ℕ → List BatchEvent → ℕ → Type 0
Runs s [] t = s ≡ t
Runs s (e ∷ es) t = (e.offset ≡ s) × Runs (s + 1) es t

Runs-append :
    (s t : ℕ) (es : List BatchEvent) (e : BatchEvent)
    → Runs s es t
    → e.offset ≡ t
    → Runs s (es ++ e ∷ []) (t + 1)
Runs-append s t [] e r h = omega arith
Runs-append s t (x ∷ es) e r h = (r.0, Runs-append (s + 1) t es e r.1 h)

-- What `addEvent` lets through.
pub record IsCountable (e : BatchEvent) : Type 0 where
  pub typed : e.entity_type ≢ []
  pub named : e.entity_id ≢ []
  pub from_zero : pos 0 ≤ℤ e.index
  pub in_schema : ltb_ℤ e.index (pos schema_len) ≡ true
  pub moves : eq_ℤ e.delta (pos 0) ≡ false

abbrev member_of : BatchEvent → Bytes
member_of e = dirty_member e.entity_type e.entity_id

pub record IsWellFormed (b : Batch) : Type 0 where
  pub counted : length b.events ≡ length b.messages
  pub runs : 0 < length b.messages → Runs b.start_offset b.events (b.end_offset + 1)
  pub countable : All IsCountable b.events
  pub known : All (λ e. contains (member_of e) b.entities ≡ true) b.events

contains-append :
    (k : Bytes) (xs : List Bytes) (y : Bytes)
    → contains k (xs ++ y ∷ []) ≡ (contains k xs || bytes_eq k y)
unfolding contains
contains-append k [] y = ground arith
contains-append k (x ∷ xs) y = ground (arith, contains-append k xs y)

pub contains-add_entity :
    (k m : Bytes) (xs : List Bytes) → contains k (add_entity m xs) ≡ (contains k xs || bytes_eq k m)
unfolding add_entity
contains-add_entity k m xs = ground (
  arith,
  contains-append k xs m,
  bytes_eq_iff k m,
  ap (λ (x : Bytes). contains x xs) {x = k} {y = m},
)

known-add_entity :
    (m : Bytes) (xs : List Bytes) (es : List BatchEvent)
    → All (λ e. contains (member_of e) xs ≡ true) es
    → All (λ e. contains (member_of e) (add_entity m xs) ≡ true) es
known-add_entity m xs [] h = tt
known-add_entity m xs (e ∷ es) h =
    (rw (contains-add_entity (member_of e) m xs, h.0) refl, known-add_entity m xs es h.1)

event_of : Message → CounterEvent → BatchEvent
event_of msg evt = record {
  offset = msg.offset;
  entity_type = evt.entity_type;
  entity_id = evt.entity_id;
  index = evt.index;
  delta = evt.delta;
}

-- An accepted message opens the batch, or comes next after its end.
data AddView (b : Batch) (msg : Message) (evt : CounterEvent) (x : Added) : Type 0 where
  opens :
      (now : ℕ)
      → size b ≡ 0
      → IsCountable (event_of msg evt)
      → x
        ≡ added (
            append_event
              (record b {
                partition = some msg.partition;
                opened_at = now;
                start_offset = msg.offset;
                end_offset = msg.offset;
              })
              msg
              evt)
      → AddView b msg evt x
  extends :
      0 < size b
      → msg.offset ≡ b.end_offset + 1
      → is_partition b.partition msg.partition ≡ true
      → IsCountable (event_of msg evt)
      → x ≡ added (append_event (record b { end_offset = msg.offset }) msg evt)
      → AddView b msg evt x
  refuses : (e : AddError) → x ≡ refused e → AddView b msg evt x

extend_batch-view :
    (now : ℕ) (b : Batch) (msg : Message) (evt : CounterEvent)
    → IsCountable (event_of msg evt)
    → AddView b msg evt (extend_batch now b msg evt)
unfolding extend_batch
extend_batch-view now b msg evt c = elim (Bool-cases (size b == 0)) [
  | inl empty ↦ rw empty (opens now ((==_iff (size b) 0).0 empty) c refl)
  | inr going ↦ rw going (elim (Bool-cases (is_partition b.partition msg.partition)) [
    | inr other ↦ rw other (refuses _ refl)
    | inl same ↦ rw same (elim (Bool-cases (msg.offset == b.end_offset + 1)) [
      | inr gap ↦ rw gap (refuses _ refl)
      | inl next ↦ rw next (extends (ground arith) ((==_iff _ _).0 next) same c refl)
    ])
  ])
]

add_event-view :
    (now : ℕ) (b : Batch) (msg : Message) (evt : CounterEvent)
    → AddView b msg evt (add_event now b msg evt)
unfolding add_event event_of
add_event-view now b msg evt =
    elim (Bool-cases (bytes_eq evt.entity_type [] || bytes_eq evt.entity_id [])) [
      | inl missing ↦ rw missing (refuses _ refl)
      | inr named ↦
          rw named
            (elim (Bool-cases (ltb_ℤ evt.index (pos 0) || leb_ℤ (pos schema_len) evt.index)) [
              | inl outside ↦ rw outside (refuses _ refl)
              | inr inside ↦ rw inside (elim (Bool-cases (eq_ℤ evt.delta (pos 0))) [
                | inl still ↦ rw still (refuses _ refl)
                | inr moving ↦ rw moving (
                    extend_batch-view now b msg evt (record {
                      typed = λ e. ground (arith, bytes_eq_iff evt.entity_type []);
                      named = λ e. ground (arith, bytes_eq_iff evt.entity_id []);
                      from_zero = ground arith;
                      in_schema = ground arith;
                      moves = moving;
                    }))
              ])
            ])
    ]

append_event-IsWellFormed :
    (b : Batch) (msg : Message) (evt : CounterEvent) (s : ℕ)
    → IsCountable (event_of msg evt)
    → b.start_offset ≡ s
    → length b.events ≡ length b.messages
    → All IsCountable b.events
    → All (λ e. contains (member_of e) b.entities ≡ true) b.events
    → Runs b.start_offset b.events msg.offset
    → b.end_offset ≡ msg.offset
    → IsWellFormed (append_event b msg evt)
unfolding append_event event_of
append_event-IsWellFormed b msg evt s c hs counted countable known runs ends = record {
  counted =
      omega (
        arith,
        length-append b.events (event_of msg evt ∷ []),
        length-append b.messages (msg ∷ []),
      );
  runs = λ h. rw ends (Runs-append b.start_offset msg.offset b.events (event_of msg evt) runs refl);
  countable = All-append IsCountable b.events (event_of msg evt ∷ []) countable (c, tt);
  known =
      All-append _ b.events (event_of msg evt ∷ [])
        (known-add_entity (member_of (event_of msg evt)) b.entities b.events known)
        (last_known, tt);
}
  where
    last_known :
        contains
          (member_of (event_of msg evt))
          (add_entity (member_of (event_of msg evt)) b.entities)
        ≡ true
    last_known = ground (
      arith,
      contains-add_entity (member_of (event_of msg evt)) (member_of (event_of msg evt)) b.entities,
      bytes_eq_refl (member_of (event_of msg evt)),
    )

no_events : (es : List BatchEvent) → length es ≡ 0 → es ≡ []
no_events [] h = refl
no_events (e ∷ es) h = absurd (omega arith)

added-injective : {y z : Batch} → added y ≡ added z → y ≡ z
added-injective q = cc

AddView-IsWellFormed :
    (b b' : Batch) (msg : Message) (evt : CounterEvent) (x : Added)
    → AddView b msg evt x
    → IsWellFormed b
    → x ≡ added b'
    → IsWellFormed b' × (0 < size b')
unfolding append_event
AddView-IsWellFormed b b' msg evt x (opens now empty c e) v h =
    subst (λ y. IsWellFormed y × (0 < size y)) (added-injective (sym e ∙ h))
      (
        append_event-IsWellFormed _ msg evt msg.offset c refl v.counted v.countable v.known
            (rw (no_events b.events (v.counted ∙ empty)) refl) refl,
        omega (arith, length-append b.messages (msg ∷ [])),
      )
AddView-IsWellFormed b b' msg evt x (extends open_size next same c e) v h =
    subst (λ y. IsWellFormed y × (0 < size y)) (added-injective (sym e ∙ h))
      (
        append_event-IsWellFormed _ msg evt b.start_offset c refl v.counted v.countable v.known
            (rw next (v.runs open_size)) refl,
        omega (arith, length-append b.messages (msg ∷ [])),
      )
AddView-IsWellFormed b b' msg evt x (refuses a e) v h = cc

-- `addEvent` keeps a batch well formed, and a batch that it accepts a message for is not empty.
pub add_event-IsWellFormed :
    (now : ℕ) (b b' : Batch) (msg : Message) (evt : CounterEvent)
    → IsWellFormed b
    → add_event now b msg evt ≡ added b'
    → IsWellFormed b' × (0 < size b')
add_event-IsWellFormed now b b' msg evt v h =
    AddView-IsWellFormed b b' msg evt (add_event now b msg evt) (add_event-view now b msg evt) v h

pub new_batch-IsWellFormed : IsWellFormed new_batch
unfolding new_batch
new_batch-IsWellFormed = record {
  counted = refl;
  runs = λ h. absurd (omega arith);
  countable = tt;
  known = tt;
}
