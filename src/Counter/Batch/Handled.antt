-- ===== src/Counter/Batch/Handled.antt =====
-- handleMessage keeps every open batch well formed, and hands over only batches that are well formed
-- and not empty.
use zhiguang_go.Base.{
  true, ◌≤◌, false, ℕ, ◌+◌, ◌<◌, ◌≡◌, refl, sym, ap, ◌∙◌, subst, inl, inr, not, ◌&&◌, Option, none,
  some, arith, ltb, leb, ◌==◌, Bool-cases, Bytes,
}
use zhiguang_go.Counter.Model.{CounterEvent}
use zhiguang_go.Counter.Watermark.{at_most, advance_applied_offset}
use zhiguang_go.Counter.Batch.{
  Message, Batch, Consumer, Faults, Added, added, refused, size, new_batch, add_event,
  handle_message, drop_batch, put_batch, skip_malformed_message, handle_parsed, accept_message,
  add_to_open, add_to_new, refuse_message,
}
use zhiguang_go.Counter.Batch.Contiguity.{
  IsWellFormed, add_event-IsWellFormed, new_batch-IsWellFormed,
}

pub record IsSound (c : Consumer) : Type 0 where
  pub each : (p : ℕ) (b : Batch) → c.batches p ≡ some b → IsWellFormed b

-- The batch to flush and the consumer after a message.
pub record HandsOver (x : Option Batch × Consumer) : Type 0 where
  pub handed : (b : Batch) → x.0 ≡ some b → IsWellFormed b × (0 < size b)
  pub rest : IsSound x.1

skip_malformed_message-batches :
    (f : Faults) (msg : Message) (c : Consumer)
    → (skip_malformed_message f msg c).batches ≡ c.batches
unfolding skip_malformed_message
skip_malformed_message-batches f msg c = ground arith

skip-IsSound :
    (f : Faults) (msg : Message) (c : Consumer)
    → IsSound c
    → IsSound (skip_malformed_message f msg c)
skip-IsSound f msg c s = record {
  each = λ p b h.
      s.each p b
        (ap (λ (m : ℕ → Option Batch). m p) (sym (skip_malformed_message-batches f msg c)) ∙ h);
}

pub drop-IsSound : (p : ℕ) (c : Consumer) → IsSound c → IsSound (drop_batch p c)
drop-IsSound p c s = record { each = λ q b h. s.each q b (ground arith) }

put-IsSound :
    (p : ℕ) (b : Batch) (c : Consumer) → IsWellFormed b → IsSound c → IsSound (put_batch p b c)
put-IsSound p b c v s = record {
  each = λ q b' h. elim (Bool-cases (p == q)) [
    | inl same ↦ subst IsWellFormed (stored (rw same at h)) v
    | inr other ↦ s.each q b' (rw other at h)
  ];
}
  where
    stored : {b' : Batch} → some b ≡ some b' → b ≡ b'
    stored h = cc

pub nothing_handed : (c : Consumer) → IsSound c → HandsOver (none, c)
nothing_handed c s = record { handed = λ b h. absurd (no_batch h); rest = s }
  where
    no_batch : {b : Batch} → none ≡ some b → ⊥
    no_batch h = cc

pub one_handed :
    (b : Batch) (c : Consumer) → IsWellFormed b → 0 < size b → IsSound c → HandsOver (some b, c)
one_handed b c v h s = record {
  handed = λ b' e. subst (λ y. IsWellFormed y × (0 < size y)) (same e) (v, h);
  rest = s;
}
  where
    same : {b' : Batch} → some b ≡ some b' → b ≡ b'
    same e = cc

refuse_message-HandsOver :
    (f : Faults) (msg : Message) (o : Option Batch) (c : Consumer)
    → ((b : Batch) → o ≡ some b → IsWellFormed b)
    → IsSound c
    → HandsOver (refuse_message f msg o c)
unfolding refuse_message
refuse_message-HandsOver f msg none c v s = nothing_handed _ (skip-IsSound f msg c s)
refuse_message-HandsOver f msg (some b) c v s = elim (Bool-cases (0 == size b)) [
  | inl empty ↦ rw empty (nothing_handed _ (skip-IsSound f msg c s))
  | inr going ↦ rw going (
      one_handed b _ (v b refl) (ground arith)
        (skip-IsSound f msg _ (drop-IsSound msg.partition c s)))
]

add_to_open-HandsOver :
    (now : ℕ) (f : Faults) (msg : Message) (evt : CounterEvent) (b : Batch) (c : Consumer)
    (x : Added)
    → add_event now b msg evt ≡ x
    → IsWellFormed b
    → IsSound c
    → HandsOver (add_to_open f msg b x c)
unfolding add_to_open
add_to_open-HandsOver now f msg evt b c (added b') e v s =
    let (v', open_size) = add_event-IsWellFormed now b b' msg evt v e in
    elim (Bool-cases (leb c.batch_size (size b'))) [
      | inl full ↦ rw full (one_handed b' _ v' open_size (drop-IsSound msg.partition c s))
      | inr room ↦ rw room (nothing_handed _ (put-IsSound msg.partition b' c v' s))
    ]
add_to_open-HandsOver now f msg evt b c (refused r) e v s = elim (Bool-cases (ltb 0 (size b))) [
  | inl going ↦
      rw going
        (one_handed b _ v (ground arith) (skip-IsSound f msg _ (drop-IsSound msg.partition c s)))
  | inr empty ↦
      rw empty (nothing_handed _ (skip-IsSound f msg _ (put-IsSound msg.partition b c v s)))
]

add_to_new-HandsOver :
    (now : ℕ) (msg : Message) (evt : CounterEvent) (old : Batch) (c : Consumer) (x : Added)
    → add_event now new_batch msg evt ≡ x
    → IsWellFormed old
    → 0 < size old
    → IsSound c
    → HandsOver (add_to_new now msg evt old x c)
unfolding add_to_new
add_to_new-HandsOver now msg evt old c (added b) e v h s = one_handed old _ v h (
    put-IsSound msg.partition b c
      (add_event-IsWellFormed now new_batch b msg evt new_batch-IsWellFormed e).0 s)
add_to_new-HandsOver now msg evt old c (refused r) e v h s =
    one_handed old _ v h (put-IsSound msg.partition new_batch c new_batch-IsWellFormed s)

accept_message-HandsOver :
    (now : ℕ) (f : Faults) (msg : Message) (evt : CounterEvent) (o : Option Batch) (c : Consumer)
    → ((b : Batch) → o ≡ some b → IsWellFormed b)
    → IsSound c
    → HandsOver (accept_message now f msg evt o c)
unfolding accept_message
accept_message-HandsOver now f msg evt none c v s =
    add_to_open-HandsOver now f msg evt new_batch c _ refl new_batch-IsWellFormed s
accept_message-HandsOver now f msg evt (some b) c v s =
    elim (Bool-cases (ltb 0 (size b) && not (msg.offset == b.end_offset + 1))) [
      | inl gap ↦ rw gap (
          add_to_new-HandsOver now msg evt b _ _ refl (v b refl) (ground arith)
            (drop-IsSound msg.partition c s))
      | inr next ↦ rw next (add_to_open-HandsOver now f msg evt b c _ refl (v b refl) s)
    ]

handle_parsed-HandsOver :
    (now : ℕ) (f : Faults) (msg : Message) (o : Option CounterEvent) (c : Consumer)
    → IsSound c
    → HandsOver (handle_parsed now f msg o c)
unfolding handle_parsed
handle_parsed-HandsOver now f msg none c s =
    refuse_message-HandsOver f msg (c.batches msg.partition) c (s.each msg.partition) s
handle_parsed-HandsOver now f msg (some evt) c s =
    accept_message-HandsOver now f msg evt (c.batches msg.partition) c (s.each msg.partition) s

-- Whatever the message, its decoding and the failures: the open batches stay well formed, and a
-- batch that is handed over for a flush is well formed and not empty.
pub handle_message-HandsOver :
    (parse : Bytes → Option CounterEvent) (now : ℕ) (f : Faults) (msg : Message) (c : Consumer)
    → IsSound c
    → HandsOver (handle_message parse now f msg c)
unfolding handle_message
handle_message-HandsOver parse now f msg c s =
    handle_parsed-HandsOver now f msg (parse msg.value) c s

-- A message that cannot be decoded is skipped first, and the open batch of its partition is handed
-- over for a flush after that.
pub handle_message_malformed :
    (parse : Bytes → Option CounterEvent) (now : ℕ) (f : Faults) (msg : Message) (b : Batch)
    (c : Consumer)
    → parse msg.value ≡ none
    → c.batches msg.partition ≡ some b
    → 0 < size b
    → handle_message parse now f msg c
      ≡ (some b, skip_malformed_message f msg (drop_batch msg.partition c))
unfolding handle_message handle_parsed
handle_message_malformed parse now f msg b c bad going h =
    ap (λ (o : Option CounterEvent). handle_parsed now f msg o c) bad
    ∙ ap (λ (o : Option Batch). refuse_message f msg o c) going
    ∙ refused_open h
  where
    refused_open :
        0 < size b
        → refuse_message f msg (some b) c
          ≡ (some b, skip_malformed_message f msg (drop_batch msg.partition c))
    refused_open h = unfold refuse_message in rw (not_empty (size b) h) refl
      where
        not_empty : (n : ℕ) → 0 < n → (0 == n) ≡ false
        not_empty n h = ground arith

-- A skipped message moves the watermark of its partition to its offset, unless it is higher.
pub skip_malformed_message-watermark :
    (f : Faults) (msg : Message) (c : Consumer) (o : ℕ)
    → f.advance_fails ≡ false
    → o ≤ msg.offset
    → at_most o ((skip_malformed_message f msg c).watermark msg.partition) ≡ true
unfolding skip_malformed_message advance_applied_offset
skip_malformed_message-watermark f msg c o h le = ground arith

pub skip_malformed_message-hash :
    (f : Faults) (msg : Message) (c : Consumer) → (skip_malformed_message f msg c).hash ≡ c.hash
unfolding skip_malformed_message advance_applied_offset
skip_malformed_message-hash f msg c = ground arith
