-- ===== src/Counter/Watermark/Nonneg.antt =====
-- No counter that the script writes is negative, whatever the batch and however the script ends.
use zhiguang_go.Base.{
  ℕ, ◌+◌, ◌≡◌, refl, sym, subst, inl, inr, Bool, true, false, Option, none, some, List, [], ◌∷◌,
  arith, if◌then◌else◌, Bool-cases, get_elem?, Bytes,
}
use zhiguang_go.Base.Int.{ℤ, pos, ◌≤ℤ◌}
use zhiguang_go.Counter.Watermark.{
  Store, Event, Reply, ok, gap, no_key, at_most, Round, go_on, stop, round, rounds,
  apply_partition_batch, write_event, finish, resume, incr_clamped,
}

abbrev pub IsNonneg : (Bytes → Bytes → Option ℤ) → Type 0
IsNonneg hash = (key field : Bytes) (n : ℤ) → hash key field ≡ some n → pos 0 ≤ℤ n

incr_clamped-IsNonneg :
    (hash : Bytes → Bytes → Option ℤ) (key field : Bytes) (delta : ℤ)
    → IsNonneg hash
    → IsNonneg (incr_clamped hash key field delta)
unfolding incr_clamped
incr_clamped-IsNonneg hash key field delta h k f n p = ground (arith, h k f n)

abbrev LeavesNonneg : Round → Type 0
LeavesNonneg (go_on l r) = IsNonneg r.hash
LeavesNonneg (stop p) = Unit

write_event-IsNonneg :
    (e : Event) (key marker : Option Bytes) (r : Store)
    → IsNonneg r.hash
    → LeavesNonneg (write_event e key marker r)
unfolding write_event
write_event-IsNonneg e none marker r h = tt
write_event-IsNonneg e (some key) none r h = tt
write_event-IsNonneg e (some key) (some marker) r h = written (r.marked marker)
  where
    written :
        (b : Bool)
        → IsNonneg
            (if b then r else record r { hash = incr_clamped r.hash key e.field e.delta }).hash
    written true = h
    written false = incr_clamped-IsNonneg r.hash key e.field e.delta h

module _ (keys : List Bytes) (n : ℕ) where
  round-IsNonneg :
      (w : Option ℕ) (e : Event) (last : Option ℕ) (r : Store)
      → IsNonneg r.hash
      → LeavesNonneg (round keys n w e last r)
  unfolding round
  round-IsNonneg w e last r h = elim (Bool-cases (at_most e.offset w)) [
    | inl old ↦ rw old h
    | inr fresh ↦ rw fresh (elim (Bool-cases (at_most e.offset last)) [
      | inl back ↦ rw back tt
      | inr next ↦ rw next (
          write_event-IsNonneg e (get_elem? keys e.key_index) (get_elem? keys (e.key_index + n)) r
            h)
    ])
  ]

  rounds-IsNonneg :
      (w : Option ℕ) (es : List Event) (last : Option ℕ) (r : Store)
      → IsNonneg r.hash
      → IsNonneg (rounds keys n w es last r).1.hash
  unfolding rounds
  rounds-IsNonneg w [] last r h = h
  rounds-IsNonneg w (e ∷ es) last r h =
      resumed (round keys n w e last r) (round-IsNonneg w e last r h) (rounds-IsNonneg w es)
    where
      resumed :
          (x : Round)
          → LeavesNonneg x
          → ((last : Option ℕ) (r : Store)
              → IsNonneg r.hash
              → IsNonneg (rounds keys n w es last r).1.hash)
          → IsNonneg (resume x (rounds keys n w es) r).1.hash
      resumed (go_on l r2) k ih = ih l r2 k
      resumed (stop p) k ih = h

  finish-hash : (w : Option ℕ) (p : Reply) (r : Store) → (finish w (p, r)).1.hash ≡ r.hash
  finish-hash w (ok last) r = ground arith
  finish-hash w gap r = refl
  finish-hash w no_key r = refl

  -- Where no counter is negative, none is after the script, whatever the batch and the reply.
  pub apply_partition_batch-IsNonneg :
      (es : List Event) (r : Store)
      → IsNonneg r.hash
      → IsNonneg (apply_partition_batch keys n es r).1.hash
  unfolding apply_partition_batch
  apply_partition_batch-IsNonneg es r h =
      let (p, r2) = rounds keys n r.applied es r.applied r in
      subst IsNonneg (sym (finish-hash r.applied p r2)) (rounds-IsNonneg r.applied es r.applied r h)
