-- ===== src/Counter/Loop/Deadlines.antt =====
-- nextBatchDeadline of internal/counter/consumer.go gives the earliest deadline.
use zhiguang_go.Base.{
  ◌||◌, ℕ, ◌≤◌, ◌<◌, ◌≡◌, refl, sym, ap, ◌∙◌, subst, inl, inr, Bool, true, false, Option, none,
  some, List, [], ◌∷◌, arith, ltb, ◌==◌, if◌then◌else◌, Bool-cases, ==_iff, All,
}
use zhiguang_go.Counter.Batch.{Batch, Consumer, size}
use zhiguang_go.Counter.Loop.{
  next_batch_deadline, deadline_of, take_expired_batch, earlier, with_batch, earliest_from,
}
use zhiguang_go.Counter.Loop.Waiting.{IsWaiting, all-IsWaiting}

module _ (interval now : ℕ) where
  -- The deadline that was found so far, and every later one, is after `now`.
  abbrev IsAhead : Option ℕ → Type 0
  IsAhead none = Unit
  IsAhead (some d) = now < d

  if-IsAhead : (b : Bool) (x y : Option ℕ) → IsAhead x → IsAhead y → IsAhead (if b then x else y)
  if-IsAhead true x y h k = h
  if-IsAhead false x y h k = k

  earlier-IsAhead : (found : Option ℕ) (d : ℕ) → IsAhead found → now < d → IsAhead (earlier found d)
  unfolding earlier
  earlier-IsAhead none d h k = k
  earlier-IsAhead (some e) d h k = if-IsAhead (ltb d e) (some d) (some e) k h

  with_batch-IsAhead :
      (found : Option ℕ) (o : Option Batch)
      → IsAhead found
      → ((b : Batch) → o ≡ some b → (0 < size b) × (now < deadline_of interval b))
      → IsAhead (with_batch interval found o)
  unfolding with_batch
  with_batch-IsAhead found none h w = h
  with_batch-IsAhead found (some b) h w =
      if-IsAhead (size b == 0) found _ h
        (earlier-IsAhead found (deadline_of interval b) h (w b refl).1)

  earliest_from-IsAhead :
      (found : Option ℕ) (ps : List ℕ) (m : ℕ → Option Batch)
      → IsAhead found
      → All (IsWaiting interval now m) ps
      → IsAhead (earliest_from interval found ps m)
  unfolding earliest_from
  earliest_from-IsAhead found [] m h ws = h
  earliest_from-IsAhead found (p ∷ ps) m h (w, ws) =
      earliest_from-IsAhead (with_batch interval found (m p)) ps m
        (with_batch-IsAhead found (m p) h w) ws

  -- no later than the deadline of a batch of the partition
  abbrev IsBefore : Option ℕ → (ℕ → Option Batch) → ℕ → Type 0
  IsBefore found m p =
      (b : Batch) (d : ℕ) → m p ≡ some b → 0 < size b → found ≡ some d → d ≤ deadline_of interval b

  -- a deadline that is no later
  abbrev Lowered : ℕ → Option ℕ → Type 0
  Lowered e o = (d : ℕ) × (o ≡ some d) × (d ≤ e)

  if-Lowered :
      (e : ℕ) (b : Bool) (x y : Option ℕ)
      → (b ≡ true → Lowered e x)
      → (b ≡ false → Lowered e y)
      → Lowered e (if b then x else y)
  if-Lowered e true x y h k = h refl
  if-Lowered e false x y h k = k refl

  earlier-Lowered : (e d : ℕ) → Lowered e (earlier (some e) d) × Lowered d (earlier (some e) d)
  unfolding earlier
  earlier-Lowered e d = (
    if-Lowered e (ltb d e) _ _ (λ b. (d, refl, ground arith)) (λ b. (e, refl, ground arith)),
    if-Lowered d (ltb d e) _ _ (λ b. (d, refl, ground arith)) (λ b. (e, refl, ground arith)),
  )

  with_batch-Lowered : (e : ℕ) (o : Option Batch) → Lowered e (with_batch interval (some e) o)
  unfolding with_batch
  with_batch-Lowered e none = (e, refl, ground arith)
  with_batch-Lowered e (some b) =
      if-Lowered e (size b == 0) _ _ (λ x. (e, refl, ground arith))
        (λ x. (earlier-Lowered e (deadline_of interval b)).0)

  earlier-deadline : (found : Option ℕ) (d : ℕ) → Lowered d (earlier found d)
  unfolding earlier
  earlier-deadline none d = (d, refl, ground arith)
  earlier-deadline (some e) d = (earlier-Lowered e d).1

  with_batch-deadline :
      (found : Option ℕ) (b : Batch)
      → 0 < size b
      → Lowered (deadline_of interval b) (with_batch interval found (some b))
  unfolding with_batch
  with_batch-deadline found b h =
      if-Lowered (deadline_of interval b) (size b == 0) _ _ (λ x. absurd (empty (size b) h x))
        (λ x. earlier-deadline found (deadline_of interval b))
    where
      empty : (n : ℕ) → 0 < n → (n == 0) ≡ true → ⊥
      empty n h x = ground arith

  earliest_from-lowers :
      (ps : List ℕ) (m : ℕ → Option Batch) (found : Option ℕ) (d e : ℕ)
      → Lowered e found
      → earliest_from interval found ps m ≡ some d
      → d ≤ e
  unfolding earliest_from
  earliest_from-lowers [] m found d e (e', h, l) k = ground arith
  earliest_from-lowers (p ∷ ps) m found d e (e', h, l) k =
      let (e'', h', l') = with_batch-Lowered e' (m p) in
      earliest_from-lowers ps m (with_batch interval found (m p)) d e
        (e'', ap (λ (o : Option ℕ). with_batch interval o (m p)) h ∙ h', omega (arith, l, l')) k

  earliest_from-IsBefore :
      (found : Option ℕ) (ps : List ℕ) (m : ℕ → Option Batch)
      → All (IsBefore (earliest_from interval found ps m) m) ps
  unfolding earliest_from
  earliest_from-IsBefore found [] m = tt
  earliest_from-IsBefore found (p ∷ ps) m = (
    λ b d h filled k.
        earliest_from-lowers ps m (with_batch interval found (m p)) d (deadline_of interval b)
          (subst
            (λ (o : Option Batch). Lowered (deadline_of interval b) (with_batch interval found o))
            (sym h) (with_batch-deadline found b filled))
          k,
    earliest_from-IsBefore (with_batch interval found (m p)) ps m,
  )

abbrev pub listed : ℕ → List ℕ → Bool
listed q [] = false
listed q (p ∷ ps) = (p == q) || listed q ps

All-listed : (P : ℕ → Type 0) (q : ℕ) (ps : List ℕ) → All P ps → listed q ps ≡ true → P q
All-listed P q (p ∷ ps) (h, hs) l = elim (Bool-cases (p == q)) [
  | inl e ↦ subst P ((==_iff p q).0 e) h
  | inr e ↦ All-listed P q ps hs (ground arith)
]
All-listed P q [] hs l = absurd (cc)

module _ (P Q R : ℕ → Type 0) where
  All-map : (ps : List ℕ) → ((p : ℕ) → P p → R p) → All P ps → All R ps
  All-map [] f hs = tt
  All-map (p ∷ ps) f (h, hs) = (f p h, All-map ps f hs)

  All-both : (ps : List ℕ) → ((p : ℕ) → P p → Q p → R p) → All P ps → All Q ps → All R ps
  All-both [] f hs ks = tt
  All-both (p ∷ ps) f (h, hs) (k, ks) = (f p h k, All-both ps f hs ks)

-- Where no batch of the partitions is taken at the time `now`, each of them that has one has one that is
-- not empty and whose time is not over. The deadline that is found next among these partitions, met in
-- any order, is after `now`, and it is not after the time of any of their batches.
pub take_expired_batch-waits :
    (interval now : ℕ) (ps qs : List ℕ) (c : Consumer)
    → (take_expired_batch interval now ps c).0 ≡ none
    → All (λ q. listed q ps ≡ true) qs
    → let m = (take_expired_batch interval now ps c).1.batches in
      All (IsWaiting interval now m) ps
      × ((d : ℕ)
          → next_batch_deadline interval qs m ≡ some d
          → (now < d) × All (λ q. (b : Batch) → m q ≡ some b → d ≤ deadline_of interval b) qs)
unfolding next_batch_deadline
take_expired_batch-waits interval now ps qs c h ls =
    let m : ℕ → Option Batch = (take_expired_batch interval now ps c).1.batches in
    let ws : All (IsWaiting interval now m) ps = all-IsWaiting interval now ps c h in
    let vs : All (IsWaiting interval now m) qs =
      All-map (λ q. listed q ps ≡ true) (λ q. Unit) (IsWaiting interval now m) qs
        (λ q l. All-listed (IsWaiting interval now m) q ps ws l) ls in
    (
      ws,
      λ d e. (
        subst (IsAhead interval now) e (earliest_from-IsAhead interval now none qs m tt vs),
        All-both (IsWaiting interval now m)
            (IsBefore interval now (earliest_from interval none qs m) m)
            (λ q. (b : Batch) → m q ≡ some b → d ≤ deadline_of interval b) qs
            (λ q w k b g. k b d g (w b g).0 e) vs (earliest_from-IsBefore interval now none qs m),
      ),
    )
