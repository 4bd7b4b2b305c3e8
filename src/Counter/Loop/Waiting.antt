-- ===== src/Counter/Loop/Waiting.antt =====
-- takeExpiredBatch of internal/counter/consumer.go: the batches that it leaves are waiting.
use zhiguang_go.Base.{
  ℕ, ◌<◌, ◌≡◌, sym, ap, ◌∙◌, subst, inl, inr, true, false, Option, none, some, List, [], ◌∷◌, arith,
  ◌==◌, if_false, Bool-cases, ==_iff, All,
}
use zhiguang_go.Counter.Batch.{Batch, Consumer, size}
use zhiguang_go.Counter.Batch.Handled.{IsSound}
use zhiguang_go.Counter.Loop.{deadline_of, is_expired, keep_filled, tidy, take_expired_batch}

-- The batch of the partition, if there is one, is not empty and its time is not over.
abbrev pub IsWaiting : ℕ → ℕ → (ℕ → Option Batch) → ℕ → Type 0
IsWaiting interval now m p =
    (b : Batch) → m p ≡ some b → (0 < size b) × (now < deadline_of interval b)

kept : (o : Option Batch) (b : Batch) → keep_filled o ≡ some b → (o ≡ some b) × (0 < size b)
kept none b h = absurd (cc)
kept (some a) b h = elim (Bool-cases (size a == 0)) [
  | inl e ↦ absurd (no_batch (rw e at h))
  | inr e ↦ (rw e at h, filled_as a (rw e at h) e)
]
  where
    no_batch : none ≡ some b → ⊥
    no_batch h = cc

    filled_as : (a : Batch) → some a ≡ some b → (size a == 0) ≡ false → 0 < size b
    filled_as a h e = subst (λ (x : Batch). 0 < size x) (same a h) (ground arith)
      where
        same : (a : Batch) → some a ≡ some b → a ≡ b
        same a h = cc

at_or : (p q : ℕ) (c : Consumer) (b : Batch) → (tidy p c).batches q ≡ some b → c.batches q ≡ some b
at_or p q c b h = elim (Bool-cases (p == q)) [
  | inl e ↦
      subst (λ (x : ℕ). c.batches x ≡ some b) ((==_iff p q).0 e)
        (kept (c.batches p) b (rw e at h)).0
  | inr e ↦ rw e at h
]

tidied : (p : ℕ) (c : Consumer) → (tidy p c).batches p ≡ keep_filled (c.batches p)
tidied p c = ground arith

pub tidy-IsSound : (p : ℕ) (c : Consumer) → IsSound c → IsSound (tidy p c)
tidy-IsSound p c s = record { each = λ q b h. s.each q b (at_or p q c b h) }

module _ (interval now : ℕ) where
  tidy-IsWaiting :
      (p q : ℕ) (c : Consumer)
      → IsWaiting interval now c.batches q
      → IsWaiting interval now (tidy p c).batches q
  tidy-IsWaiting p q c w b h = w b (at_or p q c b h)

  unexpired_batch :
      (o : Option Batch) (b : Batch)
      → is_expired interval now o ≡ false
      → o ≡ some b
      → 0 < size b
      → now < deadline_of interval b
  unfolding is_expired
  unexpired_batch o b e h k = over (ap (is_expired interval now) (sym h) ∙ e)
    where
      over : is_expired interval now (some b) ≡ false → now < deadline_of interval b
      over x = ground arith

  unexpired :
      (p : ℕ) (c : Consumer)
      → is_expired interval now (c.batches p) ≡ false
      → IsWaiting interval now (tidy p c).batches p
  unexpired p c e b h =
      let (held, filled) = kept (c.batches p) b (sym (tidied p c) ∙ h) in
      (filled, unexpired_batch (c.batches p) b e held filled)

  pub expired_batch : (o : Option Batch) → is_expired interval now o ≡ true → o ≡ none → ⊥
  unfolding is_expired
  expired_batch none e h = absurd (cc)
  expired_batch (some b) e h = absurd (cc)

  pub expired_filled :
      (o : Option Batch) (b : Batch) → is_expired interval now o ≡ true → o ≡ some b → 0 < size b
  unfolding is_expired
  expired_filled o b e h = over (ap (is_expired interval now) (sym h) ∙ e)
    where
      over : is_expired interval now (some b) ≡ true → 0 < size b
      over x = ground arith

  -- Looking for an expired batch keeps a waiting one waiting.
  take-IsWaiting :
      (ps : List ℕ) (c : Consumer) (q : ℕ)
      → (take_expired_batch interval now ps c).0 ≡ none
      → IsWaiting interval now c.batches q
      → IsWaiting interval now (take_expired_batch interval now ps c).1.batches q
  unfolding take_expired_batch
  take-IsWaiting [] c q h w = w
  take-IsWaiting (p ∷ ps) c q h w = elim (Bool-cases (is_expired interval now (c.batches p))) [
    | inl e ↦ absurd (expired_batch (c.batches p) e (rw e at h))
    | inr e ↦ rw e (take-IsWaiting ps (tidy p c) q (rw e at h) (tidy-IsWaiting p q c w))
  ]

  pub all-IsWaiting :
      (ps : List ℕ) (c : Consumer)
      → (take_expired_batch interval now ps c).0 ≡ none
      → All (IsWaiting interval now (take_expired_batch interval now ps c).1.batches) ps
  unfolding take_expired_batch
  all-IsWaiting [] c h = tt
  all-IsWaiting (p ∷ ps) c h = elim (Bool-cases (is_expired interval now (c.batches p))) [
    | inl e ↦ absurd (expired_batch (c.batches p) e (rw e at h))
    | inr e ↦
        subst (λ (x : Option Batch × Consumer). All (IsWaiting interval now x.1.batches) (p ∷ ps))
          (sym (if_false _ _ e))
          (
            take-IsWaiting ps (tidy p c) p (rw e at h) (unexpired p c e),
            all-IsWaiting ps (tidy p c) (rw e at h),
          )
  ]
