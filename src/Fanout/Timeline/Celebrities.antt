-- ===== src/Fanout/Timeline/Celebrities.antt =====
-- The scan of the followed users keeps to the maximum of celebrities.
use zhiguang_go.Base.{
  ℕ, zero, suc, ◌≤◌, ◌<◌, ◌≡◌, refl, subst, inl, inr, Bool, true, false, ◌||◌, Option, none, some,
  List, [], ◌∷◌, ◌++◌, arith, ltb, leb, Bool-cases, length, length-append, Bytes, bytes_eq,
}
use zhiguang_go.Fanout.Timeline.{
  collect, next_batch, filter_batch, scan_batch, scan_pages, followed_celebrities, scan_page_size,
  scan_max_pages,
}

-- the celebrities are at most the maximum, and fewer as long as the scan goes on
collect-le :
    (max_pull : ℕ) (ids celebs : List ℕ)
    → length celebs < max_pull
    → (length (collect max_pull ids celebs).1 ≤ max_pull)
      × ((collect max_pull ids celebs).0 ≡ false
          → length (collect max_pull ids celebs).1 < max_pull)
unfolding collect
collect-le max_pull [] celebs h = (omega arith, λ e. h)
collect-le max_pull (id ∷ ids) celebs h =
    elim (Bool-cases (leb max_pull (length (celebs ++ id ∷ [])))) [
      | inl b ↦ rw (b) (omega (arith, length-append celebs (id ∷ [])), λ e. cc)
      | inr b ↦ rw (b) (collect-le max_pull ids (celebs ++ id ∷ []) (ground arith))
    ]

AtMost : ℕ → Option (List ℕ) → Type 0
AtMost max_pull none = Unit
AtMost max_pull (some celebs) = length celebs ≤ max_pull

next_batch-AtMost :
    (max_pull : ℕ) (batch : List ℕ) (next cursor : Bytes) (x : Bool × List ℕ)
    (scan : Bytes → List ℕ → Option (List ℕ))
    → (length x.1 ≤ max_pull) × (x.0 ≡ false → length x.1 < max_pull)
    → ((c : Bytes) (celebs : List ℕ) → length celebs < max_pull → AtMost max_pull (scan c celebs))
    → AtMost max_pull (next_batch batch next cursor x scan)
unfolding next_batch AtMost
next_batch-AtMost max_pull batch next cursor (true, celebs) scan h k = h.0
next_batch-AtMost max_pull batch next cursor (false, celebs) scan h k =
    elim (Bool-cases
      (bytes_eq next [] || bytes_eq next cursor || ltb (length batch) scan_page_size)) [
        | inl b ↦ rw (b) h.0
        | inr b ↦ rw (b) (k next celebs (h.1 refl))
      ]

filter_batch-AtMost :
    (max_pull : ℕ) (found : Option (List ℕ)) (batch : List ℕ) (next cursor : Bytes)
    (celebs : List ℕ) (scan : Bytes → List ℕ → Option (List ℕ))
    → length celebs < max_pull
    → ((c : Bytes) (celebs : List ℕ) → length celebs < max_pull → AtMost max_pull (scan c celebs))
    → AtMost max_pull (filter_batch max_pull found batch next cursor celebs scan)
unfolding filter_batch
filter_batch-AtMost max_pull none batch next cursor celebs scan h k = unfold AtMost in tt
filter_batch-AtMost max_pull (some found) batch next cursor celebs scan h k =
    next_batch-AtMost max_pull batch next cursor (collect max_pull found celebs) scan
      (collect-le max_pull found celebs h) k

module _ (following_cursor : Bytes → Option (List ℕ × Bytes))
    (among : List ℕ → Option (List ℕ)) where
  scan_batch-AtMost :
      (max_pull : ℕ) (o : Option (List ℕ × Bytes)) (cursor : Bytes) (celebs : List ℕ)
      (scan : Bytes → List ℕ → Option (List ℕ))
      → length celebs < max_pull
      → ((c : Bytes) (celebs : List ℕ) → length celebs < max_pull → AtMost max_pull (scan c celebs))
      → AtMost max_pull (scan_batch following_cursor among max_pull o cursor celebs scan)
  unfolding scan_batch AtMost
  scan_batch-AtMost max_pull none cursor celebs scan h k = tt
  scan_batch-AtMost max_pull (some ([], next)) cursor celebs scan h k = omega arith
  scan_batch-AtMost max_pull (some (id ∷ ids, next)) cursor celebs scan h k =
      filter_batch-AtMost max_pull (among (id ∷ ids)) (id ∷ ids) next cursor celebs scan h k

  scan_pages-AtMost :
      (max_pull n : ℕ) (cursor : Bytes) (celebs : List ℕ)
      → length celebs < max_pull
      → AtMost max_pull (scan_pages following_cursor among max_pull n cursor celebs)
  unfolding scan_pages AtMost
  scan_pages-AtMost max_pull zero cursor celebs h = omega arith
  scan_pages-AtMost max_pull (suc n) cursor celebs h =
      scan_batch-AtMost max_pull (following_cursor cursor) cursor celebs
        (scan_pages following_cursor among max_pull n) h
        (λ c found l. scan_pages-AtMost max_pull n c found l)

  -- Of the followed users, at most the configured maximum of celebrities is pulled, whatever the lister
  -- and the filter answer, where that maximum is positive.
  pub followed_celebrities-le :
      (max_pull : ℕ) (celebs : List ℕ)
      → 0 < max_pull
      → followed_celebrities following_cursor among max_pull ≡ some celebs
      → length celebs ≤ max_pull
  unfolding followed_celebrities AtMost
  followed_celebrities-le max_pull celebs h e =
      subst (AtMost max_pull) e (scan_pages-AtMost max_pull scan_max_pages [] [] h)
