-- ===== src/Fanout/Timeline/Merged.antt =====
-- The merged timeline: in strict order, each post once, and no post left out.
use zhiguang_go.Base.{
  ℕ, ◌≡◌, refl, sym, ap, ◌∙◌, ◌≢◌, inl, inr, Bool, true, false, ◌||◌, List, [], ◌∷◌, ◌++◌, arith,
  ◌==◌, Bool-cases, All,
}
use zhiguang_go.Fanout.Timeline.{
  TimelineEntry, before, seen, dedupe, insert_entry, sort_entries, merge_timelines,
}

-- Each entry comes before all that follow.
abbrev pub Descends : List TimelineEntry → Type 0
Descends [] = Unit
Descends (e ∷ es) = All (λ x. before e x ≡ true) es × Descends es

-- No two entries are of one post.
abbrev pub Distinct : List TimelineEntry → Type 0
Distinct [] = Unit
Distinct (e ∷ es) = All (λ x. e.post_id ≢ x.post_id) es × Distinct es

pub before_trans :
    (a b c : TimelineEntry) → before a b ≡ true → before b c ≡ true → before a c ≡ true
unfolding before
before_trans a b c h k = ground arith

before_total :
    (a b : TimelineEntry) → a.post_id ≢ b.post_id → before a b ≡ false → before b a ≡ true
unfolding before
before_total a b h k = ground arith

All-insert_entry :
    (P : TimelineEntry → Type 0) (e : TimelineEntry) (es : List TimelineEntry)
    → P e
    → All P es
    → All P (insert_entry e es)
unfolding insert_entry
All-insert_entry P e [] p h = (p, tt)
All-insert_entry P e (x ∷ xs) p (q, qs) = elim (Bool-cases (before e x)) [
  | inl b ↦ rw (b) (p, (q, qs))
  | inr b ↦ rw (b) (q, All-insert_entry P e xs p qs)
]

All-sort_entries :
    (P : TimelineEntry → Type 0) (es : List TimelineEntry) → All P es → All P (sort_entries es)
unfolding sort_entries
All-sort_entries P [] h = tt
All-sort_entries P (e ∷ es) (p, ps) =
    All-insert_entry P e (sort_entries es) p (All-sort_entries P es ps)

All-before_trans :
    (e x : TimelineEntry) (xs : List TimelineEntry)
    → before e x ≡ true
    → All (λ y. before x y ≡ true) xs
    → All (λ y. before e y ≡ true) xs
All-before_trans e x [] h k = tt
All-before_trans e x (y ∷ ys) h (k, ks) = (before_trans e x y h k, All-before_trans e x ys h ks)

insert_entry-Descends :
    (e : TimelineEntry) (es : List TimelineEntry)
    → All (λ x. e.post_id ≢ x.post_id) es
    → Descends es
    → Descends (insert_entry e es)
unfolding insert_entry
insert_entry-Descends e [] h d = (tt, tt)
insert_entry-Descends e (x ∷ xs) (h, hs) (d, ds) = elim (Bool-cases (before e x)) [
  | inl b ↦ rw (b) ((b, All-before_trans e x xs b d), (d, ds))
  | inr b ↦ rw (b) (
    All-insert_entry (λ y. before x y ≡ true) e xs (before_total e x h b) d,
    insert_entry-Descends e xs hs ds,
  )
]

sort_entries-Descends : (es : List TimelineEntry) → Distinct es → Descends (sort_entries es)
unfolding sort_entries
sort_entries-Descends [] h = tt
sort_entries-Descends (e ∷ es) (h, hs) =
    insert_entry-Descends e (sort_entries es) (All-sort_entries (λ x. e.post_id ≢ x.post_id) es h)
      (sort_entries-Descends es hs)

insert_entry-Distinct :
    (e : TimelineEntry) (es : List TimelineEntry)
    → All (λ x. e.post_id ≢ x.post_id) es
    → Distinct es
    → Distinct (insert_entry e es)
unfolding insert_entry
insert_entry-Distinct e [] h d = (tt, tt)
insert_entry-Distinct e (x ∷ xs) (h, hs) (d, ds) = elim (Bool-cases (before e x)) [
  | inl b ↦ rw (b) ((h, hs), (d, ds))
  | inr b ↦ rw (b) (
    All-insert_entry (λ y. x.post_id ≢ y.post_id) e xs (λ k. h (sym k)) d,
    insert_entry-Distinct e xs hs ds,
  )
]

sort_entries-Distinct : (es : List TimelineEntry) → Distinct es → Distinct (sort_entries es)
unfolding sort_entries
sort_entries-Distinct [] h = tt
sort_entries-Distinct (e ∷ es) (h, hs) =
    insert_entry-Distinct e (sort_entries es) (All-sort_entries (λ x. e.post_id ≢ x.post_id) es h)
      (sort_entries-Distinct es hs)

-- what is kept of a list is none of the posts that were seen
dedupe-unseen :
    (ids : List ℕ) (es : List TimelineEntry) → All (λ x. seen x.post_id ids ≡ false) (dedupe ids es)
unfolding dedupe
dedupe-unseen ids [] = tt
dedupe-unseen ids (e ∷ es) = elim (Bool-cases (seen e.post_id ids)) [
  | inl b ↦ rw (b) (dedupe-unseen ids es)
  | inr b ↦
      rw (b)
        (b, weaken e.post_id ids (dedupe (e.post_id ∷ ids) es) (dedupe-unseen (e.post_id ∷ ids) es))
]
  where
    weaken :
        (id : ℕ) (ids : List ℕ) (xs : List TimelineEntry)
        → All (λ x. seen x.post_id (id ∷ ids) ≡ false) xs
        → All (λ x. seen x.post_id ids ≡ false) xs
    weaken id ids [] h = tt
    weaken id ids (x ∷ xs) (h, hs) = (unfold seen in ground arith, weaken id ids xs hs)

dedupe-Distinct : (ids : List ℕ) (es : List TimelineEntry) → Distinct (dedupe ids es)
unfolding dedupe
dedupe-Distinct ids [] = tt
dedupe-Distinct ids (e ∷ es) = elim (Bool-cases (seen e.post_id ids)) [
  | inl b ↦ rw (b) (dedupe-Distinct ids es)
  | inr b ↦ rw (b) (
    others e.post_id ids (dedupe (e.post_id ∷ ids) es) (dedupe-unseen (e.post_id ∷ ids) es),
    dedupe-Distinct (e.post_id ∷ ids) es,
  )
]
  where
    others :
        (id : ℕ) (ids : List ℕ) (xs : List TimelineEntry)
        → All (λ x. seen x.post_id (id ∷ ids) ≡ false) xs
        → All (λ x. id ≢ x.post_id) xs
    others id ids [] h = tt
    others id ids (x ∷ xs) (h, hs) = (unfold seen in ground arith, others id ids xs hs)

-- whether some entry is of the post
pub shows : ℕ → List TimelineEntry → Bool
shows id [] = false
shows id (e ∷ es) = (id == e.post_id) || shows id es

shows-insert_entry :
    (id : ℕ) (e : TimelineEntry) (es : List TimelineEntry)
    → shows id (insert_entry e es) ≡ ((id == e.post_id) || shows id es)
unfolding shows insert_entry
shows-insert_entry id e [] = refl
shows-insert_entry id e (x ∷ xs) = ground (arith, shows-insert_entry id e xs)

shows-sort_entries : (id : ℕ) (es : List TimelineEntry) → shows id (sort_entries es) ≡ shows id es
unfolding shows sort_entries
shows-sort_entries id [] = refl
shows-sort_entries id (e ∷ es) =
    shows-insert_entry id e (sort_entries es)
    ∙ ap (λ b. (id == e.post_id) || b) (shows-sort_entries id es)

shows-dedupe :
    (id : ℕ) (ids : List ℕ) (es : List TimelineEntry)
    → (seen id ids || shows id (dedupe ids es)) ≡ (seen id ids || shows id es)
unfolding shows dedupe seen
shows-dedupe id ids [] = refl
shows-dedupe id ids (e ∷ es) = ground (
  arith,
  shows-dedupe id ids es,
  shows-dedupe id (e.post_id ∷ ids) es,
  ap (λ (n : ℕ). seen n ids) {x = id} {y = e.post_id},
)

shows-append :
    (id : ℕ) (xs ys : List TimelineEntry) → shows id (xs ++ ys) ≡ (shows id xs || shows id ys)
unfolding shows
shows-append id [] ys = refl
shows-append id (x ∷ xs) ys = ground (arith, shows-append id xs ys)

pub merge_timelines-Descends :
    (pushed pulled : List TimelineEntry) → Descends (merge_timelines pushed pulled 0)
unfolding merge_timelines
merge_timelines-Descends pushed pulled =
    sort_entries-Descends (dedupe [] (pushed ++ pulled)) (dedupe-Distinct [] (pushed ++ pulled))

-- The merge of two timelines is in strict order of time and post, no two of its entries are of one
-- post, and it has exactly the posts of the two.
pub merge_timelines-merges :
    (pushed pulled : List TimelineEntry)
    → Descends (merge_timelines pushed pulled 0)
      × Distinct (merge_timelines pushed pulled 0)
      × ((id : ℕ)
          → shows id (merge_timelines pushed pulled 0) ≡ (shows id pushed || shows id pulled))
unfolding merge_timelines
merge_timelines-merges pushed pulled = (
  merge_timelines-Descends pushed pulled,
  sort_entries-Distinct (dedupe [] (pushed ++ pulled)) (dedupe-Distinct [] (pushed ++ pulled)),
  λ id.
      shows-sort_entries id (dedupe [] (pushed ++ pulled))
      ∙ unseen_first id (pushed ++ pulled)
      ∙ shows-append id pushed pulled,
)
  where
    unseen_first : (id : ℕ) (es : List TimelineEntry) → shows id (dedupe [] es) ≡ shows id es
    unseen_first id es = unfold seen in shows-dedupe id [] es
