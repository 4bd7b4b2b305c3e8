-- ===== src/Fanout/Timeline/Pages.antt =====
-- Cursors are read back, and following them never shows a post again.
use zhiguang_go.Base.{
  All-keep, length-take-of, ℕ, zero, suc, ◌+◌, ◌≤◌, ◌<◌, ◌≡◌, refl, sym, ap, ◌∙◌, subst, inl, inr,
  Bool, true, Option, none, some, List, [], ◌∷◌, arith, ltb, if◌then◌else◌, Bool-cases, length,
  take, keep, length-take-le, All, All-take, Bytes, cut_lem,
}
use zhiguang_go.Base.Int.{ℤ}
use zhiguang_go.Base.Decimal.{
  format_int-Lacks, format_int, format_uint, parse_uint, FitsInt64, two_64, parse_int-format_int,
  parse_uint-format_uint,
}
use zhiguang_go.Fanout.Timeline.{
  TimelineEntry, TimelineCursor, encode_timeline_cursor, cut_prefix, both_numbers, parse_parts,
  parse_body, parse_timeline_cursor, after, before, Boxes, Page, Result, page, failed, cut_page,
  last_cursor, after_inbox, after_cursor, home_timeline,
}
use zhiguang_go.Fanout.Timeline.Merged.{Descends, before_trans, merge_timelines-Descends}

-- the values of the Go types of an entry
pub record IsEntry (e : TimelineEntry) : Type 0 where
  pub fits_id : e.post_id < two_64
  pub fits_score : FitsInt64 e.score

abbrev pub cursor_of : TimelineEntry → TimelineCursor
cursor_of e = record { set = true; score = e.score; post_id = e.post_id }

-- The cursor of an entry is read back as the place of that entry.
pub parse_timeline_cursor-encode_timeline_cursor :
    (e : TimelineEntry)
    → IsEntry e
    → parse_timeline_cursor (encode_timeline_cursor e) ≡ some (cursor_of e)
unfolding parse_timeline_cursor encode_timeline_cursor cut_prefix parse_body parse_parts
    both_numbers
parse_timeline_cursor-encode_timeline_cursor e h =
    ap parse_parts
      (cut_lem b':' (format_int e.score) (format_uint e.post_id) (format_int-Lacks e.score))
    ∙ ap (λ ts. both_numbers ts (parse_uint (format_uint e.post_id)))
        (parse_int-format_int e.score h.fits_score)
    ∙ ap (both_numbers (some e.score)) (parse_uint-format_uint e.post_id h.fits_id)

Descends-keep :
    (p : TimelineEntry → Bool) (es : List TimelineEntry) → Descends es → Descends (keep p es)
Descends-keep p [] d = tt
Descends-keep p (e ∷ es) (d, ds) = elim (Bool-cases (p e)) [
  | inl b ↦ rw (b) (All-keep (λ x. before e x ≡ true) p es d, Descends-keep p es ds)
  | inr b ↦ rw (b) (Descends-keep p es ds)
]

Descends-take : (n : ℕ) (es : List TimelineEntry) → Descends es → Descends (take n es)
Descends-take zero es d = tt
Descends-take (suc n) [] d = tt
Descends-take (suc n) (e ∷ es) (d, ds) =
    (All-take (λ x. before e x ≡ true) n es d, Descends-take n es ds)

keep-passes :
    (p : TimelineEntry → Bool) (es : List TimelineEntry) → All (λ x. p x ≡ true) (keep p es)
keep-passes p [] = tt
keep-passes p (e ∷ es) = elim (Bool-cases (p e)) [
  | inl b ↦ rw (b) (b, keep-passes p es)
  | inr b ↦ rw (b) (keep-passes p es)
]

some-injective : {a b : TimelineCursor} → some a ≡ some b → a ≡ b
some-injective h = cc

-- What a page is: in strict order, after the cursor, no longer than the limit, and with the cursor of
-- its last entry.
pub record IsPage (c : TimelineCursor) (limit : ℕ) (p : Page) : Type 0 where
  pub descends : Descends p.entries
  pub follows : All (λ x. after c x ≡ true) p.entries
  pub fits : length p.entries ≤ limit
  pub resumes : p.next ≡ last_cursor p.entries
  pub full : p.has_more ≡ true → length p.entries ≡ limit

pub cut_page-IsPage :
    (c : TimelineCursor) (limit : ℕ) (es : List TimelineEntry)
    → Descends es
    → IsPage c limit (cut_page c limit es)
unfolding cut_page
cut_page-IsPage c limit es d =
    let fetched = take (limit + 1) (keep (after c) es) in
    let sorted = Descends-take (limit + 1) (keep (after c) es) (Descends-keep (after c) es d) in
    let passed =
      All-take (λ x. after c x ≡ true) (limit + 1) (keep (after c) es) (keep-passes (after c) es) in
    elim (Bool-cases (ltb limit (length fetched))) [
      | inl b ↦ rw (b) (record {
        descends = Descends-take limit fetched sorted;
        follows = All-take (λ x. after c x ≡ true) limit fetched passed;
        fits = length-take-le limit fetched;
        resumes = refl;
        full = λ h. length-take-of limit fetched (ground arith);
      })
      | inr b ↦ rw (b) (record {
        descends = sorted;
        follows = passed;
        fits = ground arith;
        resumes = refl;
        full = λ h. cc;
      })
    ]

after_inbox-IsPage :
    (b : Boxes) (c : TimelineCursor) (limit : ℕ) (celebs : Option (List ℕ))
    (inbox : Option (List (Bytes × ℤ))) (p : Page)
    → after_inbox b c limit celebs inbox ≡ page p
    → IsPage c limit p
unfolding after_inbox
after_inbox-IsPage b c limit celebs none p h = cc
after_inbox-IsPage b c limit celebs (some inbox) p h =
    subst (λ r. Both c limit r) h (cut_page-IsPage c limit _ (merge_timelines-Descends _ _))
  where
    Both : TimelineCursor → ℕ → Result → Type 0
    Both c limit (page p) = IsPage c limit p
    Both c limit (failed e) = Unit

abbrev pub page_limit : ℕ → ℕ
page_limit limit = if ltb 0 limit then limit else 20

after_cursor-IsPage :
    (b : Boxes) (limit : ℕ) (celebs : Option (List ℕ)) (o : Option TimelineCursor) (p : Page)
    → after_cursor b limit celebs o ≡ page p
    → (c : TimelineCursor) × (o ≡ some c) × IsPage c limit p
unfolding after_cursor
after_cursor-IsPage b limit celebs none p h = cc
after_cursor-IsPage b limit celebs (some c) p h =
    (c, refl, after_inbox-IsPage b c limit celebs b.inbox p h)

-- What HomeTimeline returns is a page for the cursor that it was given: in strict order, each post
-- once, after the cursor, and no longer than the limit.
pub home_timeline-IsPage :
    (b : Boxes) (celebs : Option (List ℕ)) (cursor : Bytes) (limit : ℕ) (p : Page)
    → home_timeline b celebs cursor limit ≡ page p
    → (c : TimelineCursor) × (parse_timeline_cursor cursor ≡ some c) × IsPage c (page_limit limit) p
unfolding home_timeline
home_timeline-IsPage b celebs cursor limit p h =
    after_cursor-IsPage b (page_limit limit) celebs (parse_timeline_cursor cursor) p h

after-before : (e y : TimelineEntry) → after (cursor_of e) y ≡ true → before e y ≡ true
unfolding after before
after-before e y h = ground arith

-- An entry after the cursor of a page comes after every entry of the page.
below_last :
    (es : List TimelineEntry) (c : TimelineCursor) (y : TimelineEntry)
    → 0 < length es
    → Descends es
    → All IsEntry es
    → parse_timeline_cursor (last_cursor es) ≡ some c
    → after c y ≡ true
    → All (λ x. before x y ≡ true) es
unfolding last_cursor
below_last [] c y n d v h a = ground arith
below_last (e ∷ []) c y n d (v, vs) h a =
    let same : cursor_of e ≡ c =
      some-injective (sym (parse_timeline_cursor-encode_timeline_cursor e v) ∙ h) in
    (after-before e y (subst (λ k. after k y ≡ true) (sym same) a), tt)
below_last (e ∷ x ∷ xs) c y n (d, ds) (v, vs) h a =
    let rest = below_last (x ∷ xs) c y (ground arith) ds vs h a in
    (before_trans e x y d.0 rest.0, rest)

all_below :
    (es ys : List TimelineEntry) (c : TimelineCursor)
    → 0 < length es
    → Descends es
    → All IsEntry es
    → parse_timeline_cursor (last_cursor es) ≡ some c
    → All (λ y. after c y ≡ true) ys
    → All (λ y. All (λ x. before x y ≡ true) es) ys
all_below es [] c n d v h a = tt
all_below es (y ∷ ys) c n d v h (a, more) =
    (below_last es c y n d v h a, all_below es ys c n d v h more)

-- Following the cursor of a page that is not empty, every entry that a later call returns comes
-- strictly after every entry of that page, whatever happened to the boxes in between.
pub home_timeline-resumes :
    (b b' : Boxes) (celebs celebs' : Option (List ℕ)) (cursor : Bytes) (limit limit' : ℕ)
    (p q : Page)
    → home_timeline b celebs cursor limit ≡ page p
    → 0 < length p.entries
    → All IsEntry p.entries
    → home_timeline b' celebs' p.next limit' ≡ page q
    → All (λ y. All (λ x. before x y ≡ true) p.entries) q.entries
home_timeline-resumes b b' celebs celebs' cursor limit limit' p q h n v k =
    let (c, at_c, first) = home_timeline-IsPage b celebs cursor limit p h in
    let (d, at_d, second) = home_timeline-IsPage b' celebs' p.next limit' q k in
    all_below p.entries q.entries d n first.descends v
      (ap parse_timeline_cursor (sym first.resumes) ∙ at_d) second.follows
