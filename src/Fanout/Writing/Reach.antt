-- ===== src/Fanout/Writing/Reach.antt =====
-- FanoutPost of internal/fanout: whom a post reaches.
use zhiguang_go.Base.{
  ℕ, ◌<◌, ◌≡◌, refl, ap, ◌∙◌, ◌⊎◌, inl, inr, true, false, ◌&&◌, Option, none, some, List, [], ◌∷◌,
  arith, Bool-cases, All, Bytes, bytes_eq,
}
use zhiguang_go.Fanout.Writing.Redelivery.{
  pulls, decision, post, written, post_pulled, post_pushed, post-written, decision_boxes,
  pulls-write_author_box, write_author_box_boxes, unless_pushes_to, written_outside, written_here,
  uncounted_pulls,
}
use zhiguang_go.Base.Int.{ℤ, pos, leb_ℤ}
use zhiguang_go.Base.Decimal.{format_uint}
use zhiguang_go.Fanout.Timeline.{ZSet}
use zhiguang_go.Fanout.Boxes.{push_item}
use zhiguang_go.Fanout.Writing.{
  Faults, Redis, Event, Lister, Outcome, timeline_key, author_box_key, put_item, entry_of,
  push_to_followers, fanout_post, write_author_box, by_count, among,
}
use zhiguang_go.Fanout.Config.{RawConfig, Config, with_defaults}
use zhiguang_go.Fanout.Writing.Effects.{
  is_inbox, delivered, All_weaken, All-is_inbox, delivered_inside, delivered_outside,
  author_box-no_inbox, push_batch_boxes,
}
use zhiguang_go.Fanout.Writing.Looping.{touched, boxed, positive_threshold}
use zhiguang_go.Fanout.Writing.Spreading.{Serves, Spread, pages-Spread}

pub apart : (author fan : ℕ) → bytes_eq (author_box_key author) (timeline_key fan) ≡ false
unfolding author_box_key timeline_key bytes_eq
apart author fan = refl

module _ (cfg : Config) (f : Faults) (lister : Lister) (now : ℕ) (event : Event) (count : Option ℤ)
    (r : Redis) where
  -- Whether a follower can see the post: the author is among the celebrities, whose boxes are read, or
  -- the post was put into the follower's inbox.
  abbrev pub Reaches : ℕ → Type 0
  Reaches fan =
      (among false (event.creator_id ∷ []) (post cfg f lister now event count r)
        ≡ some (event.creator_id ∷ []))
      ⊎ ((post cfg f lister now event count r).boxes (timeline_key fan)
          ≡ push_item cfg.timeline_max_items (entry_of event) (r.boxes (timeline_key fan)))

  celebrity-Reaches :
      (s : Redis)
      → s.celebrities (format_uint event.creator_id) ≡ true
      → among false (event.creator_id ∷ []) s ≡ some (event.creator_id ∷ [])
  unfolding among
  celebrity-Reaches s e = rw (e) refl

  abbrev NowCelebrity : Type 0
  NowCelebrity =
      (post cfg f lister now event count r).celebrities (format_uint event.creator_id) ≡ true

  -- the boxes, if everybody was pushed to
  abbrev AllGiven : List ℕ → Type 0
  AllGiven fans =
      (key : Bytes)
      → (post cfg f lister now event count r).boxes key
        ≡ delivered cfg now (entry_of event) fans key
            (written cfg f lister now event count key (r.boxes key))

  given-Reaches : (fans : List ℕ) → AllGiven fans → All Reaches fans
  given-Reaches fans h = All_weaken fans one (All-is_inbox fans)
    where
      one : (fan : ℕ) → is_inbox fans (timeline_key fan) ≡ true → Reaches fan
      one fan b = inr (
          h (timeline_key fan)
          ∙ (delivered_inside cfg now (entry_of event) fans (timeline_key fan) _ b
              ∙ ap (push_item cfg.timeline_max_items (entry_of event)) (
                  written_outside cfg f lister now event count (timeline_key fan)
                    (r.boxes (timeline_key fan)) (apart event.creator_id fan))))

  post_author_box :
      f.author_box ≡ false
      → (post cfg f lister now event count r).boxes (author_box_key event.creator_id)
        ≡ push_item cfg.author_box_max_items
            (entry_of event)
            (r.boxes (author_box_key event.creator_id))
  post_author_box b =
      let key = author_box_key event.creator_id in
      elim (Bool-cases (pulls cfg f lister now event count r)) [
        | inl p ↦
            post-written cfg f lister now event count r key b p
            ∙ written_here cfg f lister now event count (r.boxes key)
        | inr p ↦
            post_pushed cfg f lister now event count r key b p
            ∙ (delivered_outside cfg now (entry_of event)
                  (touched cfg f lister now event cfg.celebrity_threshold 0 [] 0) key _
                  (author_box-no_inbox event.creator_id _)
                ∙ written_here cfg f lister now event count (r.boxes key))
      ]

  pushed-Reaches :
      (fans : List ℕ)
      → 0 < cfg.celebrity_threshold
      → f.author_box ≡ false
      → f.s_add ≡ false
      → ((i : ℕ) → f.push i ≡ false)
      → Serves cfg.fanout_batch_size lister [] fans
      → pulls cfg f lister now event count r ≡ false
      → NowCelebrity ⊎ AllGiven fans
  unfolding push_to_followers Spread
  pushed-Reaches fans t b a p s e =
      let w = write_author_box cfg now event r in
      let d = (decision cfg f lister now event count w) in
      let goes =
        boxed cfg f lister now event count r b
        ∙ unless_pushes_to cfg f lister now event count d
            (pulls-write_author_box cfg f lister now event count r ∙ e) in
      elim (pages-Spread cfg f lister now event cfg.celebrity_threshold 0 [] 0 d.1 fans a p t
        (omega arith) s) [
          | inr m ↦ inl (
              ap (λ (x : Outcome × Redis). x.1.celebrities (format_uint event.creator_id)) goes ∙ m)
          | inl (o, q) ↦ inr (λ key.
              ap (λ (x : Outcome × Redis). x.1.boxes key) goes
              ∙ (ap (λ (x : Redis). x.boxes key) q
                  ∙ (push_batch_boxes cfg now (entry_of event) fans d.1 key
                      ∙ ap (delivered cfg now (entry_of event) fans key) (
                          ap (λ (x : Bytes → ZSet). x key)
                            (decision_boxes cfg f lister now event count w)
                          ∙ write_author_box_boxes cfg f lister now event count r key))))
        ]

  low_pushes :
      (n : Option ℤ)
      → ((k : ℤ) → n ≡ some k → leb_ℤ (pos cfg.celebrity_threshold) k ≡ false)
      → (by_count cfg.celebrity_threshold n).1 && (by_count cfg.celebrity_threshold n).0 ≡ false
  unfolding by_count
  low_pushes none h = refl
  low_pushes (some k) h = h k refl

  all_celebrity : (fans : List ℕ) → NowCelebrity → All Reaches fans
  all_celebrity [] m = tt
  all_celebrity (fan ∷ fans) m =
      (inl (celebrity-Reaches (post cfg f lister now event count r) m), all_celebrity fans m)

  write_author_box_celebrities :
      (x : Redis)
      → (write_author_box cfg now event x).celebrities (format_uint event.creator_id)
        ≡ x.celebrities (format_uint event.creator_id)
  unfolding write_author_box put_item
  write_author_box_celebrities x = refl

  post-Reaches :
      (fans : List ℕ)
      → 0 < cfg.celebrity_threshold
      → f.author_box ≡ false
      → f.s_add ≡ false
      → ((i : ℕ) → f.push i ≡ false)
      → Serves cfg.fanout_batch_size lister [] fans
      → (r.celebrities (format_uint event.creator_id) ≡ true)
        ⊎ ((k : ℤ) → count ≡ some k → leb_ℤ (pos cfg.celebrity_threshold) k ≡ false)
      → All Reaches fans
  post-Reaches fans t b a p s low = elim (Bool-cases (pulls cfg f lister now event count r)) [
    | inl e ↦ all_celebrity fans (
        ap (λ (x : Redis). x.celebrities (format_uint event.creator_id))
          (post_pulled cfg f lister now event count r b e)
        ∙ (write_author_box_celebrities r ∙ member low e))
    | inr e ↦ elim (pushed-Reaches fans t b a p s e) [
      | inl m ↦ all_celebrity fans m
      | inr h ↦ given-Reaches fans h
    ]
  ]
    where
      member :
          (r.celebrities (format_uint event.creator_id) ≡ true)
            ⊎ ((k : ℤ) → count ≡ some k → leb_ℤ (pos cfg.celebrity_threshold) k ≡ false)
          → pulls cfg f lister now event count r ≡ true
          → r.celebrities (format_uint event.creator_id) ≡ true
      member (inl m) e = m
      member (inr h) e = uncounted_pulls cfg f lister now event count r (low_pushes count h) e

-- Where no call fails and the pages are those of a list of followers, FanoutPost puts the post into the
-- author's box, and for each follower the inbox gets the post or Among finds the author,
-- provided that the author was in the set of the celebrities or the counter does not know of as
-- many followers as the threshold.
pub fanout_post-Reaches :
    (c : RawConfig) (f : Faults) (lister : Lister) (now : ℕ) (event : Event) (count : Option ℤ)
    (r : Redis) (fans : List ℕ)
    → f.author_box ≡ false
    → f.s_add ≡ false
    → ((i : ℕ) → f.push i ≡ false)
    → Serves (with_defaults c).fanout_batch_size lister [] fans
    → (r.celebrities (format_uint event.creator_id) ≡ true)
      ⊎ ((k : ℤ) → count ≡ some k → leb_ℤ (pos (with_defaults c).celebrity_threshold) k ≡ false)
    → ((fanout_post (with_defaults c) f lister now event count r).1.boxes
          (author_box_key event.creator_id)
        ≡ push_item
            (with_defaults c).author_box_max_items
            (entry_of event)
            (r.boxes (author_box_key event.creator_id)))
      × All (Reaches (with_defaults c) f lister now event count r) fans
fanout_post-Reaches c f lister now event count r fans b a p s low = (
  post_author_box (with_defaults c) f lister now event count r b,
  post-Reaches (with_defaults c) f lister now event count r fans (positive_threshold c) b a p s low,
)
