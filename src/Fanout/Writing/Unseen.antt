-- ===== src/Fanout/Writing/Unseen.antt =====
-- FanoutPost of internal/fanout: a post that reaches nobody.
use zhiguang_go.Base.{
  ℕ, ◌≡◌, refl, ap, ◌∙◌, inl, inr, Bool, true, false, some, [], ◌∷◌, Bool-cases, Bytes, bytes_eq,
  if◌then◌else◌,
}
use zhiguang_go.Base.Int.{ℤ, pos, leb_ℤ}
use zhiguang_go.Base.Decimal.{format_uint}
use zhiguang_go.Fanout.Boxes.{push_item}
use zhiguang_go.Fanout.Writing.{
  Faults, Redis, Event, Lister, Outcome, pulled, timeline_key, author_box_key, put_item, entry_of,
  push_unless, fanout_post, write_author_box, is_celebrity, by_count, among,
}
use zhiguang_go.Fanout.Config.{Config}
use zhiguang_go.Fanout.Writing.Effects.{update_box}
use zhiguang_go.Fanout.Writing.Looping.{boxed}
use zhiguang_go.Fanout.Writing.Reach.{apart}

counted :
    (f : Faults) (threshold author : ℕ) (k : ℤ) (r : Redis)
    → r.celebrities (format_uint author) ≡ false
    → leb_ℤ (pos threshold) k ≡ true
    → is_celebrity f threshold (some k) author r ≡ ((true, true), r)
unfolding is_celebrity by_count
counted f threshold author k r m h = elim (Bool-cases f.is_member) [
  | inl b ↦ rw (b, h) refl
  | inr b ↦ rw (b, m, h) refl
]

module _ (cfg : Config) (f : Faults) (lister : Lister) (now : ℕ) (event : Event) where
  pulled_at :
      (x : (Bool × Bool) × Redis) (s : Redis)
      → x ≡ ((true, true), s)
      → push_unless cfg f lister now event x ≡ (pulled, s)
  unfolding push_unless
  pulled_at x s e = ap (push_unless cfg f lister now event) e

  counted_pulled :
      (k : ℤ) (r : Redis)
      → f.author_box ≡ false
      → r.celebrities (format_uint event.creator_id) ≡ false
      → leb_ℤ (pos cfg.celebrity_threshold) k ≡ true
      → fanout_post cfg f lister now event (some k) r ≡ (pulled, write_author_box cfg now event r)
  counted_pulled k r b m h =
      let w = write_author_box cfg now event r in
      boxed cfg f lister now event (some k) r b
      ∙ pulled_at (is_celebrity f cfg.celebrity_threshold (some k) event.creator_id w) w (
          counted f cfg.celebrity_threshold event.creator_id k w
            (unfold write_author_box in unfold put_item in m) h)

  own_box_only :
      (r : Redis) (fan : ℕ)
      → (write_author_box cfg now event r).boxes (timeline_key fan) ≡ r.boxes (timeline_key fan)
  unfolding write_author_box put_item
  own_box_only r fan =
      update_box r.boxes (author_box_key event.creator_id) (timeline_key fan)
        (push_item cfg.author_box_max_items (entry_of event))
      ∙ rw (apart event.creator_id fan) refl

  author_box_written :
      (r : Redis) (key : Bytes)
      → (write_author_box cfg now event r).boxes key ≡ (
          if bytes_eq (author_box_key event.creator_id) key
          then push_item cfg.author_box_max_items (entry_of event) (r.boxes key)
          else r.boxes key)
  unfolding write_author_box put_item
  author_box_written r key =
      update_box r.boxes (author_box_key event.creator_id) key
        (push_item cfg.author_box_max_items (entry_of event))

  still_absent :
      (r : Redis)
      → r.celebrities (format_uint event.creator_id) ≡ false
      → among false (event.creator_id ∷ []) (write_author_box cfg now event r) ≡ some []
  unfolding write_author_box put_item among
  still_absent r m = rw (m) refl

-- An author who is not in the set of the celebrities, but of whom the counter knows as many followers as
-- the threshold, is taken for a celebrity without being put into the set: where the write of the
-- author's box does not fail, the post is put into that box, which is cut to its size, no other box
-- changes, the inbox of a follower neither, and Among, whose call does not fail, does not find the
-- author.
pub fanout_post_unseen :
    (cfg : Config) (f : Faults) (lister : Lister) (now : ℕ) (event : Event) (k : ℤ) (r : Redis)
    (fan : ℕ) (key : Bytes)
    → f.author_box ≡ false
    → r.celebrities (format_uint event.creator_id) ≡ false
    → leb_ℤ (pos cfg.celebrity_threshold) k ≡ true
    → ((fanout_post cfg f lister now event (some k) r).0 ≡ pulled)
      × ((fanout_post cfg f lister now event (some k) r).1.boxes key ≡ (
          if bytes_eq (author_box_key event.creator_id) key
          then push_item cfg.author_box_max_items (entry_of event) (r.boxes key)
          else r.boxes key))
      × ((fanout_post cfg f lister now event (some k) r).1.boxes (timeline_key fan)
          ≡ r.boxes (timeline_key fan))
      × (among false (event.creator_id ∷ []) (fanout_post cfg f lister now event (some k) r).1
          ≡ some [])
fanout_post_unseen cfg f lister now event k r fan key b m h =
    let goes = counted_pulled cfg f lister now event k r b m h in
    (
      ap (λ x. x.0) goes,
      ap (λ (x : Outcome × Redis). x.1.boxes key) goes
          ∙ author_box_written cfg f lister now event r key,
      ap (λ (x : Outcome × Redis). x.1.boxes (timeline_key fan)) goes
          ∙ own_box_only cfg f lister now event r fan,
      ap (λ (x : Outcome × Redis). among false (event.creator_id ∷ []) x.1) goes
          ∙ still_absent cfg f lister now event r m,
    )
