-- ===== src/Fanout/Writing/Redelivery.antt =====
-- FanoutPost of internal/fanout for a message that is delivered twice.
use zhiguang_go.Base.{
  ℕ, ◌≡◌, refl, sym, ap, ◌∙◌, inl, inr, Bool, true, false, not, ◌&&◌, Option, List, [], arith,
  if◌then◌else◌, Bool-cases, Bytes, bytes_eq, bytes_eq_iff, bytes_eq_refl,
}
use zhiguang_go.Base.Int.{ℤ}
use zhiguang_go.Base.Decimal.{format_uint}
use zhiguang_go.Fanout.Timeline.{ZSet}
use zhiguang_go.Fanout.Boxes.{push_item, push_item_again}
use zhiguang_go.Fanout.Writing.{
  Faults, Redis, Event, Lister, Outcome, author_box_key, put_item, entry_of, push_to_followers,
  push_unless, fanout_post, write_author_box, is_celebrity, by_count, fallen,
}
use zhiguang_go.Fanout.Config.{Config}
use zhiguang_go.Fanout.Writing.Effects.{
  is_celebrity_boxes, is_inbox, delivered, author_box-no_inbox, push_batch_boxes, delivered_again,
  delivered_outside, update_box,
}
use zhiguang_go.Fanout.Writing.Looping.{touched, pages-Follows, boxed, unboxed}

module _ (cfg : Config) (f : Faults) (followers_cursor : Lister) (now : ℕ) (event : Event)
    (count : Option ℤ) where
  -- The box at a key after the author's box has been written.
  pub written : Bytes → ZSet → ZSet
  written key box =
      if bytes_eq (author_box_key event.creator_id) key
      then push_item cfg.author_box_max_items (entry_of event) box
      else box

  abbrev pub fans : List ℕ
  fans = touched cfg f followers_cursor now event cfg.celebrity_threshold 0 [] 0

  abbrev pub given : Bytes → ZSet → ZSet
  given = delivered cfg now (entry_of event) fans

  pub write_author_box_boxes :
      (r : Redis) (key : Bytes)
      → (write_author_box cfg now event r).boxes key ≡ written key (r.boxes key)
  unfolding write_author_box put_item written
  write_author_box_boxes r key =
      update_box r.boxes (author_box_key event.creator_id) key
        (push_item cfg.author_box_max_items (entry_of event))

  written-given :
      (key : Bytes) (box : ZSet)
      → written key (given key (written key box)) ≡ given key (written key box)
  unfolding written
  written-given key box = elim (Bool-cases (bytes_eq (author_box_key event.creator_id) key)) [
    | inl b ↦
        let here : author_box_key event.creator_id ≡ key = (bytes_eq_iff _ key).0 b in
        let out : is_inbox fans key ≡ false =
          ap (is_inbox fans) (sym here) ∙ author_box-no_inbox event.creator_id fans in
        rw
          (
            b,
            delivered_outside cfg now (entry_of event) fans key
                (push_item cfg.author_box_max_items (entry_of event) box) out,
          )
          (push_item_again cfg.author_box_max_items (entry_of event) box)
    | inr b ↦ rw (b) refl
  ]

  abbrev pub decision : Redis → (Bool × Bool) × Redis
  decision = is_celebrity f cfg.celebrity_threshold count event.creator_id

  abbrev pub pulls : Redis → Bool
  pulls r = (decision r).0.1 && (decision r).0.0

  pub decision_boxes : (r : Redis) → (decision r).1.boxes ≡ r.boxes
  decision_boxes r = is_celebrity_boxes f cfg.celebrity_threshold count event.creator_id r

  fallen_pushes :
      (r : Redis)
      → not f.is_member && r.celebrities (format_uint event.creator_id) ≡ true
      → fallen cfg.celebrity_threshold count ≡ true
      → pulls r ≡ false
  unfolding is_celebrity
  fallen_pushes r a b = rw (a, b) refl

  pulled_same : (r : Redis) → pulls r ≡ true → (decision r).1 ≡ r
  unfolding is_celebrity
  pulled_same r e =
      elim (Bool-cases (not f.is_member && r.celebrities (format_uint event.creator_id))) [
        | inr a ↦ rw (a) refl
        | inl a ↦ elim (Bool-cases (fallen cfg.celebrity_threshold count)) [
          | inr b ↦ rw (a, b) refl
          | inl b ↦ absurd (let z : false ≡ true = sym (fallen_pushes r a b) ∙ e in cc)
        ]
      ]

  pub pulls_if : Bool → Bool
  pulls_if is =
      if not f.is_member && is
      then not (fallen cfg.celebrity_threshold count)
      else (by_count cfg.celebrity_threshold count).1 && (by_count cfg.celebrity_threshold count).0

  pub pulls_lem : (r : Redis) → pulls r ≡ pulls_if (r.celebrities (format_uint event.creator_id))
  unfolding is_celebrity pulls_if
  pulls_lem r =
      elim (Bool-cases (not f.is_member && r.celebrities (format_uint event.creator_id))) [
        | inr a ↦ rw (a) refl
        | inl a ↦ elim (Bool-cases (fallen cfg.celebrity_threshold count)) [
          | inr b ↦ rw (a, b) refl
          | inl b ↦ rw (a, b) refl
        ]
      ]

  pub pulls-write_author_box : (r : Redis) → pulls (write_author_box cfg now event r) ≡ pulls r
  unfolding write_author_box put_item
  pulls-write_author_box r = pulls_lem (write_author_box cfg now event r) ∙ sym (pulls_lem r)

  unless_pulls :
      (x : (Bool × Bool) × Redis)
      → x.0.1 && x.0.0 ≡ true
      → (push_unless cfg f followers_cursor now event x).1 ≡ x.1
  unfolding push_unless
  unless_pulls ((celebrity, known), r) e = rw (e) refl

  pub unless_pushes_to :
      (x : (Bool × Bool) × Redis)
      → x.0.1 && x.0.0 ≡ false
      → push_unless cfg f followers_cursor now event x
        ≡ push_to_followers cfg f followers_cursor now event x.1
  unfolding push_unless
  unless_pushes_to ((celebrity, known), r) e = rw (e) refl

  pub written_outside :
      (key : Bytes) (box : ZSet)
      → bytes_eq (author_box_key event.creator_id) key ≡ false
      → written key box ≡ box
  unfolding written
  written_outside key box b = rw (b) refl

  pub written_here :
      (box : ZSet)
      → written (author_box_key event.creator_id) box
        ≡ push_item cfg.author_box_max_items (entry_of event) box
  unfolding written
  written_here box = rw (bytes_eq_refl (author_box_key event.creator_id)) refl

  pub uncounted_pulls :
      (r : Redis)
      → (by_count cfg.celebrity_threshold count).1 && (by_count cfg.celebrity_threshold count).0
        ≡ false
      → pulls r ≡ true
      → r.celebrities (format_uint event.creator_id) ≡ true
  unfolding pulls_if
  uncounted_pulls r low p = elim (Bool-cases (r.celebrities (format_uint event.creator_id))) [
    | inl b ↦ b
    | inr b ↦
        let q : pulls_if (r.celebrities (format_uint event.creator_id)) ≡ true =
          sym (pulls_lem r) ∙ p in
        absurd (ground arith)
  ]

  unless_pushes :
      (x : (Bool × Bool) × Redis) (key : Bytes)
      → x.0.1 && x.0.0 ≡ false
      → (push_unless cfg f followers_cursor now event x).1.boxes key ≡ given key (x.1.boxes key)
  unfolding push_unless push_to_followers
  unless_pushes ((celebrity, known), r) key e = rw (e) (
      ap (λ (b : Bytes → ZSet). b key)
        (pages-Follows cfg f followers_cursor now event cfg.celebrity_threshold 0 [] 0 r)
      ∙ push_batch_boxes cfg now (entry_of event) fans r key)

  abbrev pub post : Redis → Redis
  post r = (fanout_post cfg f followers_cursor now event count r).1

  pub post_pulled :
      (r : Redis)
      → f.author_box ≡ false
      → pulls r ≡ true
      → post r ≡ write_author_box cfg now event r
  post_pulled r b p =
      let w = write_author_box cfg now event r in
      let q : pulls w ≡ true = pulls-write_author_box r ∙ p in
      ap (λ x. x.1) (boxed cfg f followers_cursor now event count r b)
      ∙ (unless_pulls (decision w) q ∙ pulled_same w q)

  pub post_pushed :
      (r : Redis) (key : Bytes)
      → f.author_box ≡ false
      → pulls r ≡ false
      → (post r).boxes key ≡ given key (written key (r.boxes key))
  post_pushed r key b p =
      let w = write_author_box cfg now event r in
      ap (λ (x : Outcome × Redis). x.1.boxes key) (boxed cfg f followers_cursor now event count r b)
      ∙ (unless_pushes (decision w) key (pulls-write_author_box r ∙ p)
          ∙ ap (given key) (
              ap (λ (boxes : Bytes → ZSet). boxes key) (decision_boxes w)
              ∙ write_author_box_boxes r key))

  pub post-written :
      (r : Redis) (key : Bytes)
      → f.author_box ≡ false
      → pulls r ≡ true
      → (post r).boxes key ≡ written key (r.boxes key)
  post-written r key b p =
      ap (λ (x : Redis). x.boxes key) (post_pulled r b p) ∙ write_author_box_boxes r key

  written_again : (key : Bytes) (box : ZSet) → written key (written key box) ≡ written key box
  unfolding written
  written_again key box = elim (Bool-cases (bytes_eq (author_box_key event.creator_id) key)) [
    | inl b ↦ rw (b) (push_item_again cfg.author_box_max_items (entry_of event) box)
    | inr b ↦ rw (b) refl
  ]

  given_again : (key : Bytes) (box : ZSet) → given key (given key box) ≡ given key box
  given_again key box = delivered_again cfg now (entry_of event) fans key box

  second_pulled : (r : Redis) → f.author_box ≡ false → pulls r ≡ true → pulls (post r) ≡ true
  second_pulled r b p = ap pulls (post_pulled r b p) ∙ (pulls-write_author_box r ∙ p)

  -- A message that is delivered again changes no box: however FanoutPost ends, with the same followers,
  -- the same number of followers and the same failures, a second call leaves each author's box and each
  -- inbox as the first one left it.
  pub fanout_post_again : (r : Redis) (key : Bytes) → (post (post r)).boxes key ≡ (post r).boxes key
  fanout_post_again r key = elim (Bool-cases f.author_box) [
    | inl b ↦
        ap (λ (x : Redis). x.boxes key)
          (ap (λ x. x.1) (unboxed cfg f followers_cursor now event count (post r) b))
    | inr b ↦ elim (Bool-cases (pulls r)) [
      | inl p ↦
          post-written (post r) key b (second_pulled r b p)
          ∙ (ap (written key) (post-written r key b p)
              ∙ (written_again key (r.boxes key) ∙ sym (post-written r key b p)))
      | inr p ↦
          let first = post_pushed r key b p in
          let kept : written key ((post r).boxes key) ≡ (post r).boxes key =
            ap (written key) first ∙ (written-given key (r.boxes key) ∙ sym first) in
          elim (Bool-cases (pulls (post r))) [
            | inl q ↦ post-written (post r) key b q ∙ kept
            | inr q ↦
                post_pushed (post r) key b q
                ∙ (ap (given key) (kept ∙ first)
                    ∙ (given_again key (written key (r.boxes key)) ∙ sym first))
          ]
    ]
  ]
