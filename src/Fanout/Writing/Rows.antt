-- ===== src/Fanout/Writing/Rows.antt =====
-- internal/fanout/consumer.go: HandleRow, a row of the outbox. How a payload is read is a parameter.
use zhiguang_go.Base.{
  if_true, if_false, ℕ, ◌≡◌, refl, sym, ap, ◌∙◌, inl, inr, Bool, true, false, not, ◌&&◌, ◌||◌,
  Option, none, some, [], ◌∷◌, leb, ◌==◌, if◌then◌else◌, Bool-cases, length, Bytes, codes, bytes_eq,
}
use zhiguang_go.Base.Int.{ℤ, pos, leb_ℤ}
use zhiguang_go.Base.Decimal.{format_uint}
use zhiguang_go.Fanout.Timeline.{ZSet}
use zhiguang_go.Fanout.Boxes.{z_rem}
use zhiguang_go.Fanout.Writing.{
  Faults, Redis, Event, Lister, Outcome, Reply, author_box_key, fanout_post, remove_post,
}
use zhiguang_go.Fanout.Config.{Config}
use zhiguang_go.Fanout.Writing.Effects.{update_box}
use zhiguang_go.Fanout.Writing.Redelivery.{fanout_post_again}

-- publishPayload, without the fields that are not read
pub record Payload : Type 0 where
  pub id : ℕ
  pub creator_id : ℕ
  pub published_at : ℤ
  pub visible : Bytes

-- What HandleRow does with a row.
pub data Handled : Type 0 where
  skipped : Handled
  removed : Bool → Handled
  fanned_out : Outcome → Handled

abbrev pub published_type : Bytes
published_type = codes "KnowPostPublished"

abbrev pub deleted_type : Bytes
deleted_type = codes "KnowPostDeleted"

abbrev pub visibility_type : Bytes
visibility_type = codes "KnowPostVisibilityUpdated"

unfoldable pub visible_in_feeds : Bytes → Bool
visible_in_feeds v = bytes_eq v (codes "public") || bytes_eq v (codes "followers")

-- The calls of a run: which fail, what the counter knows and what the relation service lists.
pub record Calls : Type 0 where
  pub faults : Faults
  pub rem_fails : Bool
  pub count : ℕ → Option ℤ
  pub lister : ℕ → Lister

abbrev pub removal : Reply → Handled × Redis
removal (done, r) = (removed done, r)

abbrev pub spread : Outcome × Redis → Handled × Redis
spread (o, r) = (fanned_out o, r)

module _ (cfg : Config) (c : Calls) (now : ℕ) where
  pub publish : Payload → Redis → Handled × Redis
  publish p r =
      let event : Event = record {
        post_id = p.id;
        creator_id = p.creator_id;
        created_at = p.published_at;
      } in
      if leb_ℤ p.published_at (pos 0)
      then (skipped, r)
      else spread
          (fanout_post cfg c.faults (c.lister p.creator_id) now event (c.count p.creator_id) r)

  pub handle_payload : Bytes → Option Payload → Redis → Handled × Redis
  unfolding publish visible_in_feeds
  handle_payload type none r = (skipped, r)
  handle_payload type (some p) r =
      if (p.id == 0) || (p.creator_id == 0)
      then (skipped, r)
      else if bytes_eq type deleted_type
          || (bytes_eq type visibility_type && not (visible_in_feeds p.visible))
      then removal (remove_post c.rem_fails p.creator_id p.id r)
      else if bytes_eq type visibility_type
      then (skipped, r)
      else publish p r

  -- HandleRow; an empty payload is one that is not read.
  unfoldable pub handle_row : (Bytes → Option Payload) → Bytes → Bytes → Redis → Handled × Redis
  unfolding handle_payload
  handle_row unmarshal type payload r =
      if not (
        bytes_eq type published_type
        || (bytes_eq type deleted_type || bytes_eq type visibility_type))
      then (skipped, r)
      else if leb (length payload) 0
      then (skipped, r)
      else handle_payload type (unmarshal payload) r

  z_rem_again : (m : Bytes) (box : ZSet) → z_rem m (z_rem m box) ≡ z_rem m box
  unfolding z_rem
  z_rem_again m [] = refl
  z_rem_again m (x ∷ xs) = elim (Bool-cases (bytes_eq x.0 m)) [
    | inl b ↦ rw (b) (z_rem_again m xs)
    | inr b ↦ rw (b, b) (ap (◌∷◌ x) (z_rem_again m xs))
  ]

  -- The boxes after two runs are those after one.
  abbrev pub Settles : (Redis → Handled × Redis) → Type 0
  Settles run = (r : Redis) (key : Bytes) → (run (run r).1).1.boxes key ≡ (run r).1.boxes key

  skip-Settles : Settles (λ r. (skipped, r))
  skip-Settles r key = refl

  if-Settles :
      (b : Bool) (x y : Redis → Handled × Redis)
      → Settles x
      → Settles y
      → Settles (λ r. if b then x r else y r)
  if-Settles true x y h g = h
  if-Settles false x y h g = g

  publish-Settles : (p : Payload) → Settles (publish p)
  unfolding publish
  publish-Settles p =
      if-Settles (leb_ℤ p.published_at (pos 0)) (λ r. (skipped, r))
        (λ r.
          spread (fanout_post cfg c.faults (c.lister p.creator_id) now _ (c.count p.creator_id) r))
        skip-Settles
        (λ r key.
          fanout_post_again cfg c.faults (c.lister p.creator_id) now
            (record { post_id = p.id; creator_id = p.creator_id; created_at = p.published_at })
            (c.count p.creator_id) r key)

  removed_box :
      (author post : ℕ) (r : Redis) (key : Bytes)
      → (remove_post false author post r).1.boxes key ≡ (
          if bytes_eq (author_box_key author) key
          then z_rem (format_uint post) (r.boxes key)
          else r.boxes key)
  unfolding remove_post
  removed_box author post r key =
      update_box r.boxes (author_box_key author) key (z_rem (format_uint post))

  remove_post-Settles :
      (fails : Bool) (author post : ℕ) → Settles (λ r. removal (remove_post fails author post r))
  unfolding remove_post
  remove_post-Settles true author post r key = refl
  remove_post-Settles false author post r key =
      let s = (remove_post false author post r).1 in
      let once = removed_box author post r key in
      let twice = removed_box author post s key in
      elim (Bool-cases (bytes_eq (author_box_key author) key)) [
        | inl b ↦
            let first : s.boxes key ≡ z_rem (format_uint post) (r.boxes key) =
              once ∙ if_true _ _ b in
            twice
            ∙ (if_true _ _ b
                ∙ (ap (z_rem (format_uint post)) first
                    ∙ (z_rem_again (format_uint post) (r.boxes key) ∙ sym first)))
        | inr b ↦ twice ∙ if_false _ _ b
      ]

  payload-Settles : (type : Bytes) (o : Option Payload) → Settles (handle_payload type o)
  unfolding handle_payload
  payload-Settles type none = skip-Settles
  payload-Settles type (some p) =
      let remove : Redis → Handled × Redis =
        λ r. removal (remove_post c.rem_fails p.creator_id p.id r) in
      let skip : Redis → Handled × Redis = λ r. (skipped, r) in
      let shown : Redis → Handled × Redis =
        λ r. if bytes_eq type visibility_type then (skipped, r) else publish p r in
      let deletes =
        bytes_eq type deleted_type
        || (bytes_eq type visibility_type && not (visible_in_feeds p.visible)) in
      if-Settles ((p.id == 0) || (p.creator_id == 0)) skip
        (λ (r : Redis). if deletes then remove r else shown r) skip-Settles
        (if-Settles deletes remove shown (remove_post-Settles c.rem_fails p.creator_id p.id) (
          if-Settles (bytes_eq type visibility_type) skip (publish p) skip-Settles
            (publish-Settles p)))

  -- A row that is handled again changes no box, whatever its type and its payload are: where the same
  -- calls fail and the same followers are listed, HandleRow leaves every author's box and every inbox as
  -- the first handling of the row left it.
  pub handle_row_again :
      (unmarshal : Bytes → Option Payload) (type payload : Bytes) (r : Redis) (key : Bytes)
      → (handle_row unmarshal type payload (handle_row unmarshal type payload r).1).1.boxes key
        ≡ (handle_row unmarshal type payload r).1.boxes key
  unfolding handle_row
  handle_row_again unmarshal type payload =
      if-Settles
        (not (
          bytes_eq type published_type
          || (bytes_eq type deleted_type || bytes_eq type visibility_type)))
        (λ r. (skipped, r))
        (λ r.
          if leb (length payload) 0
          then (skipped, r)
          else handle_payload type (unmarshal payload) r)
        skip-Settles
        (if-Settles (leb (length payload) 0) (λ r. (skipped, r))
          (handle_payload type (unmarshal payload)) skip-Settles
          (payload-Settles type (unmarshal payload)))
