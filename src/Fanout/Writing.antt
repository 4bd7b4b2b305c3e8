-- ===== src/Fanout/Writing.antt =====
-- The writing side of internal/fanout: celebrity.go, fanout_service.go, relation_hooks.go and the
-- configuration. Boxes are keyed as in Redis. The pages of followers are a parameter; the number of
-- followers that the counter knows and the calls that fail are inputs. A failing pipeline has written
-- nothing. The time is in seconds.
pub mod Following
pub mod Effects
pub mod Looping
pub mod Redelivery
pub mod Spreading
pub mod Reach
pub mod Unseen
pub mod Rows
pub mod Tests
use zhiguang_go.Fanout.Config.{Config}
use zhiguang_go.Base.{
  ℕ, zero, suc, ◌+◌, ◌*◌, ◌/◌, Bool, true, false, not, ◌&&◌, ◌||◌, Option, none, some, List, [],
  ◌∷◌, ◌++◌, ltb, leb, if◌then◌else◌, length, keep, Bytes, codes, bytes_eq, update,
}
use zhiguang_go.Base.Int.{ℤ, pos, ltb_ℤ, leb_ℤ}
use zhiguang_go.Base.Decimal.{format_uint}
use zhiguang_go.Fanout.Timeline.{ZSet}
use zhiguang_go.Fanout.Boxes.{z_rem, push_item}

-- The sorted sets, when they expire, and the set of the celebrities.
pub record Redis : Type 0 where
  pub boxes : Bytes → ZSet
  pub expires : Bytes → Option ℕ
  pub celebrities : Bytes → Bool

pub record Event : Type 0 where
  pub post_id : ℕ
  pub creator_id : ℕ
  pub created_at : ℤ

-- Which calls fail; `push` says it of the pipeline of a round.
pub record Faults : Type 0 where
  pub author_box : Bool
  pub is_member : Bool
  pub s_rem : Bool
  pub s_add : Bool
  pub push : ℕ → Bool
  pub read_box : Bool
  pub write_timeline : Bool

unfoldable pub timeline_key : ℕ → Bytes
timeline_key user_id = codes "timeline:" ++ format_uint user_id

unfoldable pub author_box_key : ℕ → Bytes
author_box_key author_id = codes "authorbox:" ++ format_uint author_id

unfoldable pub set_celebrity : ℕ → Bool → Redis → Redis
set_celebrity author is r = record r { celebrities = update r.celebrities (format_uint author) is }

-- Mark
unfoldable pub mark : Faults → ℕ → Redis → Redis
unfolding set_celebrity
mark f author r = if f.s_add then r else set_celebrity author true r

-- demote
unfoldable pub demote : Faults → ℕ → Redis → Redis
unfolding set_celebrity
demote f author r = if f.s_rem then r else set_celebrity author false r

-- Whether the counter knows fewer followers than the ratio of 80 percent.
fallen : ℕ → Option ℤ → Bool
fallen threshold none = false
fallen threshold (some count) = ltb_ℤ count (pos (threshold * 80 / 100))

pub by_count : ℕ → Option ℤ → Bool × Bool
by_count threshold none = (false, false)
by_count threshold (some count) = (leb_ℤ (pos threshold) count, true)

-- IsCelebrity: whether the author is one, and whether that is known. A counter that is missing or does
-- not know the number is `none`.
unfoldable pub is_celebrity : Faults → ℕ → Option ℤ → ℕ → Redis → (Bool × Bool) × Redis
unfolding fallen by_count demote
is_celebrity f threshold count author r =
    if not f.is_member && r.celebrities (format_uint author)
    then if fallen threshold count then ((false, true), demote f author r) else ((true, true), r)
    else (by_count threshold count, r)

-- Among
unfoldable pub among : Bool → List ℕ → Redis → Option (List ℕ)
among fails [] r = some []
among fails (id ∷ ids) r =
    if fails then none else some (keep (λ a. r.celebrities (format_uint a)) (id ∷ ids))

-- The commands of a pipeline that put entries into a box: ZADD, the trim and EXPIRE.
unfoldable pub put_item : ℕ → ℕ → Bytes → Bytes × ℤ → Redis → Redis
put_item max until key e r = record r {
  boxes = update r.boxes key (push_item max e (r.boxes key));
  expires = update r.expires key (some until);
}

pub entry_of : Event → Bytes × ℤ
entry_of event = (format_uint event.post_id, event.created_at)

-- writeAuthorBox, where it succeeds
unfoldable pub write_author_box : Config → ℕ → Event → Redis → Redis
unfolding put_item author_box_key entry_of
write_author_box cfg now event r =
    put_item cfg.author_box_max_items (now + cfg.author_box_ttl) (author_box_key event.creator_id)
      (entry_of event) r

-- pushBatch, where it succeeds
unfoldable pub push_batch : Config → ℕ → Bytes × ℤ → List ℕ → Redis → Redis
unfolding put_item timeline_key
push_batch cfg now e [] r = r
push_batch cfg now e (fan ∷ fans) r =
    push_batch cfg now e fans
      (put_item cfg.timeline_max_items (now + cfg.timeline_ttl) (timeline_key fan) e r)

-- How a fan-out ends; `running` is a loop that is not over.
pub data Outcome : Type 0 where
  pulled promoted guarded pushed : Outcome
  box_failed list_failed push_failed : Outcome
  running : Outcome

-- FollowersCursor for the author: the page at a cursor and the next cursor, or an error.
abbrev pub Lister : Type 0
Lister = ℕ → Bytes → Option (List ℕ × Bytes)

abbrev pub is_empty : Bytes → Bool
is_empty [] = true
is_empty (b ∷ s) = false

module _ (cfg : Config) (f : Faults) (followers_cursor : Lister) (now : ℕ) (event : Event) where
  -- after a page has been pushed
  pub push_on :
      (ℕ → Bytes → ℕ → Redis → Outcome × Redis)
      → ℕ
      → Bytes
      → Bytes
      → ℕ
      → ℕ
      → Redis
      → Outcome × Redis
  push_on again n cursor next fans reached r =
      if leb cfg.celebrity_threshold reached
      then (promoted, mark f event.creator_id r)
      else if leb cfg.fanout_max_fans reached
      then (guarded, mark f event.creator_id r)
      else if is_empty next || (bytes_eq next cursor || ltb fans cfg.fanout_batch_size)
      then (pushed, r)
      else again (n + 1) next reached r

  pub push_page :
      (ℕ → Bytes → ℕ → Redis → Outcome × Redis)
      → ℕ
      → Bytes
      → ℕ
      → Redis
      → Option (List ℕ × Bytes)
      → Outcome × Redis
  unfolding push_on push_batch
  push_page again n cursor reached r none = (list_failed, r)
  push_page again n cursor reached r (some ([], next)) = (pushed, r)
  push_page again n cursor reached r (some (fan ∷ fans, next)) =
      if f.push n
      then (push_failed, r)
      else push_on again n cursor next (length (fan ∷ fans)) (reached + length (fan ∷ fans))
          (push_batch cfg now (entry_of event) (fan ∷ fans) r)

  -- The rounds of the loop that are left, its round, the cursor and how many have been reached.
  pub push_pages : ℕ → ℕ → Bytes → ℕ → Redis → Outcome × Redis
  unfolding push_page
  push_pages zero n cursor reached r = (running, r)
  push_pages (suc fuel) n cursor reached r =
      push_page (push_pages fuel) n cursor reached r (followers_cursor cfg.fanout_batch_size cursor)

  -- pushToFollowers; the threshold bounds the rounds.
  unfoldable pub push_to_followers : Redis → Outcome × Redis
  unfolding push_pages
  push_to_followers r = push_pages cfg.celebrity_threshold 0 [] 0 r

  pub push_unless : (Bool × Bool) × Redis → Outcome × Redis
  unfolding push_to_followers
  push_unless ((celebrity, known), r) =
      let others = push_to_followers r in if known && celebrity then (pulled, r) else others

  -- FanoutPost
  unfoldable pub fanout_post : Option ℤ → Redis → Outcome × Redis
  unfolding push_unless write_author_box is_celebrity
  fanout_post count r =
      if f.author_box
      then (box_failed, r)
      else push_unless (
          is_celebrity f cfg.celebrity_threshold count event.creator_id
            (write_author_box cfg now event r))

-- Whether a call succeeds, and Redis after it.
abbrev pub Reply : Type 0
Reply = Bool × Redis

-- RemovePost
unfoldable pub remove_post : Bool → ℕ → ℕ → Redis → Reply
remove_post fails author post r =
    let key = author_box_key author in
    if fails
    then (false, r)
    else (true, record r { boxes = update r.boxes key (z_rem (format_uint post) (r.boxes key)) })
