-- ===== src/Fanout/Writing/Tests.antt =====
-- The writing side of internal/fanout on an author with three followers, in pages of two.
use zhiguang_go.Base.{
  ◌≡◌, refl, subst, ◌≢◌, inr, true, false, ◌||◌, Option, none, some, [], ◌∷◌, arith, if◌then◌else◌,
  All, Bytes, codes, bytes_eq,
}
use zhiguang_go.Base.Int.{ℤ, pos, leb_ℤ}
use zhiguang_go.Base.Decimal.{format_uint}
use zhiguang_go.Fanout.Boxes.{push_item}
use zhiguang_go.Fanout.Writing.{
  Faults, Redis, Event, Lister, running, pulled, timeline_key, author_box_key, entry_of,
  fanout_post, among,
}
use zhiguang_go.Fanout.Config.{RawConfig, with_defaults}
use zhiguang_go.Fanout.Writing.Following.{on_follow, on_unfollow, z_rem_all}
use zhiguang_go.Fanout.Writing.Looping.{fanout_post-Ends}
use zhiguang_go.Fanout.Writing.Spreading.{Serves, last_page, full_page}
use zhiguang_go.Fanout.Writing.Reach.{Reaches, fanout_post-Reaches}
use zhiguang_go.Fanout.Writing.Unseen.{fanout_post_unseen}
use zhiguang_go.Fanout.Writing.Following.Hooks.{on_unfollow-on_follow}
use zhiguang_go.Fanout.Writing.Rows.{Payload, Calls, handle_row, published_type, handle_row_again}

abbrev raw : RawConfig
raw = record {
  celebrity_threshold = pos 10;
  fanout_batch_size = pos 2;
  fanout_max_fans = pos 0;
  timeline_max_items = pos 3;
  timeline_ttl = pos 0;
  author_box_max_items = pos 2;
  author_box_ttl = pos 0;
  follow_backfill_limit = pos 2;
  max_pull_authors = pos 0;
}

abbrev no_faults : Faults
no_faults = record {
  author_box = false;
  is_member = false;
  s_rem = false;
  s_add = false;
  push = λ n. false;
  read_box = false;
  write_timeline = false;
}

abbrev event : Event
event = record { post_id = 5; creator_id = 7; created_at = pos 300 }

-- The author has posted before, and a follower has that post.
abbrev redis : Redis
redis = record {
  boxes = λ k.
      if bytes_eq k (codes "authorbox:7") || bytes_eq k (codes "timeline:1")
      then (codes "4", pos 200) ∷ []
      else [];
  expires = λ k. none;
  celebrities = λ k. false;
}

abbrev second_cursor : Bytes
second_cursor = codes "2"

abbrev lister : Lister
lister size cursor =
    if bytes_eq cursor second_cursor then some (3 ∷ [], []) else some (1 ∷ 2 ∷ [], second_cursor)

-- The pages never end.
abbrev cyclic : Lister
cyclic size cursor = some (1 ∷ 2 ∷ [], 0 ∷ cursor)

lister-Serves : Serves (with_defaults raw).fanout_batch_size lister [] (1 ∷ 2 ∷ 3 ∷ [])
unfolding with_defaults bytes_eq
lister-Serves =
    full_page [] second_cursor (1 ∷ 2 ∷ []) (3 ∷ []) refl refl refl refl (omega arith)
      (last_page second_cursor [] (3 ∷ []) refl refl)

fanout_post-Ends_example :
    (fanout_post (with_defaults raw) no_faults cyclic 1000 event none redis).0 ≢ running
fanout_post-Ends_example = fanout_post-Ends raw no_faults cyclic 1000 event none redis

-- The counter knows of three followers.
few :
    (k : ℤ) → some (pos 3) ≡ some k → leb_ℤ (pos (with_defaults raw).celebrity_threshold) k ≡ false
unfolding with_defaults
few k e = let known : pos 3 ≡ k = cc in subst (λ z. leb_ℤ (pos 10) z ≡ false) known refl

fanout_post-Reaches_example :
    ((fanout_post (with_defaults raw) no_faults lister 1000 event (some (pos 3)) redis).1.boxes
        (author_box_key event.creator_id)
      ≡ push_item
          (with_defaults raw).author_box_max_items
          (entry_of event)
          (redis.boxes (author_box_key event.creator_id)))
    × All
        (Reaches (with_defaults raw) no_faults lister 1000 event (some (pos 3)) redis)
        (1 ∷ 2 ∷ 3 ∷ [])
fanout_post-Reaches_example =
    fanout_post-Reaches raw no_faults lister 1000 event (some (pos 3)) redis (1 ∷ 2 ∷ 3 ∷ []) refl
      refl (λ i. refl) lister-Serves (inr few)

fanout_post_unseen_example :
    ((fanout_post (with_defaults raw) no_faults lister 1000 event (some (pos 12)) redis).0 ≡ pulled)
    × ((fanout_post (with_defaults raw) no_faults lister 1000 event (some (pos 12)) redis).1.boxes
          (author_box_key 7)
        ≡ (if bytes_eq (author_box_key event.creator_id) (author_box_key 7)
            then push_item
                (with_defaults raw).author_box_max_items
                (entry_of event)
                (redis.boxes (author_box_key 7))
            else redis.boxes (author_box_key 7)))
    × ((fanout_post (with_defaults raw) no_faults lister 1000 event (some (pos 12)) redis).1.boxes
          (timeline_key 1)
        ≡ redis.boxes (timeline_key 1))
    × (among false
          (event.creator_id ∷ [])
          (fanout_post (with_defaults raw) no_faults lister 1000 event (some (pos 12)) redis).1
        ≡ some [])
fanout_post_unseen_example =
    fanout_post_unseen (with_defaults raw) no_faults lister 1000 event (pos 12) redis 1
      (author_box_key 7) refl refl (unfold with_defaults in refl)

on_unfollow-on_follow_example :
    ((on_unfollow no_faults 2 7 (on_follow (with_defaults raw) no_faults 1000 none 2 7 redis).1).0
      ≡ true)
    × ((on_unfollow no_faults 2 7
            (on_follow (with_defaults raw) no_faults 1000 none 2 7 redis).1).1.boxes
          (timeline_key 2)
        ≡ z_rem_all (redis.boxes (author_box_key 7)) (redis.boxes (timeline_key 2)))
on_unfollow-on_follow_example =
    on_unfollow-on_follow (with_defaults raw) no_faults no_faults 1000 none 2 7 redis refl refl (
      unfold with_defaults in
      unfold timeline_key in unfold format_uint in unfold bytes_eq in omega arith)

abbrev calls : Calls
calls = record {
  faults = no_faults;
  rem_fails = false;
  count = λ a. some (pos 3);
  lister = λ a. lister;
}

abbrev read : Bytes → Option Payload
read s = some (record { id = 5; creator_id = 7; published_at = pos 300; visible = codes "public" })

handle_row_again_example :
    (handle_row
        (with_defaults raw)
        calls
        1000
        read
        published_type
        (codes "{}")
        (handle_row
          (with_defaults raw)
          calls
          1000
          read
          published_type
          (codes "{}")
          redis).1).1.boxes
      (timeline_key 3)
    ≡ (handle_row (with_defaults raw) calls 1000 read published_type (codes "{}") redis).1.boxes
        (timeline_key 3)
handle_row_again_example =
    handle_row_again (with_defaults raw) calls 1000 read published_type (codes "{}") redis
      (timeline_key 3)
