-- ===== src/Fanout/Writing/Following.antt =====
-- internal/fanout/relation_hooks.go: OnFollow and OnUnfollow.
pub mod Hooks
use zhiguang_go.Base.{
  ℕ, ◌+◌, Bool, true, false, not, ◌&&◌, ◌||◌, Option, some, [], ◌∷◌, ◌==◌, if◌then◌else◌, take,
  keep, Bytes, bytes_eq, update,
}
use zhiguang_go.Base.Int.{ℤ}
use zhiguang_go.Fanout.Timeline.{ZSet}
use zhiguang_go.Fanout.Boxes.{z_add}
use zhiguang_go.Fanout.Writing.{Faults, Redis, Reply, timeline_key, author_box_key, is_celebrity}
use zhiguang_go.Fanout.Config.{Config}

-- ZADD of several entries
pub z_add_all : ZSet → ZSet → ZSet
z_add_all [] box = box
z_add_all (e ∷ items) box = z_add_all items (z_add e box)

pub backfill : Config → Faults → ℕ → Bytes → ZSet → Redis → Reply
unfolding z_add_all
backfill cfg f now key [] r = (true, r)
backfill cfg f now key (e ∷ items) r = if f.write_timeline then (false, r) else (
  true,
  record r {
    boxes = update r.boxes key (take cfg.timeline_max_items (z_add_all (e ∷ items) (r.boxes key)));
    expires = update r.expires key (some (now + cfg.timeline_ttl));
  },
)

pub follow_decided : Config → Faults → ℕ → ℕ → ℕ → (Bool × Bool) × Redis → Reply
unfolding backfill timeline_key author_box_key
follow_decided cfg f now follower author ((celebrity, known), r) =
    if known && celebrity
    then (true, r)
    else if f.read_box
    then (false, r)
    else backfill cfg f now (timeline_key follower)
        (take cfg.follow_backfill_limit (r.boxes (author_box_key author))) r

-- OnFollow
unfoldable pub on_follow : Config → Faults → ℕ → Option ℤ → ℕ → ℕ → Redis → Reply
unfolding follow_decided is_celebrity
on_follow cfg f now count follower author r =
    if cfg.follow_backfill_limit == 0
    then (true, r)
    else follow_decided cfg f now follower author
        (is_celebrity f cfg.celebrity_threshold count author r)

unfoldable pub has_member : Bytes → ZSet → Bool
has_member m [] = false
has_member m (x ∷ xs) = bytes_eq m x.0 || has_member m xs

-- ZREM of the members of a box
unfoldable pub z_rem_all : ZSet → ZSet → ZSet
unfolding has_member
z_rem_all items box = keep (λ x. not (has_member x.0 items)) box

pub clean_up : Faults → Bytes → ZSet → Redis → Reply
unfolding z_rem_all
clean_up f key [] r = (true, r)
clean_up f key (e ∷ items) r =
    if f.write_timeline
    then (false, r)
    else (true, record r { boxes = update r.boxes key (z_rem_all (e ∷ items) (r.boxes key)) })

-- OnUnfollow
unfoldable pub on_unfollow : Faults → ℕ → ℕ → Redis → Reply
unfolding clean_up timeline_key author_box_key
on_unfollow f follower author r =
    if f.read_box
    then (false, r)
    else clean_up f (timeline_key follower) (r.boxes (author_box_key author)) r
