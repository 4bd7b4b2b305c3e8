-- ===== src/Counter/Toggle.antt =====
-- internal/counter/bitmap_lua.go (toggleLua), bitmap_toggle.go, and IsLiked, IsFaved and
-- IsLikedAndFaved of sds_read.go. The Redis keyspace is one function from keys to bits and one from
-- keys to scored members; a failing Redis call is an input.
pub mod Effects
pub mod Stream
use zhiguang_go.Base.{
  ℕ, ◌+◌, ◌==◌, if◌then◌else◌, Bool, true, false, Option, none, some, Bytes, codes, ◌&&◌, bytes_eq,
}
use zhiguang_go.Base.Int.{pos, negsuc}
use zhiguang_go.Base.Decimal.{format_uint}
use zhiguang_go.Counter.Model.{
  chunk_of, bit_of, bitmap_key, likers_zset_key, name_to_idx, CounterEvent,
}
use zhiguang_go.Counter.Publish.{Publishing, Publisher, publish_counter_event}

-- The bits of the bitmaps, and the score of each member of the sorted sets.
pub record Redis : Type 0 where
  pub bits : Bytes → ℕ → Bool
  pub zset : Bytes → Bytes → Option ℕ

pub set_bit : Redis → Bytes → ℕ → Bool → Redis
set_bit r key offset b = record r {
  bits = λ k j. if bytes_eq key k && (offset == j) then b else r.bits k j;
}

pub z_set : Redis → Bytes → Bytes → Option ℕ → Redis
z_set r key member score = record r {
  zset = λ k x. if bytes_eq key k && bytes_eq member x then score else r.zset k x;
}

-- The reply of the script: 1, 0 and -1.
pub data Reply : Type 0 where
  changed unchanged unknown : Reply

-- toggleLua
unfoldable pub toggle_lua : Redis → Bytes → Bytes → ℕ → Bytes → Bytes → ℕ → Reply × Redis
unfolding set_bit z_set
toggle_lua r bm_key z_key offset op member now =
    let prev = r.bits bm_key offset in
    if bytes_eq op (codes "add")
    then (if prev
        then (unchanged, r)
        else (changed, z_set (set_bit r bm_key offset true) z_key member (some now)))
    else if bytes_eq op (codes "remove")
    then (if prev
        then (changed, z_set (set_bit r bm_key offset false) z_key member none)
        else (unchanged, r))
    else (unknown, r)

-- The service: its view of the bitmaps and the sorted sets, the next message id, and the publisher of
-- its events.
pub record Service : Type 0 where
  pub redis : Redis
  pub next_message_id : ℕ
  pub publisher : Publisher

pub data Result {ℓ} (A : Type ℓ) : Type ℓ where
  ok : A → Result A
  err : Result A

-- What follows the script: the event of a change is published if there is a producer; `p` says how the
-- publication goes.
after_toggle :
    Service → Publishing → ℕ → Bytes → Bytes → Bytes → Bytes → Reply × Redis → Result Bool × Service
after_toggle s p user_id entity_type entity_id metric op (changed, r) =
    let event : CounterEvent = record {
      message_id = s.next_message_id;
      entity_type = entity_type;
      entity_id = entity_id;
      metric = metric;
      index = pos (name_to_idx metric);
      user_id = user_id;
      delta = if bytes_eq op (codes "remove") then negsuc 0 else pos 1;
    } in
    (
      ok true,
      record s {
        redis = r;
        next_message_id = s.next_message_id + 1;
        publisher =
            if s.publisher.has_producer
            then publish_counter_event p event s.publisher
            else s.publisher;
      },
    )
after_toggle s p user_id entity_type entity_id metric op (unchanged, r) =
    (ok false, record s { redis = r })
after_toggle s p user_id entity_type entity_id metric op (unknown, r) =
    (ok false, record s { redis = r })

-- (*CounterService).toggle at the time `now`; `fails` says that Redis refuses the script.
unfoldable pub toggle :
    Service → Bool → Publishing → ℕ → ℕ → Bytes → Bytes → Bytes → Bytes → Result Bool × Service
unfolding after_toggle toggle_lua
toggle s fails p now user_id entity_type entity_id metric op =
    if fails
    then (err, s)
    else after_toggle s p user_id entity_type entity_id metric op (
        toggle_lua s.redis (bitmap_key metric entity_type entity_id (chunk_of user_id))
          (likers_zset_key metric entity_type entity_id) (bit_of user_id) op (format_uint user_id)
          now)

unfoldable pub like : Service → Bool → Publishing → ℕ → ℕ → Bytes → Bytes → Result Bool × Service
unfolding toggle
like s fails p now user_id entity_type entity_id =
    toggle s fails p now user_id entity_type entity_id (codes "like") (codes "add")

unfoldable pub unlike : Service → Bool → Publishing → ℕ → ℕ → Bytes → Bytes → Result Bool × Service
unfolding toggle
unlike s fails p now user_id entity_type entity_id =
    toggle s fails p now user_id entity_type entity_id (codes "like") (codes "remove")

unfoldable pub fav : Service → Bool → Publishing → ℕ → ℕ → Bytes → Bytes → Result Bool × Service
unfolding toggle
fav s fails p now user_id entity_type entity_id =
    toggle s fails p now user_id entity_type entity_id (codes "fav") (codes "add")

unfoldable pub unfav : Service → Bool → Publishing → ℕ → ℕ → Bytes → Bytes → Result Bool × Service
unfolding toggle
unfav s fails p now user_id entity_type entity_id =
    toggle s fails p now user_id entity_type entity_id (codes "fav") (codes "remove")

-- The bit that IsLiked and IsFaved read.
unfoldable pub is_set : Redis → Bytes → ℕ → Bytes → Bytes → Bool
is_set r metric user_id entity_type entity_id =
    r.bits (bitmap_key metric entity_type entity_id (chunk_of user_id)) (bit_of user_id)

unfoldable pub is_liked : Service → Bool → ℕ → Bytes → Bytes → Result Bool
unfolding is_set
is_liked s fails user_id entity_type entity_id =
    if fails then err else ok (is_set s.redis (codes "like") user_id entity_type entity_id)

unfoldable pub is_faved : Service → Bool → ℕ → Bytes → Bytes → Result Bool
unfolding is_set
is_faved s fails user_id entity_type entity_id =
    if fails then err else ok (is_set s.redis (codes "fav") user_id entity_type entity_id)

-- IsLikedAndFaved; `fails` is the failure of the pipeline.
unfoldable pub is_liked_and_faved : Service → Bool → ℕ → Bytes → Bytes → Result (Bool × Bool)
unfolding is_set
is_liked_and_faved s fails user_id entity_type entity_id =
    if fails
    then err
    else ok (
      is_set s.redis (codes "like") user_id entity_type entity_id,
      is_set s.redis (codes "fav") user_id entity_type entity_id,
    )
