-- ===== src/Relation/EventProcessor.antt =====
-- internal/relation/event_processor.go: the consumer of follow events keeps the two sorted sets and,
-- through the user counter, the two counts. The time is in seconds; a failing call is an input.
pub mod Delivery
use zhiguang_go.Base.{
  ℕ, ◌+◌, ◌*◌, Bool, true, false, ◌&&◌, Option, none, some, ◌∷◌, ◌++◌, if◌then◌else◌, Bytes, codes,
  bytes_eq, update,
}
use zhiguang_go.Base.Int.{ℤ, pos, negsuc}
use zhiguang_go.Base.Decimal.{format_uint}
use zhiguang_go.Counter.UserCounter
use zhiguang_go.Counter.UserCounter.{apply_follow_delta_once}

-- RelationEvent
pub record RelationEvent : Type 0 where
  pub event_type : Bytes
  pub from_user : ℕ
  pub to_user : ℕ
  pub relation_id : Option ℕ

-- The scores of the members of the sorted sets, when each set expires, and the counters with the
-- markers.
pub record Redis : Type 0 where
  pub zset : Bytes → Bytes → Option ℕ
  pub zset_expires : Bytes → Option ℕ
  pub counters : UserCounter.Redis

pub data Result : Type 0 where
  ok : Result
  zset_failed : Result
  count_failed : Result

-- dedupeTTL, in seconds
abbrev pub dedupe_ttl : ℕ
dedupe_ttl = 600

relation_id_value : Option ℕ → Bytes
relation_id_value none = codes "0"
relation_id_value (some id) = format_uint id

pub following_zset_key : ℕ → Bytes
following_zset_key user_id = codes "z:following:" ++ format_uint user_id

pub followers_zset_key : ℕ → Bytes
followers_zset_key user_id = codes "z:followers:" ++ format_uint user_id

unfoldable pub dedupe_key : RelationEvent → Bytes
unfolding relation_id_value
dedupe_key evt =
    codes "dedup:rel:"
    ++ (evt.event_type
        ++ (b':'
            ∷ (format_uint evt.from_user
                ++ (b':'
                    ∷ (format_uint evt.to_user ++ (b':' ∷ relation_id_value evt.relation_id))))))

set_member : Bytes → Bytes → Option ℕ → Redis → Redis
set_member key member score r = record r {
  zset = λ k x. if bytes_eq key k && bytes_eq member x then score else r.zset k x;
}

expire : Bytes → ℕ → Redis → Redis
expire key until r = record r { zset_expires = update r.zset_expires key (some until) }

-- applyZSets, for an event that creates a relation or cancels one
apply_zsets : ℕ → RelationEvent → Bool → Redis → Redis
unfolding set_member expire following_zset_key followers_zset_key
apply_zsets now evt creates r =
    let from_key = following_zset_key evt.from_user in
    let to_key = followers_zset_key evt.to_user in
    let score : Option ℕ = if creates then some (now * 1000) else none in
    expire to_key (now + 7200) (
      expire from_key (now + 7200) (
        set_member to_key (format_uint evt.from_user) score
          (set_member from_key (format_uint evt.to_user) score r)))

pub record Faults : Type 0 where
  pub zset_fails : Bool
  pub count_fails : Bool

abbrev delta_of : Bool → ℤ
delta_of creates = if creates then pos 1 else negsuc 0

finish : Redis → UserCounter.Result Bool × UserCounter.Redis → Result × Redis
finish r (UserCounter.ok first, counters) = (ok, record r { counters = counters })
finish r (UserCounter.err, counters) = (count_failed, record r { counters = counters })

process_known : Faults → ℕ → RelationEvent → Bool → Redis → Result × Redis
unfolding apply_zsets finish dedupe_key
process_known f now evt creates r =
    if f.zset_fails
    then (zset_failed, r)
    else let r' = apply_zsets now evt creates r in
      finish r' (
        apply_follow_delta_once f.count_fails now (dedupe_key evt) dedupe_ttl evt.from_user
          evt.to_user (delta_of creates) r'.counters)

-- Process of a processor that has a counter
unfoldable pub process : Faults → ℕ → RelationEvent → Redis → Result × Redis
unfolding process_known
process f now evt r =
    if bytes_eq evt.event_type (codes "FollowCreated")
    then process_known f now evt true r
    else if bytes_eq evt.event_type (codes "FollowCanceled")
    then process_known f now evt false r
    else (ok, r)
