-- ===== src/Relation/Follows.antt =====
-- internal/relation: Follow and Unfollow of follow.go, with the token bucket of service.go, the writes of
-- repository.go and the transaction of internal/outbox that stores an event with them. Which statements
-- fail is an input; a transaction that fails leaves the tables as they were. Caches, hooks and the
-- audit are left out. The time is in seconds and does not go back.
pub mod Stream
pub mod Tests
use zhiguang_go.Base.{
  ℕ, ◌+◌, ◌-◌, ◌*◌, Bool, true, false, not, ◌&&◌, ◌||◌, Option, none, some, List, [], ◌∷◌, ◌++◌,
  ltb, leb, ◌==◌, if◌then◌else◌, Bytes, codes,
}

-- The fields of the bucket, and when its key expires.
pub record Bucket : Type 0 where
  pub last : ℕ
  pub tokens : ℕ
  pub until : Option ℕ

-- tokenBucketLua
pub take_token : ℕ → ℕ → ℕ → ℕ → Option ℕ → Bool × Option Bucket
take_token capacity rate now tokens until =
    if ltb tokens 1
    then (false, some (record { last = now; tokens = tokens; until = until }))
    else (true, some (record { last = now; tokens = tokens - 1; until = some (now + 60) }))

abbrev is_over : Option ℕ → ℕ → Bool
is_over none now = false
is_over (some t) now = leb t now

abbrev min_of : ℕ → ℕ → ℕ
min_of a b = if leb a b then a else b

unfoldable pub token_bucket_lua : ℕ → ℕ → ℕ → Option Bucket → Bool × Option Bucket
unfolding take_token
token_bucket_lua capacity rate now none =
    take_token capacity rate now (min_of capacity capacity) none
token_bucket_lua capacity rate now (some b) =
    if is_over b.until now
    then take_token capacity rate now (min_of capacity capacity) none
    else take_token capacity rate now (min_of capacity (b.tokens + (now - b.last) * rate)) b.until

-- tokenBucketParams
unfoldable pub token_bucket_params : Option (ℕ × ℕ) → ℕ × ℕ
token_bucket_params none = (10, 1)
token_bucket_params (some (capacity, rate)) = if ltb 0 capacity then (capacity, rate) else (10, 1)

-- The column rel_status by the two users; a pair without a row has none.
abbrev pub Table : Type 0
Table = ℕ → ℕ → Option Bool

abbrev pub is_active : Option Bool → Bool
is_active none = false
is_active (some b) = b

pub set_row : ℕ → ℕ → Bool → Table → Table
set_row a b v t x y = if (a == x) && (b == y) then some v else t x y

-- UpsertFollowing and UpsertFollower with the status 1: whether a row was affected.
unfoldable pub upsert : ℕ → ℕ → Table → Bool × Table
unfolding set_row
upsert a b t = if is_active (t a b) then (false, t) else (true, set_row a b true t)

-- CancelFollowing and CancelFollower
unfoldable pub cancel : ℕ → ℕ → Table → Bool × Table
unfolding set_row
cancel a b t = if is_active (t a b) then (true, set_row a b false t) else (false, t)

pub data EventType : Type 0 where
  follow_created follow_canceled : EventType

-- A row of the outbox.
pub record OutboxEvent : Type 0 where
  pub aggregate_id : Option ℕ
  pub event_type : EventType
  pub from_user : ℕ
  pub to_user : ℕ

pub record World : Type 0 where
  pub following : Table
  pub follower : Table
  pub outbox : List OutboxEvent
  pub buckets : ℕ → Option Bucket

-- Which calls fail: the script, the two writes, the insert of the event or the commit.
pub record Faults : Type 0 where
  pub eval : Bool
  pub first : Bool
  pub second : Bool
  pub commit : Bool

pub data Reply : Type 0 where
  replied : Bool → Reply
  failed : Reply

-- RunInTx around the mutations of Follow
pub follow_tx : Faults → ℕ → ℕ → ℕ → World → Reply × World
unfolding upsert
follow_tx f id from to w =
    let (transitioned, following) = upsert from to w.following in
    let (mirrored, follower) = upsert to from w.follower in
    if f.first || f.second
    then (failed, w)
    else if not transitioned
    then (replied false, w)
    else if f.commit
    then (failed, w)
    else (
      replied true,
      record w {
        following = following;
        follower = follower;
        outbox =
            w.outbox
            ++ record {
              aggregate_id = some id;
              event_type = follow_created;
              from_user = from;
              to_user = to;
            }
              ∷ [];
      },
    )

pub follow_allowed : Faults → ℕ → ℕ → ℕ → Bool → World → Reply × World
unfolding follow_tx
follow_allowed f id from to false w = (replied false, w)
follow_allowed f id from to true w = follow_tx f id from to w

-- Follow, with the id that the generator gives the row
unfoldable pub follow : Option (ℕ × ℕ) → Faults → ℕ → ℕ → ℕ → ℕ → World → Reply × World
unfolding follow_allowed token_bucket_lua token_bucket_params
follow bucket_cfg f now id from to w =
    let (capacity, rate) = token_bucket_params bucket_cfg in
    let (allowed, bucket) = token_bucket_lua capacity rate now (w.buckets from) in
    if f.eval
    then (replied false, w)
    else follow_allowed f id from to allowed
        (record w { buckets = λ u. if from == u then bucket else w.buckets u })

-- Unfollow
unfoldable pub unfollow : Faults → ℕ → ℕ → World → Reply × World
unfolding cancel
unfollow f from to w =
    let (affected, following) = cancel from to w.following in
    let (mirrored, follower) = cancel to from w.follower in
    if f.first
    then (failed, w)
    else if not affected
    then (replied false, w)
    else if f.second || f.commit
    then (failed, w)
    else (
      replied true,
      record w {
        following = following;
        follower = follower;
        outbox =
            w.outbox
            ++ record {
              aggregate_id = none;
              event_type = follow_canceled;
              from_user = from;
              to_user = to;
            }
              ∷ [];
      },
    )

-- IsFollowing, where the query succeeds
unfoldable pub is_following : ℕ → ℕ → World → Bool
is_following from to w = is_active (w.following from to)

-- RelationStatus
unfoldable pub relation_status : ℕ → ℕ → World → Bytes
unfolding is_following
relation_status from to w =
    let following = is_following from to w in
    let followed_by = is_following to from w in
    if following && followed_by
    then codes "mutual"
    else if following
    then codes "following"
    else if followed_by
    then codes "followed"
    else codes "none"
