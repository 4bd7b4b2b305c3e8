-- ===== src/Counter/Model.antt =====
-- internal/counter/model.go and the key of consumer_watermark.go: the schema of the counters, the
-- place of a user in the sharded bitmap, and the Redis keys. Go strings are lists of bytes.
pub mod Keys
use zhiguang_go.Base.{
  ℕ, ◌+◌, ◌/◌, ◌%◌, Bool, ◌||◌, Option, none, some, [], ◌∷◌, ◌++◌, ◌==◌, if◌then◌else◌, Bytes,
  codes, bytes_eq, cut,
}
use zhiguang_go.Base.Int.{ℤ}
use zhiguang_go.Base.Decimal.{format_uint}

-- SchemaLen
abbrev pub schema_len : ℕ
schema_len = 5

-- The value of a Go map at a missing key is the zero value, here 0.
unfoldable pub name_to_idx : Bytes → ℕ
name_to_idx metric =
    if bytes_eq metric (codes "like")
    then 0
    else if bytes_eq metric (codes "fav")
    then 1
    else if bytes_eq metric (codes "follower")
    then 2
    else if bytes_eq metric (codes "following")
    then 3
    else if bytes_eq metric (codes "posts")
    then 4
    else 0

unfoldable pub index_to_name : ℕ → Bytes
index_to_name i =
    if i == 0
    then codes "like"
    else if i == 1
    then codes "fav"
    else if i == 2
    then codes "follower"
    else if i == 3
    then codes "following"
    else if i == 4
    then codes "posts"
    else []

-- ChunkSize
abbrev pub chunk_size : ℕ
chunk_size = 65536

unfoldable pub chunk_of : ℕ → ℕ
chunk_of user_id = user_id / chunk_size

unfoldable pub bit_of : ℕ → ℕ
bit_of user_id = user_id % chunk_size

abbrev colon : ℕ
colon = b':'

unfoldable pub bitmap_key : Bytes → Bytes → Bytes → ℕ → Bytes
bitmap_key metric entity_type entity_id chunk =
    codes "bm:"
    ++ (metric ++ (colon ∷ (entity_type ++ (colon ∷ (entity_id ++ (colon ∷ format_uint chunk))))))

unfoldable pub sds_key : Bytes → Bytes → Bytes
sds_key entity_type entity_id = codes "cnt:" ++ (entity_type ++ (colon ∷ entity_id))

unfoldable pub dirty_member : Bytes → Bytes → Bytes
dirty_member entity_type entity_id = entity_type ++ (colon ∷ entity_id)

is_empty : Bytes → Bool
is_empty s = bytes_eq s []

both_present : Option (Bytes × Bytes) → Option (Bytes × Bytes)
unfolding is_empty
both_present none = none
both_present (some (entity_type, entity_id)) =
    if is_empty entity_type || is_empty entity_id then none else some (entity_type, entity_id)

-- `none` is the error "invalid dirty member".
unfoldable pub parse_dirty_member : Bytes → Option (Bytes × Bytes)
unfolding both_present
parse_dirty_member member = both_present (cut colon member)

unfoldable pub rebuild_marker_key : Bytes → Bytes → Bytes
rebuild_marker_key entity_type entity_id =
    codes "rebuilding:" ++ (entity_type ++ (colon ∷ entity_id))

-- likersZSetKey of likers.go
unfoldable pub likers_zset_key : Bytes → Bytes → Bytes → Bytes
likers_zset_key metric entity_type entity_id =
    codes "likers:" ++ (metric ++ (colon ∷ (entity_type ++ (colon ∷ entity_id))))

-- CounterEvent
pub record CounterEvent : Type 0 where
  pub message_id : ℕ
  pub entity_type : Bytes
  pub entity_id : Bytes
  pub metric : Bytes
  pub index : ℤ
  pub user_id : ℕ
  pub delta : ℤ
