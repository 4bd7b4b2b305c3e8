-- ===== src/Cache/Tiered.antt =====
-- internal/cache/tiered.go, with CacheReadThrough of pkg/cacheutil: one key read through the process
-- cache, Redis and the loader. Values are encoded and decoded by parameters. What the loader answers and
-- what fails are inputs; so are the rounds of the lock, before each of which others may change the
-- caches. An entry that has expired is one that is missing.
pub mod Answers
pub mod Coherence
pub mod Reads
use zhiguang_go.Base.{
  Bool, true, false, not, ◌&&◌, ◌||◌, Option, none, some, List, [], ◌∷◌, if◌then◌else◌, Bytes,
  bytes_eq,
}

-- the fields of Tiered that decide its course
pub record Tiered : Type 0 where
  pub has_l1 : Bool
  pub has_l2 : Bool
  pub null_sentinel : Bytes
  pub has_null_ttl : Bool
  pub has_l2_ttl : Bool
  pub has_lock_key : Bool

-- The entries of the key in the two caches.
pub record Caches : Type 0 where
  pub l1 : Option Bytes
  pub l2 : Option Bytes

pub record Faults : Type 0 where
  pub get : Bool
  pub set_l2 : Bool
  pub set_l1 : Bool

pub data HitLevel : Type 0 where
  hit_l1 hit_l2 hit_load : HitLevel

pub data CacheError : Type 0 where
  null_cached load_failed pre_load_failed lock_failed cancelled : CacheError

-- What the loader answers.
pub data Loaded (T : Type 0) : Type 0 where
  present : T → Loaded T
  absent broken : Loaded T

-- What a look into Redis gives.
pub data Found (T : Type 0) : Type 0 where
  hit : T → Found T
  miss null : Found T

-- A value or an error, with the level; `waiting` is a call whose rounds are not over.
pub data Result (T : Type 0) : Type 0 where
  value : T → HitLevel → Result T
  failed : CacheError → HitLevel → Result T
  waiting : Result T

-- A round of CacheReadThrough: Redis fails, the lock is held by another, or it is taken.
pub data Round : Type 0 where
  lock_error : Round
  busy : (Caches → Caches) → Bool → Round
  taken : (Caches → Caches) → Round

-- fillL1
unfoldable pub fill_l1 : Faults → Tiered → Bytes → Caches → Caches
fill_l1 f t raw c = if not t.has_l1 || f.set_l1 then c else record c { l1 = some raw }

module _ {T : Type 0} (encode : T → Option Bytes) (decode : Bytes → Option T) where
  decoded : Faults → Tiered → Bytes → Option T → Caches → Found T × Caches
  decoded f t raw none c = (miss, c)
  decoded f t raw (some v) c = (hit v, fill_l1 f t raw c)

  read_l2 : Faults → Tiered → Option Bytes → Caches → Found T × Caches
  read_l2 f t none c = (miss, c)
  read_l2 f t (some raw) c =
      if bytes_eq raw []
      then (miss, c)
      else if not (bytes_eq t.null_sentinel []) && bytes_eq raw t.null_sentinel
      then (null, c)
      else decoded f t raw (decode raw) c

  -- getL2
  unfoldable pub get_l2 : Faults → Tiered → Caches → Found T × Caches
  unfolding read_l2 decoded
  get_l2 f t c = if not t.has_l2 || f.get then (miss, c) else read_l2 f t c.l2 c

  fill : Faults → Tiered → Option Bytes → Caches → Caches
  fill f t none c = c
  fill f t (some raw) c =
      fill_l1 f t raw
        (if t.has_l2 && t.has_l2_ttl && not f.set_l2 then record c { l2 = some raw } else c)

  -- loadAndFill
  unfoldable pub load_and_fill : Faults → Tiered → Loaded T → Caches → Result T × Caches
  unfolding fill
  load_and_fill f t (present v) c = (value v hit_load, fill f t (encode v) c)
  load_and_fill f t absent c = (
    failed null_cached hit_load,
    if not (bytes_eq t.null_sentinel []) && t.has_l2 && t.has_null_ttl && not f.set_l2
        then record c { l2 = some t.null_sentinel }
        else c,
  )
  load_and_fill f t broken c = (failed load_failed hit_load, c)

  -- the look into the cache by one that waits for the lock
  while_busy : Bool → Found T × Caches → (Caches → Result T × Caches) → Result T × Caches
  while_busy ends (hit v, c) next = (value v hit_l2, c)
  while_busy ends (null, c) next = (failed null_cached hit_l1, c)
  while_busy ends (miss, c) next = if ends then (failed cancelled hit_l1, c) else next c

  -- the look into the cache by one that has the lock
  when_taken : Faults → Tiered → Loaded T → Found T × Caches → Result T × Caches
  when_taken f t load (hit v, c) = (value v hit_l2, c)
  when_taken f t load (null, c) = (failed null_cached hit_l1, c)
  when_taken f t load (miss, c) = load_and_fill f t load c

  -- CacheReadThrough, as Get calls it
  unfoldable pub cache_read_through :
      Faults → Tiered → Loaded T → List Round → Caches → Result T × Caches
  unfolding while_busy when_taken
  cache_read_through f t load [] c = (waiting, c)
  cache_read_through f t load (lock_error ∷ rounds) c = (failed lock_failed hit_l1, c)
  cache_read_through f t load (busy others ends ∷ rounds) c =
      while_busy ends (get_l2 f t (others c)) (cache_read_through f t load rounds)
  cache_read_through f t load (taken others ∷ rounds) c =
      when_taken f t load (get_l2 f t (others c))

  after_l2 :
      Faults → Tiered → Option Bool → Loaded T → List Round → Found T × Caches → Result T × Caches
  after_l2 f t pre_load load rounds (hit v, c) = (value v hit_l2, c)
  after_l2 f t pre_load load rounds (null, c) = (failed null_cached hit_l2, c)
  after_l2 f t (some true) load rounds (miss, c) = (failed pre_load_failed hit_load, c)
  after_l2 f t (some false) load rounds (miss, c) =
      if t.has_lock_key then cache_read_through f t load rounds c else load_and_fill f t load c
  after_l2 f t none load rounds (miss, c) =
      if t.has_lock_key then cache_read_through f t load rounds c else load_and_fill f t load c

  pub read_l1 : Tiered → Option Bytes → Option T
  read_l1 t none = none
  read_l1 t (some raw) = if t.has_l1 then decode raw else none

  after_l1 :
      Faults → Tiered → Option Bool → Loaded T → List Round → Option T → Caches → Result T × Caches
  after_l1 f t pre_load load rounds (some v) c = (value v hit_l1, c)
  after_l1 f t pre_load load rounds none c = after_l2 f t pre_load load rounds (get_l2 f t c)

  -- Get; `pre_load` says whether PreLoad fails, if there is one
  unfoldable pub get :
      Faults → Tiered → Option Bool → Loaded T → List Round → Caches → Result T × Caches
  unfolding after_l1 after_l2 read_l1
  get f t pre_load load rounds c = after_l1 f t pre_load load rounds (read_l1 t c.l1) c
