-- ===== src/Counter/UserCounter.antt =====
-- internal/counter/user_counter.go: the follow counters of users, and the script that counts an event
-- once. The time is in seconds; a marker is kept with the time at which it expires.
use zhiguang_go.Base.{
  update_lem, lt→ltb, ℕ, ◌+◌, ◌<◌, ◌≡◌, refl, Bool, true, false, ◌&&◌, Option, none, some, arith,
  ltb, if◌then◌else◌, Bytes, codes, bytes_eq, update, bytes_eq_refl, update_self,
}
use zhiguang_go.Base.Int.{ℤ, pos, ◌+ℤ◌, ltb_ℤ}
use zhiguang_go.Base.Decimal.{format_uint}
use zhiguang_go.Counter.Model.{sds_key}

pub record Redis : Type 0 where
  pub marks : Bytes → Option ℕ
  pub hash : Bytes → Bytes → Option ℤ

-- A key with an expiry is there until its time.
abbrev pub is_live : Option ℕ → ℕ → Bool
is_live none now = false
is_live (some expires) now = ltb now expires

abbrev pub count_of : Option ℤ → ℤ
count_of none = pos 0
count_of (some n) = n

pub incr_by : (Bytes → Bytes → Option ℤ) → Bytes → Bytes → ℤ → Bytes → Bytes → Option ℤ
incr_by hash key field delta k f =
    if bytes_eq key k && bytes_eq field f
    then some (count_of (hash key field) +ℤ delta)
    else hash k f

-- applyFollowDeltaScript
unfoldable pub apply_follow_delta : ℕ → Bytes → Bytes → Bytes → ℕ → ℤ → Redis → Bool × Redis
unfolding incr_by
apply_follow_delta now mark from_key to_key ttl delta r =
    if is_live (r.marks mark) now then (false, r) else (
      true,
      record r {
        marks = update r.marks mark (some (now + ttl));
        hash =
            incr_by (incr_by r.hash from_key (codes "following") delta) to_key (codes "follower")
              delta;
      },
    )

pub data Result {ℓ} (A : Type ℓ) : Type ℓ where
  ok : A → Result A
  err : Result A

user_key : ℕ → Bytes
user_key user_id = sds_key (codes "user") (format_uint user_id)

-- ApplyFollowDeltaOnce of a counter that has a Redis client; `fails` says that the script fails.
unfoldable pub apply_follow_delta_once :
    Bool → ℕ → Bytes → ℕ → ℕ → ℕ → ℤ → Redis → Result Bool × Redis
unfolding user_key
apply_follow_delta_once fails now dedupe_key ttl from_user to_user delta r =
    if fails
    then (err, r)
    else let (first, r') =
        apply_follow_delta now dedupe_key (user_key from_user) (user_key to_user) ttl delta r in
      (ok first, r')

-- FollowerCount: the count, and whether it is known.
known_count : Option ℤ → ℤ × Bool
known_count none = (pos 0, false)
known_count (some n) = if ltb_ℤ n (pos 0) then (pos 0, true) else (n, true)

unfoldable pub follower_count : Bool → ℕ → Redis → ℤ × Bool
unfolding known_count user_key
follower_count fails user_id r =
    if fails then (pos 0, false) else known_count (r.hash (user_key user_id) (codes "follower"))

pub following_of : Redis → ℕ → ℤ
following_of r u = count_of (r.hash (user_key u) (codes "following"))

pub followers_of : Redis → ℕ → ℤ
followers_of r u = count_of (r.hash (user_key u) (codes "follower"))

-- A marker that is there stops the count, and nothing changes.
pub apply_follow_delta_once_marked :
    (now : ℕ) (key : Bytes) (ttl u v : ℕ) (delta : ℤ) (r : Redis)
    → is_live (r.marks key) now ≡ true
    → apply_follow_delta_once false now key ttl u v delta r ≡ (ok false, r)
unfolding apply_follow_delta_once apply_follow_delta
apply_follow_delta_once_marked now key ttl u v delta r h = rw h

both_sides :
    (hash : Bytes → Bytes → Option ℤ) (from_key to_key : Bytes) (delta : ℤ)
    → (count_of (
          incr_by
            (incr_by hash from_key (codes "following") delta)
            to_key
            (codes "follower")
            delta
            from_key
            (codes "following"))
        ≡ count_of (hash from_key (codes "following")) +ℤ delta)
      × (count_of (
            incr_by
              (incr_by hash from_key (codes "following") delta)
              to_key
              (codes "follower")
              delta
              to_key
              (codes "follower"))
          ≡ count_of (hash to_key (codes "follower")) +ℤ delta)
unfolding incr_by bytes_eq
both_sides hash from_key to_key delta = ground (arith, bytes_eq_refl from_key, bytes_eq_refl to_key)

-- Without a marker both sides are counted, and the marker is there for the whole lifetime.
pub apply_follow_delta_once_first :
    (now : ℕ) (key : Bytes) (ttl u v : ℕ) (delta : ℤ) (r : Redis)
    → is_live (r.marks key) now ≡ false
    → ((apply_follow_delta_once false now key ttl u v delta r).0 ≡ ok true)
      × (following_of (apply_follow_delta_once false now key ttl u v delta r).1 u
          ≡ following_of r u +ℤ delta)
      × (followers_of (apply_follow_delta_once false now key ttl u v delta r).1 v
          ≡ followers_of r v +ℤ delta)
      × ((later : ℕ)
          → later < now + ttl
          → is_live ((apply_follow_delta_once false now key ttl u v delta r).1.marks key) later
            ≡ true)
unfolding apply_follow_delta_once apply_follow_delta following_of followers_of
apply_follow_delta_once_first now key ttl u v delta r h =
    let (left, right) = both_sides r.hash (user_key u) (user_key v) delta in
    (
      rw h refl,
      rw h left,
      rw h right,
      λ later l. rw (h, update_self r.marks key (some (now + ttl))) (lt→ltb later (now + ttl) l),
    )

-- The markers of other events are left alone.
pub marks-apply_follow_delta_once :
    (fails : Bool) (now : ℕ) (key j : Bytes) (ttl u v : ℕ) (delta : ℤ) (r : Redis)
    → bytes_eq key j ≡ false
    → (apply_follow_delta_once fails now key ttl u v delta r).1.marks j ≡ r.marks j
unfolding apply_follow_delta_once apply_follow_delta
marks-apply_follow_delta_once fails now key j ttl u v delta r h =
    ground (arith, update_lem r.marks key j (some (now + ttl)))
