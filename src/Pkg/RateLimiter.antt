-- ===== src/Pkg/RateLimiter.antt =====
-- pkg/middleware/ratelimit.go: the sliding window of one client address. The time is that of Redis, in
-- milliseconds. The sorted set is the list of its members with their scores; it and the ban are kept
-- with the time at which they expire. The member that a request brings and the failures of Redis are
-- inputs.
pub mod Members
pub mod Keys
pub mod Windows
use zhiguang_go.Base.{
  ℕ, ◌+◌, ◌-◌, Bool, true, false, not, ◌&&◌, ◌||◌, Option, none, some, List, [], ◌∷◌, ltb, leb,
  ◌==◌, if◌then◌else◌, length, keep, Bytes, bytes_eq,
}

pub record RateLimitConfig : Type 0 where
  pub enabled : Bool
  pub window_ms : ℕ
  pub per_ip : ℕ
  pub ban_duration_ms : ℕ

abbrev pub ZSet : Type 0
ZSet = List (Bytes × ℕ)

-- What Redis holds for one address: the window, and the end of a ban.
pub record Redis : Type 0 where
  pub window : Option (ZSet × ℕ)
  pub ban : Option ℕ

abbrev pub live : ℕ → Option (ZSet × ℕ) → ZSet
live now none = []
live now (some (z, expires)) = if ltb now expires then z else []

abbrev pub is_banned : ℕ → Option ℕ → Bool
is_banned now none = false
is_banned now (some expires) = ltb now expires

-- the members that ZREMRANGEBYSCORE leaves: those whose score is above now - window_ms
abbrev pub in_window : ℕ → ℕ → Bytes × ℕ → Bool
in_window now window_ms (member, score) = ltb now (score + window_ms)

-- ZADD
unfoldable pub z_add : Bytes → ℕ → ZSet → ZSet
z_add member score [] = (member, score) ∷ []
z_add member score ((m, s) ∷ z) =
    let rest = z_add member score z in
    if bytes_eq m member then (member, score) ∷ z else (m, s) ∷ rest

-- rateLimitScript: whether the request is allowed, the remaining quota, and the key
unfoldable pub rate_limit_script :
    RateLimitConfig → ℕ → Bytes → Option (ZSet × ℕ) → Bool × ℕ × Option (ZSet × ℕ)
rate_limit_script cfg now member key =
    let z = keep (in_window now cfg.window_ms) (live now key) in
    if leb cfg.per_ip (length z)
    then (false, 0, some (z, now + cfg.window_ms))
    else (true, cfg.per_ip - length z - 1, some (z_add member now z, now + cfg.window_ms))

pub data Answer : Type 0 where
  passed : Option ℕ → Answer
  rejected : Answer

-- the calls of Redis that fail
pub record Faults : Type 0 where
  pub exists : Bool
  pub script : Bool
  pub set : Bool

-- ban
unfoldable pub ban : Bool → RateLimitConfig → ℕ → Redis → Redis
ban set_fails cfg now r =
    if (cfg.ban_duration_ms == 0) || set_fails
    then r
    else record r { ban = some (now + cfg.ban_duration_ms) }

after_script : Faults → RateLimitConfig → ℕ → Redis → Bool × ℕ × Option (ZSet × ℕ) → Answer × Redis
after_script faults cfg now r (true, remaining, key) =
    (passed (some remaining), record r { window = key })
after_script faults cfg now r (false, remaining, key) =
    (rejected, ban faults.set cfg now (record r { window = key }))

-- The handler of an enabled limiter: the request is passed on, with the remaining quota where it is
-- known, or rejected.
unfoldable pub handle_request : Faults → RateLimitConfig → ℕ → Bytes → Redis → Answer × Redis
unfolding after_script
handle_request faults cfg now member r =
    if not faults.exists && is_banned now r.ban
    then (rejected, r)
    else if faults.script
    then (passed none, r)
    else after_script faults cfg now r (rate_limit_script cfg now member r.window)

-- Middleware; `has_client` is false for a limiter without a Redis client
unfoldable pub middleware : Bool → Faults → RateLimitConfig → ℕ → Bytes → Redis → Answer × Redis
middleware has_client faults cfg now member r =
    if not cfg.enabled || not has_client
    then (passed none, r)
    else handle_request faults cfg now member r
