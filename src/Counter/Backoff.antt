-- ===== src/Counter/Backoff.antt =====
-- internal/counter/repair_backoff.go, repair_rate_limit.go and rateLimitLua of bitmap_lua.go: when an
-- entity may be rebuilt. Times are in milliseconds; a key is kept with the time at which it expires.
-- The shift of the backoff is that of int64, with its wrap-around.
pub mod Windows
use zhiguang_go.Base.{
  ℕ, ◌+◌, ◌-◌, ◌*◌, ◌%◌, ◌^◌, Bool, true, false, not, Option, none, some, ltb, leb, if◌then◌else◌,
}
use zhiguang_go.Base.Int.{ℤ, pos, negsuc, ◌+ℤ◌, ltb_ℤ}
use zhiguang_go.Base.Decimal.{two_63, two_64}

-- What Redis holds for one entity: the end of the backoff, its exponent, and the rate limiter.
pub record Repair : Type 0 where
  pub until : Option (ℤ × ℕ)
  pub exponent : Option (ℕ × ℕ)
  pub limiter : Option (ℕ × ℕ)

-- GET of a key that expires
abbrev pub live {ℓ} : {A : Type ℓ} → Option (A × ℕ) → ℕ → Option A
live none now = none
live (some (a, expires)) now = if ltb now expires then some a else none

until_passed : Option ℤ → ℕ → Bool
until_passed none now = true
until_passed (some t) now = not (ltb_ℤ (pos now) t)

-- inBackoff; `fails` is a failing GET
unfoldable pub in_backoff : Bool → ℕ → Repair → Bool
unfolding until_passed
in_backoff fails now r = if fails then false else not (until_passed (live r.until now) now)

-- int64(n), for n below 2^64
pub to_int64 : ℕ → ℤ
to_int64 n = if ltb n two_63 then pos n else negsuc (two_64 - 1 - n)

-- int64(base) << k
pub shift_left : ℕ → ℕ → ℤ
unfolding to_int64
shift_left base k = to_int64 ((base * 2 ^ k) % two_64)

pub record BackoffConfig : Type 0 where
  pub base_ms : ℕ
  pub max_ms : ℕ

-- DefaultBackoffKeyTTLMinutes
abbrev pub key_ttl_ms : ℕ
key_ttl_ms = 7_200_000

attempts_of : Option ℕ → ℕ
attempts_of none = 0
attempts_of (some n) = if ltb 62 n then 62 else n

capped : ℤ → ℕ → ℤ
capped ms max_ms = if ltb_ℤ (pos max_ms) ms then pos max_ms else ms

-- The attempts that count, and the length of the backoff.
unfoldable pub attempt_count : Bool → ℕ → Repair → ℕ
unfolding attempts_of
attempt_count get_fails now r = if get_fails then 0 else attempts_of (live r.exponent now)

pub backoff_ms : BackoffConfig → ℕ → ℤ
unfolding capped shift_left
backoff_ms cfg attempts = capped (shift_left cfg.base_ms attempts) cfg.max_ms

-- escalateBackoff
unfoldable pub escalate_backoff : BackoffConfig → Bool → Bool → ℕ → Repair → Repair
unfolding attempt_count backoff_ms
escalate_backoff cfg get_fails exec_fails now r =
    let attempts = attempt_count get_fails now r in
    if exec_fails then r else record {
      until = some (pos now +ℤ backoff_ms cfg attempts, now + key_ttl_ms);
      exponent = some (attempts + 1, now + key_ttl_ms);
      limiter = none;
    }

-- resetBackoff
unfoldable pub reset_backoff : Bool → Repair → Repair
reset_backoff exec_fails r =
    if exec_fails then r else record { until = none; exponent = none; limiter = none }

-- rateLimitLua: the count, and the key after it
counted : Option ℕ → Option (ℕ × ℕ) → ℕ → ℕ → ℕ × Option (ℕ × ℕ)
counted none key now window_ms = (1, some (1, now + window_ms))
counted (some n) none now window_ms = (n + 1, none)
counted (some n) (some (m, expires)) now window_ms = (n + 1, some (n + 1, expires))

pub rate_limit_lua : ℕ → ℕ → Option (ℕ × ℕ) → ℕ × Option (ℕ × ℕ)
unfolding counted
rate_limit_lua now window_ms key = counted (live key now) key now window_ms

-- DefaultRebuildRateWindowSec and DefaultRebuildRatePermits, or the configured values above 0
pub record RateConfig : Type 0 where
  pub window_seconds : ℕ
  pub permits : ℕ

unfoldable pub or_default : Option RateConfig → RateConfig
or_default none = record { window_seconds = 60; permits = 5 }
or_default (some cfg) = record {
  window_seconds = if ltb 0 cfg.window_seconds then cfg.window_seconds else 60;
  permits = if ltb 0 cfg.permits then cfg.permits else 5;
}

-- allowedByRateLimiter
unfoldable pub allowed_by_rate_limiter : Option RateConfig → Bool → ℕ → Repair → Bool × Repair
unfolding or_default rate_limit_lua
allowed_by_rate_limiter cfg fails now r =
    if fails
    then (true, r)
    else let (count, key) = rate_limit_lua now ((or_default cfg).window_seconds * 1000) r.limiter in
      (leb count (or_default cfg).permits, record r { limiter = key })
