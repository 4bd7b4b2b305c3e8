-- ===== src/Pkg/Tests.antt =====
-- The theorems on the lock, for two clients, and on the rate limiter, for two requests.
use zhiguang_go.Base.{
  ◌≤◌, ℕ, ◌≡◌, refl, true, false, none, some, List, [], ◌∷◌, arith, codes, bytes_eq, update,
}
use zhiguang_go.Base.Int.{pos}
use zhiguang_go.Pkg.RateLimiter.{RateLimitConfig}
use zhiguang_go.Pkg.RateLimiter.Windows.{Request, passed_times, in_window_at, passed_times-le}
use zhiguang_go.Pkg.RedisLock.{Options, normalized, Lock, try_acquire, Round}
use zhiguang_go.Pkg.RedisLock.Exclusion.{Action, acquire_lock, run, run-one_holder}

abbrev unset : Options
unset = record { ttl = pos 0; watchdog_interval = pos 0; op_timeout = pos 0 }

abbrev kept : ℕ → ℕ
kept n = n

abbrev actions : List Action
actions = acquire_lock false 1 (codes "a") unset ∷ acquire_lock false 2 (codes "b") unset ∷ []

run-one_holder_example : codes "a" ≡ codes "a"
unfolding run try_acquire normalized update bytes_eq
run-one_holder_example =
    run-one_holder kept actions 0 (codes "a") (codes "a") (ground arith) (ground arith)
      (ground arith)

abbrev first : Round
first = record {
  now = 1;
  token = codes "a";
  fails = false;
  others = λ k. some (codes "b", 5);
  cancelled = false;
}

abbrev second : Round
second = record { now = 6; token = codes "c"; fails = false; others = λ k. k; cancelled = false }

abbrev held : Lock
held = record {
  token = codes "c";
  options = record {
    ttl = pos 5_000_000_000;
    watchdog_interval = pos 1_666_666_666;
    op_timeout = pos 1_000_000_000;
  };
}

abbrev one_per_second : RateLimitConfig
one_per_second = record { enabled = true; window_ms = 1000; per_ip = 1; ban_duration_ms = 0 }

abbrev request : Request
request = record { time = 10; member = codes "x:1"; exists_fails = false; set_fails = false }

abbrev next_request : Request
next_request = record { time = 20; member = codes "x:2"; exists_fails = false; set_fails = false }

passed_times-le_example :
    in_window_at 30 1000 (
      passed_times one_per_second
        (request ∷ next_request ∷ [])
        (record { window = none; ban = none }))
    ≤ 1
unfolding bytes_eq
passed_times-le_example =
    passed_times-le one_per_second (request ∷ next_request ∷ []) 30
      (record { window = none; ban = none }) refl (ground arith) (tt, ((refl, tt), tt))
