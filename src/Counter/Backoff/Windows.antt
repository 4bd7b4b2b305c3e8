-- ===== src/Counter/Backoff/Windows.antt =====
-- The backoff ends when it should, except where the shift wraps around, and the rate limiter keeps to
-- its permits.
use zhiguang_go.Base.{
  lt→ltb, ℕ, suc, ◌+◌, ◌*◌, ◌%◌, ◌^◌, ◌≤◌, ◌<◌, ◌≡◌, refl, ap, ◌∙◌, false, not, Option, none, some,
  List, [], ◌∷◌, arith, ltb, leb, if◌then◌else◌, All,
}
use zhiguang_go.Base.Int.{ℤ, pos, ◌+ℤ◌}
use zhiguang_go.Base.Decimal.{two_63, two_64}
use zhiguang_go.Counter.Backoff.{
  Repair, until_passed, live, in_backoff, to_int64, shift_left, BackoffConfig, key_ttl_ms,
  attempt_count, backoff_ms, escalate_backoff, RateConfig, or_default, allowed_by_rate_limiter,
}
use Prim.Native.Nat.{min}

-- The doubling that is meant: the base times a power of two, up to the maximum.
backoff_ms-min :
    (cfg : BackoffConfig) (k : ℕ)
    → cfg.base_ms * 2 ^ k < two_63
    → backoff_ms cfg k ≡ pos (min (cfg.base_ms * 2 ^ k) cfg.max_ms)
unfolding backoff_ms shift_left to_int64
backoff_ms-min cfg k h = ground arith

waiting :
    (now t m : ℕ)
    → t < now + key_ttl_ms
    → not (until_passed (live (some (pos now +ℤ pos m, now + key_ttl_ms)) t) t) ≡ ltb t (now + m)
unfolding until_passed ◌+ℤ◌
waiting now t m h = ground arith

-- After a failed rebuild the entity is in backoff for exactly the doubled time, up to the maximum,
-- as long as the product fits 63 bits.
pub in_backoff-escalate_backoff :
    (cfg : BackoffConfig) (now t : ℕ) (r : Repair)
    → cfg.base_ms * 2 ^ attempt_count false now r < two_63
    → now ≤ t
    → t < now + key_ttl_ms
    → in_backoff false t (escalate_backoff cfg false false now r)
      ≡ ltb t (now + min (cfg.base_ms * 2 ^ attempt_count false now r) cfg.max_ms)
unfolding in_backoff escalate_backoff
in_backoff-escalate_backoff cfg now t r h from to =
    ap (λ (ms : ℤ). not (until_passed (live (some (pos now +ℤ ms, now + key_ttl_ms)) t) t))
      (backoff_ms-min cfg (attempt_count false now r) h)
    ∙ waiting now t _ to

wrapped : (cfg : BackoffConfig) (c : ℕ) → cfg.base_ms ≡ 4 * c → backoff_ms cfg 62 ≡ pos 0
unfolding backoff_ms shift_left to_int64
wrapped cfg c quad =
    let nothing : (cfg.base_ms * 2 ^ 62) % two_64 ≡ 0 = omega arith in rw nothing (ground arith)

-- Where the exponent has reached 62 and the base is a multiple of 4, the shift leaves nothing: the
-- entity is not in backoff at all, right after its rebuild failed.
pub escalate_backoff_wraps :
    (cfg : BackoffConfig) (c now : ℕ) (r : Repair)
    → cfg.base_ms ≡ 4 * c
    → attempt_count false now r ≡ 62
    → in_backoff false now (escalate_backoff cfg false false now r) ≡ false
unfolding in_backoff escalate_backoff
escalate_backoff_wraps cfg c now r quad top =
    ap
      (λ (k : ℕ).
        not (until_passed (live (some (pos now +ℤ backoff_ms cfg k, now + key_ttl_ms)) now) now))
      top
    ∙ ap (λ (ms : ℤ). not (until_passed (live (some (pos now +ℤ ms, now + key_ttl_ms)) now) now))
        (wrapped cfg c quad)
    ∙ waiting now now 0 (omega arith)
    ∙ ground arith

-- The number of calls that the rate limiter lets pass, of calls at the given times.
pub passes : Option RateConfig → List ℕ → Repair → ℕ
passes cfg [] r = 0
passes cfg (t ∷ ts) r =
    let (allowed, r') = allowed_by_rate_limiter cfg false t r in
    let rest = passes cfg ts r' in if allowed then suc rest else rest

counted_call :
    (cfg : Option RateConfig) (t : ℕ) (r : Repair) (n expires : ℕ)
    → r.limiter ≡ some (n, expires)
    → t < expires
    → allowed_by_rate_limiter cfg false t r
      ≡ (leb (n + 1) (or_default cfg).permits, record r { limiter = some (n + 1, expires) })
unfolding allowed_by_rate_limiter
counted_call cfg t r n expires h l = rw (h, lt→ltb t expires l)

first_call :
    (cfg : Option RateConfig) (t : ℕ) (r : Repair)
    → live r.limiter t ≡ none
    → allowed_by_rate_limiter cfg false t r ≡ (
      leb 1 (or_default cfg).permits,
      record r { limiter = some (1, t + (or_default cfg).window_seconds * 1000) },
    )
unfolding allowed_by_rate_limiter
first_call cfg t r h = rw h

limited :
    (cfg : Option RateConfig) (ts : List ℕ) (r : Repair) (n expires : ℕ)
    → r.limiter ≡ some (n, expires)
    → All (λ t. t < expires) ts
    → passes cfg ts r + min n (or_default cfg).permits ≤ (or_default cfg).permits
unfolding passes
limited cfg [] r n expires h ts = omega arith
limited cfg (t ∷ ts) r n expires h (l, ls) = rw (counted_call cfg t r n expires h l) (
    ground (
      arith,
      limited cfg ts (record r { limiter = some (n + 1, expires) }) (n + 1) expires refl ls,
    ))

-- In one window of the rate limiter, at most the permitted number of rebuilds is let pass.
pub passes-le-permits :
    (cfg : Option RateConfig) (t : ℕ) (ts : List ℕ) (r : Repair)
    → live r.limiter t ≡ none
    → All (λ u. u < t + (or_default cfg).window_seconds * 1000) ts
    → passes cfg (t ∷ ts) r ≤ (or_default cfg).permits
unfolding passes
passes-le-permits cfg t ts r h ls = rw (first_call cfg t r h) (
    ground (
      arith,
      limited cfg ts (record r { limiter = some (1, t + (or_default cfg).window_seconds * 1000) }) 1
          _ refl ls,
    ))
