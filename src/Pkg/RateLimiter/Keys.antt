-- ===== src/Pkg/RateLimiter/Keys.antt =====
-- The key of the rate limiter between requests.
use zhiguang_go.Base.{
  All-keep, ℕ, ◌+◌, ◌≤◌, ◌<◌, ◌≡◌, refl, ap, ◌∙◌, inl, inr, false, Option, none, some, [], ◌∷◌,
  arith, ltb, if◌then◌else◌, Bool-cases, length, keep, length-keep-le, All, Bytes,
}
use zhiguang_go.Pkg.RateLimiter.{RateLimitConfig, ZSet, live, in_window, z_add}
use zhiguang_go.Pkg.RateLimiter.Members.{has, z_add-new, keep-in_window, All-z_add, length-z_add-le}

-- The key after a request: its members were counted, and it lives as long as any of them.
pub record Sound (cfg : RateLimitConfig) (now : ℕ) (z : ZSet) (expires : ℕ) : Type 0 where
  pub recent : expires ≤ now + cfg.window_ms
  pub kept : All (λ x. x.1 + cfg.window_ms ≤ expires) z
  pub bounded : length z ≤ cfg.per_ip

abbrev pub SoundKey : RateLimitConfig → ℕ → Option (ZSet × ℕ) → Type 0
SoundKey cfg now none = Unit
SoundKey cfg now (some (z, expires)) = Sound cfg now z expires

abbrev pub alive : ℕ → ℕ → Option (ZSet × ℕ) → ℕ
alive t w none = 0
alive t w (some (z, expires)) = length (keep (in_window t w) z)

expired : (t w e : ℕ) (z : ZSet) → All (λ x. x.1 + w ≤ e) z → e ≤ t → keep (in_window t w) z ≡ []
expired t w e [] h l = refl
expired t w e ((m, s) ∷ z) (h, hs) l = ground (arith, expired t w e z hs l)

pub alive-live :
    (cfg : RateLimitConfig) (now n t : ℕ) (key : Option (ZSet × ℕ))
    → SoundKey cfg now key
    → n ≤ t
    → length (keep (in_window t cfg.window_ms) (live n key)) ≡ alive t cfg.window_ms key
alive-live cfg now n t none s h = refl
alive-live cfg now n t (some (z, e)) s h = elim (Bool-cases (ltb n e)) [
  | inl b ↦ rw (b)
  | inr b ↦ rw (b, expired t cfg.window_ms e z s.kept (ground arith))
]

All-weaken : (w a b : ℕ) (z : ZSet) → a ≤ b → All (λ x. x.1 + w ≤ a) z → All (λ x. x.1 + w ≤ b) z
All-weaken w a b [] h k = tt
All-weaken w a b (x ∷ z) h (k, ks) = (omega arith, All-weaken w a b z h ks)

-- what the script reads of the key
unfoldable pub left : RateLimitConfig → ℕ → Option (ZSet × ℕ) → ZSet
left cfg n key = keep (in_window n cfg.window_ms) (live n key)

pub left-Sound :
    (cfg : RateLimitConfig) (now n : ℕ) (key : Option (ZSet × ℕ))
    → SoundKey cfg now key
    → now ≤ n
    → Sound cfg n (left cfg n key) (n + cfg.window_ms)
unfolding left
left-Sound cfg now n none s h = record { recent = omega arith; kept = tt; bounded = omega arith }
left-Sound cfg now n (some (z, e)) s h = elim (Bool-cases (ltb n e)) [
  | inl b ↦ rw (b) (record {
    recent = omega arith;
    kept =
        All-keep (λ x. x.1 + cfg.window_ms ≤ n + cfg.window_ms) (in_window n cfg.window_ms) z
          (All-weaken cfg.window_ms e (n + cfg.window_ms) z (omega (arith, s.recent)) s.kept);
    bounded = omega (arith, length-keep-le (in_window n cfg.window_ms) z, s.bounded);
  })
  | inr b ↦ rw (b) (record { recent = omega arith; kept = tt; bounded = omega arith })
]

pub added-Sound :
    (cfg : RateLimitConfig) (n : ℕ) (member : Bytes) (z : ZSet)
    → Sound cfg n z (n + cfg.window_ms)
    → length z < cfg.per_ip
    → Sound cfg n (z_add member n z) (n + cfg.window_ms)
added-Sound cfg n member z s l = record {
  recent = omega arith;
  kept = All-z_add (λ x. x.1 + cfg.window_ms ≤ n + cfg.window_ms) member n z (omega arith) s.kept;
  bounded = omega (arith, length-z_add-le member n z);
}

pub bounded_alive :
    (cfg : RateLimitConfig) (now t : ℕ) (key : Option (ZSet × ℕ))
    → SoundKey cfg now key
    → alive t cfg.window_ms key ≤ cfg.per_ip
bounded_alive cfg now t none s = omega arith
bounded_alive cfg now t (some (z, e)) s =
    omega (arith, length-keep-le (in_window t cfg.window_ms) z, s.bounded)

pub later-SoundKey :
    (cfg : RateLimitConfig) (now n : ℕ) (key : Option (ZSet × ℕ))
    → now ≤ n
    → SoundKey cfg now key
    → SoundKey cfg n key
later-SoundKey cfg now n none h s = tt
later-SoundKey cfg now n (some (z, e)) h s = record {
  recent = omega (arith, s.recent);
  kept = s.kept;
  bounded = s.bounded;
}

pub left-alive :
    (cfg : RateLimitConfig) (now n t : ℕ) (key : Option (ZSet × ℕ)) (e : ℕ)
    → SoundKey cfg now key
    → n ≤ t
    → alive t cfg.window_ms (some (left cfg n key, e)) ≡ alive t cfg.window_ms key
unfolding left
left-alive cfg now n t key e s h =
    (ap length (keep-in_window n t cfg.window_ms (live n key) h) ∙ alive-live cfg now n t key s h)

pub added-alive :
    (cfg : RateLimitConfig) (now n t : ℕ) (member : Bytes) (key : Option (ZSet × ℕ)) (e : ℕ)
    → SoundKey cfg now key
    → n ≤ t
    → has member (left cfg n key) ≡ false
    → alive t cfg.window_ms (some (z_add member n (left cfg n key), e))
      ≡ alive t cfg.window_ms key + (if ltb t (n + cfg.window_ms) then 1 else 0)
added-alive cfg now n t member key e s h new =
    (z_add-new (in_window t cfg.window_ms) member n (left cfg n key) new)
    ∙ ap (λ k. k + (if ltb t (n + cfg.window_ms) then 1 else 0)) (left-alive cfg now n t key e s h)
