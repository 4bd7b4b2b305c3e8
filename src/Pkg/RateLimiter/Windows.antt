-- ===== src/Pkg/RateLimiter/Windows.antt =====
-- No window holds more than the permitted number of requests.
use zhiguang_go.Base.{
  ℕ, suc, ◌+◌, ◌≤◌, ◌<◌, ◌≡◌, refl, sym, ap, ◌∙◌, subst, inl, inr, Bool, true, false, not, ◌&&◌,
  Option, none, some, List, [], ◌∷◌, arith, ltb, leb, if◌then◌else◌, Bool-cases, length, All, Bytes,
  bytes_eq,
}
use zhiguang_go.Pkg.RateLimiter.{
  RateLimitConfig, ZSet, Redis, is_banned, in_window, z_add, rate_limit_script, Answer, passed,
  rejected, Faults, ban, after_script, handle_request,
}
use zhiguang_go.Pkg.RateLimiter.Members.{has, has-keep, has-z_add}
use zhiguang_go.Pkg.RateLimiter.Keys.{
  SoundKey, alive, left, left-Sound, added-Sound, bounded_alive, later-SoundKey, left-alive,
  added-alive,
}

pub record Request : Type 0 where
  pub time : ℕ
  pub member : Bytes
  pub exists_fails : Bool
  pub set_fails : Bool

abbrev faults_of : Request → Faults
faults_of q = record { exists = q.exists_fails; script = false; set = q.set_fails }

abbrev is_passed : Answer → Bool
is_passed (passed remaining) = true
is_passed rejected = false

-- The times of the requests that are passed on, of requests one after another.
pub passed_times : RateLimitConfig → List Request → Redis → List ℕ
passed_times cfg [] r = []
passed_times cfg (q ∷ qs) r =
    let (answer, r') = handle_request (faults_of q) cfg q.time q.member r in
    let rest = passed_times cfg qs r' in if is_passed answer then q.time ∷ rest else rest

-- the number of times in the window that ends at t
pub in_window_at : ℕ → ℕ → List ℕ → ℕ
in_window_at t window_ms [] = 0
in_window_at t window_ms (u ∷ us) =
    let rest = in_window_at t window_ms us in
    if leb u t && ltb t (u + window_ms) then suc rest else rest

-- What a request does to the key.
data Step (cfg : RateLimitConfig) (q : Request) (r : Redis) (x : Answer × Redis) : Type 0 where
  refused : is_passed x.0 ≡ false → x.1.window ≡ r.window → Step cfg q r x
  trimmed :
      is_passed x.0 ≡ false
      → x.1.window ≡ some (left cfg q.time r.window, q.time + cfg.window_ms)
      → Step cfg q r x
  counted :
      is_passed x.0 ≡ true
      → length (left cfg q.time r.window) < cfg.per_ip
      → x.1.window ≡ some (z_add q.member q.time (left cfg q.time r.window), q.time + cfg.window_ms)
      → Step cfg q r x

ban-window :
    (b : Bool) (cfg : RateLimitConfig) (now : ℕ) (r : Redis) → (ban b cfg now r).window ≡ r.window
unfolding ban
ban-window b cfg now r = ground arith

handle_request-Step :
    (cfg : RateLimitConfig) (q : Request) (r : Redis)
    → Step cfg q r (handle_request (faults_of q) cfg q.time q.member r)
unfolding handle_request
handle_request-Step cfg q r = elim (Bool-cases (not q.exists_fails && is_banned q.time r.ban)) [
  | inl b ↦ rw (b) (refused refl refl)
  | inr b ↦ rw (b) (script-Step _ refl)
]
  where
    script-Step :
        (b : Bool)
        → leb cfg.per_ip (length (left cfg q.time r.window)) ≡ b
        → Step cfg q r (
            after_script
              (faults_of q)
              cfg
              q.time
              r
              (rate_limit_script cfg q.time q.member r.window))
    script-Step true e =
        unfold after_script in
        unfold rate_limit_script in
        unfold left in rw (e) (trimmed refl (ban-window q.set_fails cfg q.time _))
    script-Step false e =
        unfold after_script in
        unfold rate_limit_script in unfold left in rw (e) (counted refl (ground arith) refl)

-- the times do not fall, from the given time on
abbrev pub Ascends : ℕ → List Request → Type 0
Ascends now [] = Unit
Ascends now (q ∷ qs) = (now ≤ q.time) × Ascends q.time qs

-- each request brings a member that no earlier one had, and that is not among the given ones
abbrev pub BringsNew : List Bytes → List Request → Type 0
BringsNew used [] = Unit
BringsNew used (q ∷ qs) =
    All (λ m. bytes_eq m q.member ≡ false) used × BringsNew (q.member ∷ used) qs

-- the members of the key are among the given ones
abbrev Covers : List Bytes → ZSet → Type 0
Covers used z = (m : Bytes) → All (λ u. bytes_eq u m ≡ false) used → has m z ≡ false

none_before :
    (cfg : RateLimitConfig) (qs : List Request) (now t : ℕ) (r : Redis)
    → Ascends now qs
    → t < now
    → in_window_at t cfg.window_ms (passed_times cfg qs r) ≡ 0
unfolding in_window_at passed_times
none_before cfg [] now t r a h = refl
none_before cfg (q ∷ qs) now t r (l, a) h =
    let rest =
      none_before cfg qs q.time t (handle_request (faults_of q) cfg q.time q.member r).1 a
        (omega arith) in
    ground (arith, rest)

abbrev set_of : Option (ZSet × ℕ) → ZSet
set_of none = []
set_of (some (z, expires)) = z

left-Covers :
    (cfg : RateLimitConfig) (n : ℕ) (used : List Bytes) (key : Option (ZSet × ℕ))
    → Covers used (set_of key)
    → Covers used (left cfg n key)
unfolding left
left-Covers cfg n used none h = h
left-Covers cfg n used (some (z, e)) h = λ m k. elim (Bool-cases (ltb n e)) [
  | inl b ↦ rw (b) (has-keep (in_window n cfg.window_ms) m z (h m k))
  | inr b ↦ rw (b) (unfold has in refl)
]

Covers-more :
    (member : Bytes) (used : List Bytes) (z : ZSet) → Covers used z → Covers (member ∷ used) z
Covers-more member used z h = λ m k. h m k.1

Covers-added :
    (member : Bytes) (score : ℕ) (used : List Bytes) (z : ZSet)
    → Covers used z
    → Covers (member ∷ used) (z_add member score z)
Covers-added member score used z h = λ m k. has-z_add member m score z k.0 (h m k.1)

-- the passed requests of a window, with those that the key still holds, are within the limit
windowed :
    (cfg : RateLimitConfig) (qs : List Request) (now t : ℕ) (used : List Bytes) (r : Redis)
    → SoundKey cfg now r.window
    → Covers used (set_of r.window)
    → Ascends now qs
    → BringsNew used qs
    → in_window_at t cfg.window_ms (passed_times cfg qs r) + alive t cfg.window_ms r.window
      ≤ cfg.per_ip
unfolding passed_times in_window_at
windowed cfg [] now t used r s c a b = omega (arith, bounded_alive cfg now t r.window s)
windowed cfg (q ∷ qs) now t used r s c (l, a) (b, bs) =
    let r' = (handle_request (faults_of q) cfg q.time q.member r).1 in
    let go = windowed cfg qs q.time t (q.member ∷ used) r' in
    elim (Bool-cases (ltb t q.time)) [
      | inl early ↦
          let none_yet = none_before cfg (q ∷ qs) q.time t r (omega arith, a) (ground arith) in
          omega (arith, none_yet, bounded_alive cfg now t r.window s)
      | inr e ↦
          let at_q : q.time ≤ t = ground arith in
          elim (handle_request-Step cfg q r) [
            | refused n k ↦
                let sound =
                  subst (SoundKey cfg q.time) (sym k)
                    (later-SoundKey cfg now q.time r.window l s) in
                let covers =
                  subst (λ w. Covers (q.member ∷ used) (set_of w)) (sym k)
                    (Covers-more q.member used _ c) in
                let same = ap (alive t cfg.window_ms) k in
                let rest = go sound covers a bs in rw (n) (omega arith)
            | trimmed n k ↦
                let sound =
                  subst (SoundKey cfg q.time) (sym k) (left-Sound cfg now q.time r.window s l) in
                let covers =
                  subst (λ w. Covers (q.member ∷ used) (set_of w)) (sym k)
                    (Covers-more q.member used _ (left-Covers cfg q.time used r.window c)) in
                let same =
                  ap (alive t cfg.window_ms) k
                  ∙ left-alive cfg now q.time t r.window (q.time + cfg.window_ms) s at_q in
                let rest = go sound covers a bs in rw (n) (omega arith)
            | counted y h k ↦
                let sound =
                  subst (SoundKey cfg q.time) (sym k) (
                    added-Sound cfg q.time q.member _ (left-Sound cfg now q.time r.window s l) h) in
                let covers =
                  subst (λ w. Covers (q.member ∷ used) (set_of w)) (sym k)
                    (Covers-added q.member q.time used _
                      (left-Covers cfg q.time used r.window c)) in
                let same =
                  ap (alive t cfg.window_ms) k
                  ∙ added-alive cfg now q.time t q.member r.window (q.time + cfg.window_ms) s at_q
                      (left-Covers cfg q.time used r.window c q.member b) in
                let rest = go sound covers a bs in rw (y) (ground arith)
          ]
    ]

-- Whenever the window is looked at, at most the permitted number of requests was passed on within the
-- last window's length: of requests in the order of time, each with a member of its own, where the
-- script does not fail and other calls may.
pub passed_times-le :
    (cfg : RateLimitConfig) (qs : List Request) (t : ℕ) (r : Redis)
    → r.window ≡ none
    → Ascends 0 qs
    → BringsNew [] qs
    → in_window_at t cfg.window_ms (passed_times cfg qs r) ≤ cfg.per_ip
unfolding has
passed_times-le cfg qs t r e a b =
    let sound = subst (SoundKey cfg 0) (sym e) tt in
    let covers = subst (λ w. Covers [] (set_of w)) (sym e) (λ m h. refl) in
    omega (arith, windowed cfg qs 0 t [] r sound covers a b)
