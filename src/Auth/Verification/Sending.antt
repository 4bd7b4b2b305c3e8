-- ===== src/Auth/Verification/Sending.antt =====
-- The limits on sending: the interval between codes and the number of codes in a day.
use zhiguang_go.Base.{
  lt→ltb, ℕ, suc, ◌+◌, ◌*◌, ◌≤◌, ◌<◌, ◌≡◌, refl, ap, ◌∙◌, ◌⊎◌, inl, inr, Bool, true, false, not,
  Option, none, some, List, [], ◌∷◌, arith, leb, if◌then◌else◌, Bool-cases, All, Bytes,
}
use Prim.Native.Nat.{min}
use zhiguang_go.Auth.Verification.{
  not_locked, check_interval, daily_count, SendError, Redis, live, is_live, count_of,
  VerificationConfig, ttl_seconds, incr_and_expire, counted, generate_code, SendFaults, SendResult,
  sent, failed, daily_limit_exceeded, send_code, store_code, count_sent, set_code, set_interval,
}

pub record Sending : Type 0 where
  pub faults : SendFaults
  pub time : ℕ
  pub random : ℕ → Option ℕ

send : VerificationConfig → ℕ → Sending → Redis → SendResult × Redis
unfolding send_code
send cfg day s r = send_code s.faults cfg s.time day s.random r

-- the call says that a code was sent, and no interval lock was running
abbrev is_new : Bool → SendResult → Bool
is_new running (sent seconds) = not running
is_new running (failed e) = false

-- the number of new codes of the calls of SendCode on one day
pub new_codes : VerificationConfig → ℕ → List Sending → Redis → ℕ
unfolding send
new_codes cfg day [] r = 0
new_codes cfg day (s ∷ ss) r =
    let (answer, r') = send cfg day s r in
    let rest = new_codes cfg day ss r' in
    if is_new (is_live s.time r.interval) answer then suc rest else rest

-- what a call leaves: no new code and the same count, or one more
Left : Redis → VerificationConfig → ℕ → ℕ → ℕ → Sending → SendResult × Redis → Type 0
Left r cfg day n expires s (answer, r') =
    ((is_new (is_live s.time r.interval) answer ≡ false) × (r'.daily day ≡ r.daily day))
    ⊎ ((n < cfg.daily_limit) × (r'.daily day ≡ some (suc n, expires)))

store_code-Left :
    (s : Sending) (e : Option (Bool × Bool)) (cfg : VerificationConfig) (day n expires : ℕ)
    (r : Redis) (code : Bytes)
    → n < cfg.daily_limit
    → (incr_and_expire s.time 86_400 (r.daily day)).1 ≡ some (suc n, expires)
    → Left r cfg day n expires s (store_code s.faults e cfg s.time day code r)
unfolding store_code count_sent set_code set_interval Left
store_code-Left s none cfg day n expires r code h k = elim (Bool-cases s.faults.incr) [
  | inl e ↦ rw (e) (inl (refl, refl))
  | inr e ↦ rw (e) (inr (h, ground (arith, k)))
]
store_code-Left s (some (true, true)) cfg day n expires r code h k = inl (refl, refl)
store_code-Left s (some (true, false)) cfg day n expires r code h k = inl (refl, refl)
store_code-Left s (some (false, true)) cfg day n expires r code h k = inl (refl, refl)
store_code-Left s (some (false, false)) cfg day n expires r code h k = inl (refl, refl)

failed-Left :
    (s : Sending) (cfg : VerificationConfig) (day n expires : ℕ) (r : Redis) (e : SendError)
    → Left r cfg day n expires s (failed e, r)
unfolding Left
failed-Left s cfg day n expires r e = inl (refl, refl)

running-Left :
    (s : Sending) (cfg : VerificationConfig) (day n expires seconds : ℕ) (r : Redis)
    → is_live s.time r.interval ≡ true
    → Left r cfg day n expires s (sent seconds, r)
unfolding Left
running-Left s cfg day n expires seconds r h = inl (ap not h, refl)

below : (limit n m : ℕ) → m ≡ n → leb limit m ≡ false → n < limit
below limit n m h k = ground arith

if-Left :
    (s : Sending) (cfg : VerificationConfig) (day n expires : ℕ) (r : Redis) (b : Bool)
    (x y : SendResult × Redis)
    → (b ≡ true → Left r cfg day n expires s x)
    → (b ≡ false → Left r cfg day n expires s y)
    → Left r cfg day n expires s (if b then x else y)
if-Left s cfg day n expires r true x y h k = h refl
if-Left s cfg day n expires r false x y h k = k refl

send-Left :
    (s : Sending) (cfg : VerificationConfig) (day n expires : ℕ) (r : Redis)
    → count_of (live s.time (r.daily day)) ≡ n
    → (incr_and_expire s.time 86_400 (r.daily day)).1 ≡ some (suc n, expires)
    → Left r cfg day n expires s (send cfg day s r)
unfolding send send_code
send-Left s cfg day n expires r c k =
    let when = if-Left s cfg day n expires r in
    let refused : (e : SendError) → Left r cfg day n expires s (failed e, r) =
      failed-Left s cfg day n expires r in
    let stored =
      store_code s.faults s.faults.exec cfg s.time day (generate_code cfg.code_length s.random) r in
    let counted =
      if leb cfg.daily_limit (count_of (live s.time (r.daily day)))
      then (failed daily_limit_exceeded, r)
      else stored in
    let read = if s.faults.get then (failed daily_count, r) else counted in
    let idle = if is_live s.time r.interval then (sent (ttl_seconds cfg), r) else read in
    let checked = if s.faults.exists then (failed check_interval, r) else idle in
    when s.faults.lock (failed not_locked, r) checked (λ a. refused not_locked)
      (λ a.
        when s.faults.exists (failed check_interval, r) idle (λ b. refused check_interval)
          (λ b.
            when (is_live s.time r.interval) (sent (ttl_seconds cfg), r) read
              (running-Left s cfg day n expires (ttl_seconds cfg) r)
              (λ d.
                when s.faults.get (failed daily_count, r) counted (λ e. refused daily_count)
                  (λ e.
                    when (leb cfg.daily_limit (count_of (live s.time (r.daily day))))
                      (failed daily_limit_exceeded, r) stored (λ f. refused daily_limit_exceeded)
                      (λ f.
                        store_code-Left s s.faults.exec cfg day n expires r
                          (generate_code cfg.code_length s.random)
                          (below cfg.daily_limit n (count_of (live s.time (r.daily day))) c f)
                          k)))))

incr-live :
    (now n expires : ℕ) (key : Option (ℕ × ℕ))
    → key ≡ some (suc n, expires)
    → now < expires
    → (incr_and_expire now 86_400 key).1 ≡ some (suc (suc n), expires)
unfolding incr_and_expire counted
incr-live now n expires key h l = rw (h, lt→ltb now expires l) (ground arith)

counted_codes :
    (cfg : VerificationConfig) (day n expires : ℕ) (ss : List Sending) (r : Redis)
    → r.daily day ≡ some (suc n, expires)
    → All (λ s. s.time < expires) ss
    → new_codes cfg day ss r + min (suc n) cfg.daily_limit ≤ cfg.daily_limit
unfolding new_codes Left
counted_codes cfg day n expires [] r h ls = omega arith
counted_codes cfg day n expires (s ∷ ss) r h (l, ls) =
    elim (send-Left s cfg day (suc n) expires r (rw (h, lt→ltb s.time expires l))
      (incr-live s.time n expires _ h l)) [
        | inl (e, k) ↦ rw (e) (counted_codes cfg day n expires ss ((send cfg day s r).1) (k ∙ h) ls)
        | inr (m, k) ↦
            let rest = counted_codes cfg day (suc n) expires ss ((send cfg day s r).1) k ls in
            ground (arith, rest)
      ]

abbrev pub Within : ℕ → Sending → Type 0
Within t s = (t ≤ s.time) × (s.time < t + 86_400_000)

before_expiry :
    (t u : ℕ) (ss : List Sending)
    → t ≤ u
    → All (Within t) ss
    → All (λ s. s.time < u + 86_400 * 1000) ss
before_expiry t u [] h ls = ls
before_expiry t u (s ∷ ss) h (l, ls) = (omega arith, before_expiry t u ss h ls)

-- On a day that has no count yet, at most the daily limit of calls of SendCode send a new code,
-- whatever fails.
pub new_codes-le-limit :
    (cfg : VerificationConfig) (day t : ℕ) (ss : List Sending) (r : Redis)
    → r.daily day ≡ none
    → All (Within t) ss
    → new_codes cfg day ss r ≤ cfg.daily_limit
unfolding new_codes Left incr_and_expire counted
new_codes-le-limit cfg day t [] r h ls = omega arith
new_codes-le-limit cfg day t (s ∷ ss) r h (l, ls) =
    elim (send-Left s cfg day 0 (s.time + 86_400 * 1000) r (rw (h)) (rw (h))) [
      | inl (e, k) ↦ rw (e) (new_codes-le-limit cfg day t ss ((send cfg day s r).1) (k ∙ h) ls)
      | inr (m, k) ↦
          let rest =
            counted_codes cfg day 0 _ ss ((send cfg day s r).1) k
              (before_expiry t s.time ss l.0 ls) in
          ground (arith, rest)
    ]

store_code-interval :
    (faults : SendFaults) (e : Option (Bool × Bool)) (cfg : VerificationConfig) (now day : ℕ)
    (code : Bytes) (r : Redis)
    → (store_code faults e cfg now day code r).0 ≡ sent (ttl_seconds cfg)
    → ((store_code faults e cfg now day code r).1).interval ≡ some (now + cfg.send_interval_ms)
unfolding store_code count_sent set_code set_interval
store_code-interval faults none cfg now day code r h = ground arith
store_code-interval faults (some (a, b)) cfg now day code r h = cc

new_interval :
    (faults : SendFaults) (cfg : VerificationConfig) (now day : ℕ) (random : ℕ → Option ℕ)
    (r : Redis)
    → is_live now r.interval ≡ false
    → (send_code faults cfg now day random r).0 ≡ sent (ttl_seconds cfg)
    → ((send_code faults cfg now day random r).1).interval ≡ some (now + cfg.send_interval_ms)
unfolding send_code
new_interval faults cfg now day random r h k = ground (
  arith,
  store_code-interval faults faults.exec cfg now day (generate_code cfg.code_length random) r,
)

running :
    (faults : SendFaults) (cfg : VerificationConfig) (t day expires : ℕ) (random : ℕ → Option ℕ)
    (r : Redis)
    → r.interval ≡ some expires
    → t < expires
    → faults.lock ≡ false
    → faults.exists ≡ false
    → send_code faults cfg t day random r ≡ (sent (ttl_seconds cfg), r)
unfolding send_code
running faults cfg t day expires random r h l e f = rw (h, lt→ltb t expires l, e, f)

-- Until the interval after a new code is over, another call answers the same and changes nothing, as
-- long as Redis does not fail.
pub send_code-interval :
    (faults later : SendFaults) (cfg : VerificationConfig) (now day t day' : ℕ)
    (random random' : ℕ → Option ℕ) (r : Redis)
    → is_live now r.interval ≡ false
    → (send_code faults cfg now day random r).0 ≡ sent (ttl_seconds cfg)
    → t < now + cfg.send_interval_ms
    → later.lock ≡ false
    → later.exists ≡ false
    → send_code later cfg t day' random' (send_code faults cfg now day random r).1
      ≡ (sent (ttl_seconds cfg), (send_code faults cfg now day random r).1)
send_code-interval faults later cfg now day t day' random random' r h k l e f =
    running later cfg t day' (now + cfg.send_interval_ms) random'
      ((send_code faults cfg now day random r).1) (new_interval faults cfg now day random r h k) l e
      f
