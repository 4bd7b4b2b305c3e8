-- ===== src/Auth/Verification/Limit.antt =====
-- How many inputs are compared with a code.
use zhiguang_go.Base.{
  lt→ltb, ℕ, suc, ◌+◌, ◌*◌, ◌≤◌, ◌<◌, ◌≡◌, refl, ◌⊎◌, inl, inr, Bool, true, false, Option, none,
  some, List, [], ◌∷◌, arith, leb, if◌then◌else◌, Bool-cases, All, Bytes,
}
use Prim.Native.Nat.{min}
use zhiguang_go.Auth.Verification.{
  Redis, live, count_of, VerificationConfig, ttl_seconds, incr_and_expire, Value, verify_and_count,
  Status, success, not_found, too_many_attempts, mismatch, settle, reply_of, verify, clean_up,
  counted, text_of,
}
use zhiguang_go.Auth.Verification.Attempts.{Guess, KeepsStrings, compared, reply_of-empty}

module _ (to_string : Value → Option Bytes) where
  guessed : VerificationConfig → Guess → Redis → Status × Redis
  unfolding verify
  guessed cfg g r = verify to_string g.faults cfg g.time g.input r

  -- the number of inputs that are compared, of calls of Verify one after another
  pub comparisons : VerificationConfig → List Guess → Redis → ℕ
  unfolding guessed
  comparisons cfg [] r = 0
  comparisons cfg (g ∷ gs) r =
      let (s, r') = guessed cfg g r in
      let rest = comparisons cfg gs r' in if compared s then suc rest else rest

-- what a call leaves: it compared nothing, or it was counted, or the code is gone
Left : Redis → VerificationConfig → ℕ → ℕ → Status × Redis → Type 0
Left r cfg n expires (s, r') =
    ((compared s ≡ false) × (r' ≡ r))
    ⊎ ((n < cfg.max_attempts) × ((r'.attempts ≡ some (suc n, expires)) ⊎ (r'.code ≡ none)))

settle-Left :
    (del_fails : Bool) (s : Status) (r r' : Redis) (cfg : VerificationConfig) (n expires : ℕ)
    → n < cfg.max_attempts
    → r'.attempts ≡ some (suc n, expires)
    → Left r cfg n expires (settle del_fails s r')
unfolding settle clean_up Left
settle-Left true success r r' cfg n expires h k = inr (h, inl k)
settle-Left false success r r' cfg n expires h k = inr (h, inr refl)
settle-Left d not_found r r' cfg n expires h k = inr (h, inl k)
settle-Left d too_many_attempts r r' cfg n expires h k = inr (h, inl k)
settle-Left d mismatch r r' cfg n expires h k = inr (h, inl k)

denied-Left :
    (del_fails : Bool) (s : Status) (r : Redis) (cfg : VerificationConfig) (n expires : ℕ)
    → compared s ≡ false
    → Left r cfg n expires (settle del_fails s r)
unfolding settle clean_up Left
denied-Left d success r cfg n expires h = cc
denied-Left d not_found r cfg n expires h = inl (h, refl)
denied-Left d too_many_attempts r cfg n expires h = inl (h, refl)
denied-Left d mismatch r cfg n expires h = cc

incr_and_expire-counted :
    (now seconds n expires : ℕ)
    → now < expires
    → incr_and_expire now seconds (some (suc n, expires))
      ≡ (suc (suc n), some (suc (suc n), expires))
unfolding incr_and_expire counted
incr_and_expire-counted now seconds n expires h = rw (lt→ltb now expires h) (ground arith)

module _ (to_string : Value → Option Bytes) (keeps : KeepsStrings to_string) where
  script-Left :
      (g : Guess) (cfg : VerificationConfig) (r : Redis) (n expires : ℕ) (b : Bool)
      → r.attempts ≡ some (suc n, expires)
      → g.time < expires
      → leb cfg.max_attempts (suc n) ≡ b
      → Left r cfg (suc n) expires (
          let (vs, r') = verify_and_count cfg g.time r in
          settle g.faults.del (reply_of to_string g.input vs) r')
  unfolding verify_and_count
  script-Left g cfg r n expires true h l e =
      rw (h, lt→ltb g.time expires l, e)
        (denied-Left g.faults.del _ _ cfg (suc n) expires
          (reply_of-empty to_string keeps g.input _))
  script-Left g cfg r n expires false h l e =
      rw (h, lt→ltb g.time expires l, e)
        (settle-Left g.faults.del _ _ _ cfg (suc n) expires (ground arith) (ground arith))

  nothing-Left :
      (r : Redis) (cfg : VerificationConfig) (n expires : ℕ) → Left r cfg n expires (not_found, r)
  unfolding Left
  nothing-Left r cfg n expires = inl (refl, refl)

  guessed-Left :
      (g : Guess) (cfg : VerificationConfig) (r : Redis) (n expires : ℕ)
      → r.attempts ≡ some (suc n, expires)
      → g.time < expires
      → Left r cfg (suc n) expires (guessed to_string cfg g r)
  unfolding guessed
  guessed-Left g cfg r n expires h l = elim (Bool-cases g.faults.lock) [
    | inl e ↦ rw (e) (nothing-Left r cfg (suc n) expires)
    | inr e ↦ rw (e) (elim (Bool-cases g.faults.script) [
      | inl k ↦ rw (k) (nothing-Left r cfg (suc n) expires)
      | inr k ↦ rw (k) (script-Left g cfg r n expires _ h l refl)
    ])
  ]

  -- without a code nothing is compared, and there is none afterwards
  abbrev Spent : Status × Redis → Type 0
  Spent (s, r) = (compared s ≡ false) × (r.code ≡ none)

  settle-Spent :
      (del_fails : Bool) (s : Status) (r : Redis)
      → compared s ≡ false
      → r.code ≡ none
      → Spent (settle del_fails s r)
  unfolding settle clean_up
  settle-Spent d success r h k = cc
  settle-Spent d not_found r h k = (h, k)
  settle-Spent d too_many_attempts r h k = (h, k)
  settle-Spent d mismatch r h k = cc

  script-Spent :
      (g : Guess) (cfg : VerificationConfig) (r : Redis) (b : Bool)
      → r.code ≡ none
      → leb cfg.max_attempts (count_of (live g.time r.attempts)) ≡ b
      → Spent (
          let (vs, r') = verify_and_count cfg g.time r in
          settle g.faults.del (reply_of to_string g.input vs) r')
  unfolding verify_and_count text_of
  script-Spent g cfg r true h e =
      rw (h, e) (settle-Spent g.faults.del _ _ (reply_of-empty to_string keeps g.input _) refl)
  script-Spent g cfg r false h e =
      rw (h, e) (settle-Spent g.faults.del _ _ (reply_of-empty to_string keeps g.input _) refl)

  guessed-Spent :
      (g : Guess) (cfg : VerificationConfig) (r : Redis)
      → r.code ≡ none
      → Spent (guessed to_string cfg g r)
  unfolding guessed
  guessed-Spent g cfg r h = elim (Bool-cases g.faults.lock) [
    | inl e ↦ rw (e) (refl, h)
    | inr e ↦ rw (e) (elim (Bool-cases g.faults.script) [
      | inl k ↦ rw (k) (refl, h)
      | inr k ↦ rw (k) (script-Spent g cfg r _ h refl)
    ])
  ]

  spent :
      (cfg : VerificationConfig) (gs : List Guess) (r : Redis)
      → r.code ≡ none
      → comparisons to_string cfg gs r ≡ 0
  unfolding comparisons
  spent cfg [] r h = refl
  spent cfg (g ∷ gs) r h = let both = guessed-Spent g cfg r h in rw (both.0) (spent cfg gs _ both.1)

  counted_comparisons :
      (cfg : VerificationConfig) (gs : List Guess) (r : Redis) (n expires : ℕ)
      → r.attempts ≡ some (suc n, expires)
      → All (λ g. g.time < expires) gs
      → comparisons to_string cfg gs r + min (suc n) cfg.max_attempts ≤ cfg.max_attempts
  unfolding comparisons Left
  counted_comparisons cfg [] r n expires h ls = omega arith
  counted_comparisons cfg (g ∷ gs) r n expires h (l, ls) =
      elim (guessed-Left g cfg r n expires h l) [
        | inl (e, k) ↦ rw (e, k) (counted_comparisons cfg gs r n expires h ls)
        | inr (m, inl k) ↦
            let rest =
              counted_comparisons cfg gs ((guessed to_string cfg g r).1) (suc n) expires k ls in
            ground (arith, rest)
        | inr (m, inr k) ↦
            let rest = spent cfg gs ((guessed to_string cfg g r).1) k in ground (arith, rest)
      ]

  script-first :
      (g : Guess) (cfg : VerificationConfig) (r : Redis) (b : Bool)
      → r.attempts ≡ none
      → leb cfg.max_attempts 0 ≡ b
      → Left r cfg 0 (g.time + ttl_seconds cfg * 1000) (
          let (vs, r') = verify_and_count cfg g.time r in
          settle g.faults.del (reply_of to_string g.input vs) r')
  unfolding verify_and_count incr_and_expire counted
  script-first g cfg r true h e =
      rw (h, e) (denied-Left g.faults.del _ _ cfg 0 _ (reply_of-empty to_string keeps g.input _))
  script-first g cfg r false h e =
      rw (h, e) (settle-Left g.faults.del _ _ _ cfg 0 _ (ground arith) refl)

  guessed-first :
      (g : Guess) (cfg : VerificationConfig) (r : Redis)
      → r.attempts ≡ none
      → Left r cfg 0 (g.time + ttl_seconds cfg * 1000) (guessed to_string cfg g r)
  unfolding guessed
  guessed-first g cfg r h = elim (Bool-cases g.faults.lock) [
    | inl e ↦ rw (e) (nothing-Left r cfg 0 _)
    | inr e ↦ rw (e) (elim (Bool-cases g.faults.script) [
      | inl k ↦ rw (k) (nothing-Left r cfg 0 _)
      | inr k ↦ rw (k) (script-first g cfg r _ h refl)
    ])
  ]

  abbrev pub Within : VerificationConfig → ℕ → Guess → Type 0
  Within cfg t g = (t ≤ g.time) × (g.time < t + ttl_seconds cfg * 1000)

  before_expiry :
      (cfg : VerificationConfig) (t u : ℕ) (gs : List Guess)
      → t ≤ u
      → All (Within cfg t) gs
      → All (λ g. g.time < u + ttl_seconds cfg * 1000) gs
  before_expiry cfg t u [] h ls = ls
  before_expiry cfg t u (g ∷ gs) h (l, ls) = (omega arith, before_expiry cfg t u gs h ls)

  -- Of the calls of Verify within the lifetime of a new code, at most the maximum of attempts compare an
  -- input with it, whatever fails.
  pub comparisons-le-max :
      (cfg : VerificationConfig) (t : ℕ) (gs : List Guess) (r : Redis)
      → r.attempts ≡ none
      → All (Within cfg t) gs
      → comparisons to_string cfg gs r ≤ cfg.max_attempts
  unfolding comparisons Left
  comparisons-le-max cfg t [] r h ls = omega arith
  comparisons-le-max cfg t (g ∷ gs) r h (l, ls) = elim (guessed-first g cfg r h) [
    | inl (e, k) ↦ rw (e, k) (comparisons-le-max cfg t gs r h ls)
    | inr (m, inl k) ↦
        let rest =
          counted_comparisons cfg gs ((guessed to_string cfg g r).1) 0 _ k
            (before_expiry cfg t g.time gs l.0 ls) in
        ground (arith, rest)
    | inr (m, inr k) ↦
        let rest = spent cfg gs ((guessed to_string cfg g r).1) k in ground (arith, rest)
  ]
