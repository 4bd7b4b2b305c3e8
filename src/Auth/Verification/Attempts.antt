-- ===== src/Auth/Verification/Attempts.antt =====
-- The limit on attempts, and that a code is used once.
use zhiguang_go.Base.{
  All, subst, bytes_eq_ne, bytes_eq_refl, codes, ◌≡◌, ℕ, ◌<◌, refl, sym, ap, ◌∙◌, ◌≢◌, inl, inr,
  Bool, true, false, Option, none, some, [], ◌∷◌, arith, leb, Bool-cases, if◌then◌else◌, suc, Bytes,
  bytes_eq, bytes_eq_iff,
}
use zhiguang_go.Base.Decimal.{IsDigit, format_uint-IsDigit, format_uint}
use zhiguang_go.Base.Int.{negsuc}
use zhiguang_go.Auth.Verification.{
  List, pos, ℤ, Redis, live, count_of, VerificationConfig, Value, integer, bulk, verify_and_count,
  Status, success, not_found, too_many_attempts, mismatch, VerifyFaults, string_slice, settle,
  reply_of, verify, check_reply, cons, text_of, clean_up,
}

-- The client gives strings as they are.
abbrev pub KeepsStrings : (Value → Option Bytes) → Type 0
KeepsStrings to_string = (s : Bytes) → to_string (bulk s) ≡ some s

-- A call of Verify: the failures of its calls, the time and the input.
pub record Guess : Type 0 where
  pub faults : VerifyFaults
  pub time : ℕ
  pub input : Bytes

-- the input was compared with the code
abbrev pub compared : Status → Bool
compared success = true
compared not_found = false
compared too_many_attempts = false
compared mismatch = true

succeeded : Status → Bool
succeeded success = true
succeeded not_found = false
succeeded too_many_attempts = false
succeeded mismatch = false

not_succeeded : (s : Status) → s ≢ success → succeeded s ≡ false
unfolding succeeded
not_succeeded success h = absurd (h refl)
not_succeeded not_found h = refl
not_succeeded too_many_attempts h = refl
not_succeeded mismatch h = refl

answer : Option Bytes → Bytes → Bytes → Status
unfolding check_reply
answer none input c = not_found
answer (some n) input c = check_reply input (some (n ∷ c ∷ []))

answer-empty : (input : Bytes) (o : Option Bytes) → compared (answer o input []) ≡ false
unfolding answer check_reply bytes_eq
answer-empty input none = refl
answer-empty input (some n) = ground arith

answer-success :
    (input : Bytes) (o code : Option Bytes)
    → answer o input (text_of code) ≡ success
    → code ≡ some input
unfolding answer check_reply text_of bytes_eq
answer-success input none code h = cc
answer-success input (some n) none h = ground arith
answer-success input (some n) (some c) h = ground (arith, bytes_eq_iff c input)

module _ (to_string : Value → Option Bytes) where
  -- how many of the calls of Verify, one after another, succeed
  pub successes : VerificationConfig → List Guess → Redis → ℕ
  successes cfg [] r = 0
  successes cfg (g ∷ gs) r =
      let (s, r') = verify to_string g.faults cfg g.time g.input r in
      let rest = successes cfg gs r' in if succeeded s then suc rest else rest

module _ (to_string : Value → Option Bytes) (keeps : KeepsStrings to_string) where
  reply_of-pair :
      (input c : Bytes) (v : Value) (o : Option Bytes)
      → to_string v ≡ o
      → reply_of to_string input (v ∷ bulk c ∷ []) ≡ answer o input c
  unfolding reply_of check_reply string_slice cons answer
  reply_of-pair input c v none e =
      ap (λ p. check_reply input (cons p (string_slice to_string (bulk c ∷ [])))) e
  reply_of-pair input c v (some n) e =
      ap (λ p. check_reply input (cons p (string_slice to_string (bulk c ∷ [])))) e
      ∙ ap (λ p. check_reply input (cons (some n) (cons p (some [])))) (keeps c)

  reply_of-answer :
      (input c : Bytes) (v : Value)
      → reply_of to_string input (v ∷ bulk c ∷ []) ≡ answer (to_string v) input c
  reply_of-answer input c v = reply_of-pair input c v (to_string v) refl

  pub reply_of-empty :
      (input : Bytes) (v : Value) → compared (reply_of to_string input (v ∷ bulk [] ∷ [])) ≡ false
  reply_of-empty input v =
      ap compared (reply_of-answer input [] v) ∙ answer-empty input (to_string v)

  script-accepts :
      (cfg : VerificationConfig) (now : ℕ) (input : Bytes) (r : Redis)
      → reply_of to_string input ((verify_and_count cfg now r).0) ≡ success
      → (live now r.code ≡ some input) × (count_of (live now r.attempts) < cfg.max_attempts)
  unfolding verify_and_count
  script-accepts cfg now input r =
      elim (Bool-cases (leb cfg.max_attempts (count_of (live now r.attempts)))) [
        | inl e ↦ rw (e) (λ h.
            let k =
              answer-success input (to_string (integer (negsuc 0))) none
                (sym (reply_of-answer input [] (integer (negsuc 0))) ∙ h) in
            cc)
        | inr e ↦ rw (e) (λ h. (
          answer-success input (to_string _) (live now r.code)
              (sym (reply_of-answer input _ _) ∙ h),
          ground arith,
        ))
      ]

  -- Verify succeeds only on the code that Redis still holds, and only while the attempts have not
  -- reached the maximum, whatever the client makes of the number in the reply.
  pub verify-accepts :
      (faults : VerifyFaults) (cfg : VerificationConfig) (now : ℕ) (input : Bytes) (r : Redis)
      → (verify to_string faults cfg now input r).0 ≡ success
      → (live now r.code ≡ some input) × (count_of (live now r.attempts) < cfg.max_attempts)
  unfolding verify settle
  verify-accepts faults cfg now input r h = ground (arith, script-accepts cfg now input r)

  verify-spent :
      (faults : VerifyFaults) (cfg : VerificationConfig) (now : ℕ) (input : Bytes) (r : Redis)
      → faults.del ≡ false
      → (verify to_string faults cfg now input r).0 ≡ success
      → ((verify to_string faults cfg now input r).1).code ≡ none
  unfolding verify settle clean_up
  verify-spent faults cfg now input r e h = ground arith

  counted-keeps_none :
      (cfg : VerificationConfig) (now : ℕ) (r : Redis)
      → r.code ≡ none
      → (verify_and_count cfg now r).1.code ≡ none
  unfolding verify_and_count
  counted-keeps_none cfg now r h = ground arith

  settle-keeps_none :
      (del_fails : Bool) (s : Status) (r : Redis)
      → r.code ≡ none
      → (settle del_fails s r).1.code ≡ none
  unfolding settle clean_up
  settle-keeps_none true success r h = h
  settle-keeps_none false success r h = refl
  settle-keeps_none d not_found r h = h
  settle-keeps_none d too_many_attempts r h = h
  settle-keeps_none d mismatch r h = h

  verify-keeps_none :
      (faults : VerifyFaults) (cfg : VerificationConfig) (now : ℕ) (input : Bytes) (r : Redis)
      → r.code ≡ none
      → (verify to_string faults cfg now input r).1.code ≡ none
  unfolding verify
  verify-keeps_none faults cfg now input r h =
      let (vs, r') = verify_and_count cfg now r in
      let counted = counted-keeps_none cfg now r h in
      let settled = settle-keeps_none faults.del (reply_of to_string input vs) r' counted in
      ground arith

  none_succeeds :
      (cfg : VerificationConfig) (gs : List Guess) (r : Redis)
      → r.code ≡ none
      → successes to_string cfg gs r ≡ 0
  unfolding successes
  none_succeeds cfg [] r h = refl
  none_succeeds cfg (g ∷ gs) r h =
      let refused : (verify to_string g.faults cfg g.time g.input r).0 ≢ success = λ k.
        let held = (verify-accepts g.faults cfg g.time g.input r k).0 in
        let gone = ap (live g.time) h in cc in
      rw
        (
          not_succeeded (verify to_string g.faults cfg g.time g.input r).0 refused,
          none_succeeds cfg gs (verify to_string g.faults cfg g.time g.input r).1
              (verify-keeps_none g.faults cfg g.time g.input r h),
        )
        refl

  -- A code whose use succeeded, and whose deletion did not fail, is gone: of the calls of Verify that
  -- follow, however many, at any times, with any inputs and failures, none succeeds as long as no
  -- new code is sent.
  pub verify-used :
      (faults : VerifyFaults) (cfg : VerificationConfig) (now : ℕ) (input : Bytes) (r : Redis)
      (later : List Guess)
      → faults.del ≡ false
      → (verify to_string faults cfg now input r).0 ≡ success
      → successes to_string cfg later (verify to_string faults cfg now input r).1 ≡ 0
  verify-used faults cfg now input r later e h =
      none_succeeds cfg later _ (verify-spent faults cfg now input r e h)

not_minus_one : (n : ℕ) → bytes_eq (format_uint n) (codes "-1") ≡ false
not_minus_one n =
    bytes_eq_ne (format_uint n) (codes "-1")
      (λ h. let d = (subst (All IsDigit) h (format_uint-IsDigit n)).0 in ground arith)

refused_reply :
    (to_string : Value → Option Bytes) (input : Bytes) (n : ℤ) (vs : List Value)
    → to_string (integer n) ≡ none
    → reply_of to_string input (integer n ∷ vs) ≡ not_found
unfolding reply_of check_reply string_slice cons
refused_reply to_string input n vs e =
    ap (λ p. check_reply input (cons p (string_slice to_string vs))) e

refused_script :
    (to_string : Value → Option Bytes)
    → ((n : ℤ) → to_string (integer n) ≡ none)
    → (cfg : VerificationConfig) (now : ℕ) (input : Bytes) (r : Redis) (b : Bool)
    → leb cfg.max_attempts (count_of (live now r.attempts)) ≡ b
    → reply_of to_string input ((verify_and_count cfg now r).0) ≡ not_found
unfolding verify_and_count
refused_script to_string refuses cfg now input r true e =
    rw (e) (refused_reply to_string input _ _ (refuses _))
refused_script to_string refuses cfg now input r false e =
    rw (e) (refused_reply to_string input _ _ (refuses _))

cleaned :
    (cfg : VerificationConfig) (now : ℕ) (r : Redis)
    → leb cfg.max_attempts (count_of (live now r.attempts)) ≡ false
    → settle false success ((verify_and_count cfg now r).1)
      ≡ (success, record r { code = none; attempts = none })
unfolding settle clean_up verify_and_count
cleaned cfg now r e = rw (e)

right_answer :
    (n : ℕ) (input : Bytes) → input ≢ [] → answer (some (format_uint n)) input input ≡ success
unfolding answer check_reply
right_answer n input ne = rw (not_minus_one n, bytes_eq_ne input [] ne, bytes_eq_refl input)

-- Where the client refuses to give a number as a string, no input is ever accepted: Verify does not
-- succeed even on the code that Redis holds.
pub verify_numbers_refused :
    (to_string : Value → Option Bytes)
    → ((n : ℤ) → to_string (integer n) ≡ none)
    → (faults : VerifyFaults) (cfg : VerificationConfig) (now : ℕ) (input : Bytes) (r : Redis)
    → (verify to_string faults cfg now input r).0 ≢ success
unfolding verify settle
verify_numbers_refused to_string refuses faults cfg now input r h =
    let nf = refused_script to_string refuses cfg now input r _ refl in ground arith

-- Where the client gives a number as its digits, the code that Redis holds is accepted while the
-- attempts are below the maximum, and is then removed with the attempts.
pub verify-right :
    (to_string : Value → Option Bytes)
    → KeepsStrings to_string
    → ((n : ℕ) → to_string (integer (pos n)) ≡ some (format_uint n))
    → (cfg : VerificationConfig) (now : ℕ) (input : Bytes) (r : Redis)
    → live now r.code ≡ some input
    → input ≢ []
    → count_of (live now r.attempts) < cfg.max_attempts
    → verify to_string (record { lock = false; script = false; del = false }) cfg now input r
      ≡ (success, record r { code = none; attempts = none })
unfolding verify settle clean_up verify_and_count text_of
verify-right to_string keeps renders cfg now input r h ne l =
    let allowed : leb cfg.max_attempts (count_of (live now r.attempts)) ≡ false = ground arith in
    let reply : reply_of to_string input ((verify_and_count cfg now r).0) ≡ success =
      rw (allowed, h)
        (reply_of-answer to_string keeps input input _
          ∙ rw (renders _) (right_answer _ input ne)) in
    rw (reply) (cleaned cfg now r allowed)
