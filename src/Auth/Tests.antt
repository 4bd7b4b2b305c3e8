-- ===== src/Auth/Tests.antt =====
-- The theorems on verification codes, for the code "11" and three attempts, and on refresh tokens.
use zhiguang_go.Base.{
  ltb, List, true, bytes_eq, ◌≤◌, ◌≡◌, refl, ap, false, Option, none, some, [], ◌∷◌, arith, Bytes,
  codes,
}
use zhiguang_go.Base.Decimal.{format_uint}
use zhiguang_go.Base.Int.{ℤ, pos, negsuc}
use zhiguang_go.Auth.Tokens.{Whitelist, token_key, Claims, is_token_valid, refreshed, refresh}
use zhiguang_go.Auth.Tokens.Rotation.{Step, refresh_with, uses, uses-once}
use zhiguang_go.Auth.Tokens.Renewal.{smooth_call, refresh-rotates}
use zhiguang_go.Auth.Verification.{
  Redis, VerificationConfig, Value, integer, bulk, success, VerifyFaults, verify, SendFaults,
}
use zhiguang_go.Auth.Verification.Attempts.{
  Guess, successes, KeepsStrings, verify-used, verify-right,
}
use zhiguang_go.Auth.Verification.Limit.{comparisons, comparisons-le-max}
use zhiguang_go.Auth.Verification.Sending.{Sending, new_codes, new_codes-le-limit}

abbrev config : VerificationConfig
config = record {
  code_length = 2;
  ttl_ms = 300_000;
  max_attempts = 3;
  send_interval_ms = 60_000;
  daily_limit = 5;
}

abbrev fresh : Redis
fresh = record { code = none; interval = none; daily = λ d. none; attempts = none }

abbrev waiting : Redis
waiting = record {
  code = some (codes "11", 300_000);
  interval = some 60_000;
  daily = λ d. some (1, 86_400_000);
  attempts = none;
}

abbrev working : VerifyFaults
working = record { lock = false; script = false; del = false }

abbrev sending : SendFaults
sending = record {
  lock = false;
  exists = false;
  get = false;
  exec = none;
  incr = false;
  del = false;
}

-- a client that gives a number as its digits
digits_of : ℤ → Option Bytes
digits_of (pos n) = some (format_uint n)
digits_of (negsuc n) = some (codes "-1")

to_string : Value → Option Bytes
unfolding digits_of
to_string (integer n) = digits_of n
to_string (bulk s) = some s

to_string-KeepsStrings : KeepsStrings to_string
unfolding to_string
to_string-KeepsStrings s = refl

-- a client that refuses to give a number as a string
refusing : Value → Option Bytes
refusing (integer n) = none
refusing (bulk s) = some s

accepted :
    verify to_string working config 1000 (codes "11") waiting
    ≡ (success, record waiting { code = none })
unfolding to_string
accepted =
    verify-right to_string to_string-KeepsStrings (λ n. refl) config 1000 (codes "11") waiting refl
      (λ h. cc) (ground arith)

abbrev again : Guess
again = record { faults = working; time = 2000; input = codes "11" }

verify-used_example :
    successes to_string config
      (again ∷ again ∷ [])
      (verify to_string working config 1000 (codes "11") waiting).1
    ≡ 0
verify-used_example =
    verify-used to_string to_string-KeepsStrings working config 1000 (codes "11") waiting
      (again ∷ again ∷ []) refl (ap (λ x. x.0) accepted)

abbrev guess : Guess
guess = record { faults = working; time = 1000; input = codes "12" }

comparisons-le-max_example :
    comparisons to_string config (guess ∷ guess ∷ guess ∷ guess ∷ []) waiting ≤ 3
comparisons-le-max_example =
    comparisons-le-max to_string to_string-KeepsStrings config 1000
      (guess ∷ guess ∷ guess ∷ guess ∷ []) waiting refl (ground arith)

abbrev send_once : Sending
send_once = record { faults = sending; time = 1000; random = λ i. some 1 }

new_codes-le-limit_example : new_codes config 20260101 (send_once ∷ send_once ∷ []) fresh ≤ 5
new_codes-le-limit_example =
    new_codes-le-limit config 20260101 0 (send_once ∷ send_once ∷ []) fresh refl (ground arith)

abbrev claims : Claims
claims = record { uid = 7; id = codes "a"; is_refresh = true }

validate : Bytes → Option Claims
validate token = some claims

abbrev whitelist : Whitelist
whitelist = λ k. some 1000

abbrev twice : List Step
twice =
    refresh_with (smooth_call 7 (codes "b") 0) (codes "t")
    ∷ refresh_with (smooth_call 7 (codes "c") 1) (codes "t")
    ∷ []

uses-once_example : uses validate 500 (codes "t") twice whitelist ≤ 1
unfolding validate token_key bytes_eq format_uint
uses-once_example =
    uses-once validate 500 (codes "t") claims twice whitelist refl (refl, (refl, tt))

refresh-rotates_example :
    ((refresh validate 500 (smooth_call 7 (codes "b") 0) (codes "t") whitelist).0
      ≡ refreshed 7 (codes "b"))
    × (is_token_valid false 9 7
          (codes "b")
          (refresh validate 500 (smooth_call 7 (codes "b") 0) (codes "t") whitelist).1
        ≡ ltb 9 500)
    × (is_token_valid false 9 7
          (codes "a")
          (refresh validate 500 (smooth_call 7 (codes "b") 0) (codes "t") whitelist).1
        ≡ false)
unfolding validate token_key bytes_eq is_token_valid format_uint
refresh-rotates_example =
    refresh-rotates validate 500 0 9 7 (codes "b") (codes "t") claims whitelist refl refl refl refl
