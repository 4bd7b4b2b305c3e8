-- ===== src/Auth/Verification.antt =====
-- internal/auth/verification.go and verification_lua.go: the codes of one scene and identifier. Times
-- are in milliseconds; a key is kept with the time at which it expires. The calendar day, the random
-- digits and the failures of Redis are arguments; how the Redis client turns a value of a reply into a
-- string (StringSlice) is a parameter.

pub mod Attempts
pub mod Limit
pub mod Sending
use zhiguang_go.Base.{
  ℕ, zero, suc, ◌+◌, ◌*◌, ◌/◌, Bool, false, Option, none, some, List, [], ◌∷◌, ltb, leb, ◌==◌,
  if◌then◌else◌, Bytes, codes, bytes_eq,
}
use zhiguang_go.Base.Int.{ℤ, pos, negsuc}

-- What Redis holds for the scene and identifier: the code, the interval lock, the counts of the days,
-- and the attempts.
pub record Redis : Type 0 where
  pub code : Option (Bytes × ℕ)
  pub interval : Option ℕ
  pub daily : ℕ → Option (ℕ × ℕ)
  pub attempts : Option (ℕ × ℕ)

-- GET of a key that expires
abbrev pub live {ℓ} : {A : Type ℓ} → ℕ → Option (A × ℕ) → Option A
live now none = none
live now (some (a, expires)) = if ltb now expires then some a else none

-- EXISTS of the interval lock
abbrev pub is_live : ℕ → Option ℕ → Bool
is_live now none = false
is_live now (some expires) = ltb now expires

abbrev pub count_of : Option ℕ → ℕ
count_of none = 0
count_of (some n) = n

pub record VerificationConfig : Type 0 where
  pub code_length : ℕ
  pub ttl_ms : ℕ
  pub max_attempts : ℕ
  pub send_interval_ms : ℕ
  pub daily_limit : ℕ

-- int(TTL.Seconds())
abbrev pub ttl_seconds : VerificationConfig → ℕ
ttl_seconds cfg = cfg.ttl_ms / 1000

-- INCR, and EXPIRE where the value is 1
counted : ℕ → ℕ → Option (ℕ × ℕ) → Option ℕ → ℕ × Option (ℕ × ℕ)
counted now seconds key none = (1, some (1, now + seconds * 1000))
counted now seconds none (some n) = (n + 1, none)
counted now seconds (some (m, expires)) (some n) =
    (n + 1, some (n + 1, if n == 0 then now + seconds * 1000 else expires))

-- incrAndExpireScript
unfoldable pub incr_and_expire : ℕ → ℕ → Option (ℕ × ℕ) → ℕ × Option (ℕ × ℕ)
unfolding counted
incr_and_expire now seconds key = counted now seconds key (live now key)

-- generateCode, of the digits that the random source gives; a failing read gives 0
digit : Option ℕ → ℕ
digit none = 48
digit (some n) = 48 + n

unfoldable pub generate_code : ℕ → (ℕ → Option ℕ) → Bytes
unfolding digit
generate_code zero random = []
generate_code (suc n) random = digit (random 0) ∷ generate_code n (λ i. random (suc i))

pub data SendError : Type 0 where
  not_locked check_interval daily_count daily_limit_exceeded pipeline incr_daily : SendError

pub data SendResult : Type 0 where
  sent : ℕ → SendResult
  failed : SendError → SendResult

-- The calls of Redis that fail; a pipeline that fails has set the code and the interval lock or not.
pub record SendFaults : Type 0 where
  pub lock : Bool
  pub exists : Bool
  pub get : Bool
  pub exec : Option (Bool × Bool)
  pub incr : Bool
  pub del : Bool

set_code : VerificationConfig → ℕ → Bytes → Redis → Redis
set_code cfg now code r = record r { code = some (code, now + cfg.ttl_ms) }

set_interval : VerificationConfig → ℕ → Redis → Redis
set_interval cfg now r = record r { interval = some (now + cfg.send_interval_ms) }

-- the count of a day, and the attempts, after a code has been stored
count_sent : SendFaults → VerificationConfig → ℕ → ℕ → Redis → SendResult × Redis
unfolding incr_and_expire
count_sent faults cfg now day r =
    if faults.incr
    then (failed incr_daily, r)
    else let (n, key) = incr_and_expire now 86_400 (r.daily day) in
      (
        sent (ttl_seconds cfg),
        record r {
          daily = λ d. if day == d then key else r.daily d;
          attempts = if faults.del then r.attempts else none;
        },
      )

store_code :
    SendFaults
    → Option (Bool × Bool)
    → VerificationConfig
    → ℕ
    → ℕ
    → Bytes
    → Redis
    → SendResult × Redis
unfolding count_sent set_code set_interval
store_code faults none cfg now day code r =
    count_sent faults cfg now day (set_interval cfg now (set_code cfg now code r))
store_code faults (some (first, second)) cfg now day code r =
    let r1 = if first then set_code cfg now code r else r in
    (failed pipeline, if second then set_interval cfg now r1 else r1)

-- SendCode
unfoldable pub send_code :
    SendFaults → VerificationConfig → ℕ → ℕ → (ℕ → Option ℕ) → Redis → SendResult × Redis
unfolding store_code
send_code faults cfg now day random r =
    if faults.lock
    then (failed not_locked, r)
    else if faults.exists
    then (failed check_interval, r)
    else if is_live now r.interval
    then (sent (ttl_seconds cfg), r)
    else if faults.get
    then (failed daily_count, r)
    else if leb cfg.daily_limit (count_of (live now (r.daily day)))
    then (failed daily_limit_exceeded, r)
    else store_code faults faults.exec cfg now day (generate_code cfg.code_length random) r

-- A value of a script's reply
pub data Value : Type 0 where
  integer : ℤ → Value
  bulk : Bytes → Value

text_of : Option Bytes → Bytes
text_of none = []
text_of (some code) = code

-- verifyAndCountScript
unfoldable pub verify_and_count : VerificationConfig → ℕ → Redis → List Value × Redis
unfolding text_of incr_and_expire
verify_and_count cfg now r =
    if leb cfg.max_attempts (count_of (live now r.attempts))
    then (integer (negsuc 0) ∷ bulk [] ∷ [], r)
    else let (n, key) = incr_and_expire now (ttl_seconds cfg) r.attempts in
      (integer (pos n) ∷ bulk (text_of (live now r.code)) ∷ [], record r { attempts = key })

pub data Status : Type 0 where
  success not_found too_many_attempts mismatch : Status

pub record VerifyFaults : Type 0 where
  pub lock : Bool
  pub script : Bool
  pub del : Bool

cons : Option Bytes → Option (List Bytes) → Option (List Bytes)
cons none ss = none
cons (some s) none = none
cons (some s) (some ss) = some (s ∷ ss)

-- StringSlice
unfoldable pub string_slice : (Value → Option Bytes) → List Value → Option (List Bytes)
unfolding cons
string_slice to_string [] = some []
string_slice to_string (v ∷ vs) = cons (to_string v) (string_slice to_string vs)

-- what is read of the reply
check_reply : Bytes → Option (List Bytes) → Status
check_reply input none = not_found
check_reply input (some []) = too_many_attempts
check_reply input (some (n ∷ [])) = if bytes_eq n (codes "-1") then too_many_attempts else not_found
check_reply input (some (n ∷ code ∷ rest)) =
    if bytes_eq n (codes "-1")
    then too_many_attempts
    else if bytes_eq code []
    then not_found
    else if bytes_eq code input
    then success
    else mismatch

clean_up : Bool → Status → Redis → Redis
clean_up del_fails success r = if del_fails then r else record r { code = none; attempts = none }
clean_up del_fails not_found r = r
clean_up del_fails too_many_attempts r = r
clean_up del_fails mismatch r = r

pub settle : Bool → Status → Redis → Status × Redis
unfolding clean_up
settle del_fails status r = (status, clean_up del_fails status r)

pub reply_of : (Value → Option Bytes) → Bytes → List Value → Status
unfolding check_reply string_slice
reply_of to_string input vs = check_reply input (string_slice to_string vs)

module _ (to_string : Value → Option Bytes) where
  -- Verify
  unfoldable pub verify : VerifyFaults → VerificationConfig → ℕ → Bytes → Redis → Status × Redis
  unfolding verify_and_count settle reply_of
  verify faults cfg now input r =
      if faults.lock
      then (not_found, r)
      else if faults.script
      then (not_found, r)
      else let (vs, r') = verify_and_count cfg now r in
        settle faults.del (reply_of to_string input vs) r'
