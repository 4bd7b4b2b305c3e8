-- ===== src/Pkg/RedisLock.antt =====
-- pkg/redislock/lock.go: the lock on one Redis key. Times and durations are in nanoseconds; the key is
-- kept with the time at which it expires. How long Redis keeps a key that the client sets with a
-- duration (SET NX with EX or PX) is a parameter.
pub mod Exclusion
pub mod Waiting
use zhiguang_go.Base.{
  ℕ, ◌+◌, ◌-◌, ◌*◌, ◌/◌, Bool, true, false, Option, none, some, List, [], ◌∷◌, ltb, ◌==◌,
  if◌then◌else◌, Bytes, bytes_eq,
}
use zhiguang_go.Base.Int.{ℤ, pos, negsuc, ltb_ℤ}

pub record Options : Type 0 where
  pub ttl : ℤ
  pub watchdog_interval : ℤ
  pub op_timeout : ℤ

or_else : ℤ → ℤ → ℤ
or_else d other = if ltb_ℤ (pos 0) d then d else other

third : ℤ → ℤ
third (pos n) = pos (n / 3)
third (negsuc n) = if ltb n 2 then pos 0 else negsuc ((n + 1) / 3 - 1)

-- normalized
unfoldable pub normalized : Options → Options
unfolding or_else third
normalized o =
    let ttl = or_else o.ttl (pos 5_000_000_000) in
    record {
      ttl = ttl;
      watchdog_interval = or_else o.watchdog_interval (third ttl);
      op_timeout = or_else o.op_timeout (pos 1_000_000_000);
    }

-- the key: the token that holds it, and when it expires
abbrev pub Key : Type 0
Key = Option (Bytes × ℕ)

abbrev pub owner : ℕ → Key → Option Bytes
owner now none = none
owner now (some (token, expires)) = if ltb now expires then some token else none

abbrev pub is_owner : Bytes → Option Bytes → Bool
is_owner token none = false
is_owner token (some t) = bytes_eq t token

-- releaseScript
unfoldable pub release_script : ℕ → Bytes → Key → ℕ × Key
release_script now token key = if is_owner token (owner now key) then (1, none) else (0, key)

-- renewScript
unfoldable pub renew_script : ℕ → Bytes → ℕ → Key → ℕ × Key
renew_script now token ms key =
    if is_owner token (owner now key) then (1, some (token, now + ms * 1_000_000)) else (0, key)

-- the duration of a normalized option
abbrev pub duration : ℤ → ℕ
duration (pos n) = n
duration (negsuc n) = 0

pub record Lock : Type 0 where
  pub token : Bytes
  pub options : Options

pub data Tried : Type 0 where
  locked : Lock → Tried
  busy err : Tried

pub set_if_free : ℕ → Bytes → Options → Option Bytes → Key → Tried × Key
set_if_free expires token opts none key =
    (locked (record { token = token; options = opts }), some (token, expires))
set_if_free expires token opts (some t) key = (busy, key)

-- Release; `fails` says that the script fails. A nil lock is `none`.
unfoldable pub release : Bool → ℕ → Option Lock → Key → Key
unfolding release_script
release fails now none key = key
release fails now (some lock) key = if fails then key else (release_script now lock.token key).1

-- renew: the renewal, or `none` where the script fails
unfoldable pub renew : Bool → ℕ → Lock → Key → Option Bool × Key
unfolding renew_script
renew fails now lock key =
    if fails
    then (none, key)
    else let (result, key') =
        renew_script now lock.token (duration lock.options.ttl / 1_000_000) key in
      (some (result == 1), key')

-- What a watchdog sees: it is stopped, or its ticker fires, before which others may have used the key.
pub data Event : Type 0 where
  stop : Event
  tick : Bool → ℕ → (Key → Key) → Event

pub data Ended : Type 0 where
  stopped lost running : Ended

after_renewal : Option Bool × Key → (Key → Ended × Key) → Ended × Key
after_renewal (none, key) next = next key
after_renewal (some true, key) next = next key
after_renewal (some false, key) next = (lost, key)

-- watchdog, over the events that it meets
unfoldable pub watchdog : Lock → List Event → Key → Ended × Key
unfolding after_renewal
watchdog lock [] key = (running, key)
watchdog lock (stop ∷ es) key = (stopped, key)
watchdog lock (tick fails now others ∷ es) key =
    after_renewal (renew fails now lock (others key)) (watchdog lock es)

-- One round of AcquireWithRetry: when it tries, with which token, whether Redis fails, what others did
-- before, and whether the context ends while it waits.
pub record Round : Type 0 where
  pub now : ℕ
  pub token : Bytes
  pub fails : Bool
  pub others : Key → Key
  pub cancelled : Bool

pub data Acquired : Type 0 where
  acquired : Lock → Acquired
  failed cancelled waiting : Acquired

after_try : Tried × Key → Bool → (Key → Acquired × Key) → Acquired × Key
after_try (locked lock, key) ends next = (acquired lock, key)
after_try (err, key) ends next = (failed, key)
after_try (busy, key) ends next = if ends then (cancelled, key) else next key

module _ (kept : ℕ → ℕ) where
  -- TryAcquire
  unfoldable pub try_acquire : Bool → ℕ → Bytes → Options → Key → Tried × Key
  unfolding set_if_free
  try_acquire fails now token options key =
      let opts = normalized options in
      if fails
      then (err, key)
      else set_if_free (now + kept (duration opts.ttl)) token opts (owner now key) key

  -- AcquireWithRetry, over the rounds that it makes
  unfoldable pub acquire_with_retry : Options → List Round → Key → Acquired × Key
  unfolding after_try
  acquire_with_retry options [] key = (waiting, key)
  acquire_with_retry options (r ∷ rs) key =
      after_try (try_acquire r.fails r.now r.token options (r.others key)) r.cancelled
        (acquire_with_retry options rs)
