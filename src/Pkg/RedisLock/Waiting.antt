-- ===== src/Pkg/RedisLock/Waiting.antt =====
-- What a waiting caller gets.
use zhiguang_go.Base.{
  ℕ, ◌+◌, ◌≡◌, refl, sym, ap, subst, Bool, true, false, Option, none, some, List, [], ◌∷◌, Bytes,
}
use mathlib.Core.Path.{Path}
use zhiguang_go.Pkg.RedisLock.{
  Options, normalized, Key, owner, duration, Lock, Tried, locked, busy, err, set_if_free,
  try_acquire, Acquired, acquired, failed, cancelled, waiting, Round, after_try, acquire_with_retry,
}

lock_of : Lock → Tried → Lock
lock_of other (locked lock) = lock
lock_of other busy = other
lock_of other err = other

set_if_free-locked :
    (expires : ℕ) (token : Bytes) (opts : Options) (o : Option Bytes) (key : Key) (lock : Lock)
    → (set_if_free expires token opts o key).0 ≡ locked lock
    → (o ≡ none)
      × ((set_if_free expires token opts o key).1 ≡ some (lock.token, expires))
      × (lock.options ≡ opts)
unfolding set_if_free lock_of
set_if_free-locked expires token opts none key lock h =
    let same : Path Lock (record { token = token; options = opts }) lock = ap (lock_of lock) h in
    (refl, ap (λ l. some (l.token, expires)) same, sym (ap (λ l. l.options) same))
set_if_free-locked expires token opts (some t) key lock h = cc

acquired_of : Lock → Acquired → Lock
acquired_of other (acquired lock) = lock
acquired_of other failed = other
acquired_of other cancelled = other
acquired_of other waiting = other

module _ (kept : ℕ → ℕ) where
  -- The key of a caller that tries it with the given options at the given time.
  pub Holds : Options → Lock → Key → Type 0
  Holds options lock key =
      (now : ℕ) × (key ≡ some (lock.token, now + kept (duration (normalized options).ttl)))
      × (lock.options ≡ normalized options)

  try-acquired :
      (fails : Bool) (now : ℕ) (token : Bytes) (options : Options) (key : Key) (lock : Lock)
      → (try_acquire kept fails now token options key).0 ≡ locked lock
      → Holds options lock (try_acquire kept fails now token options key).1
  unfolding try_acquire Holds
  try-acquired true now token options key lock h = cc
  try-acquired false now token options key lock h =
      let (free, held, same) =
        set_if_free-locked _ token (normalized options) (owner now key) key lock h in
      (now, held, same)

  after_try-acquired :
      (options : Options) (t : Tried × Key) (ends : Bool) (next : Key → Acquired × Key)
      (lock : Lock)
      → ((l : Lock) → t.0 ≡ locked l → Holds options l t.1)
      → ((key : Key) → (next key).0 ≡ acquired lock → Holds options lock (next key).1)
      → (after_try t ends next).0 ≡ acquired lock
      → Holds options lock (after_try t ends next).1
  unfolding after_try acquired_of
  after_try-acquired options (locked l, key) ends next lock h k e =
      subst (λ x. Holds options x key) (ap (acquired_of lock) e) (h l refl)
  after_try-acquired options (busy, key) true next lock h k e = cc
  after_try-acquired options (busy, key) false next lock h k e = k key e
  after_try-acquired options (err, key) ends next lock h k e = cc

  -- A caller that gets the lock, in whatever round, holds the key with its token, from that round's time
  -- and for the normalized TTL.
  pub acquire_with_retry-Holds :
      (options : Options) (rounds : List Round) (key : Key) (lock : Lock)
      → (acquire_with_retry kept options rounds key).0 ≡ acquired lock
      → Holds options lock (acquire_with_retry kept options rounds key).1
  unfolding acquire_with_retry
  acquire_with_retry-Holds options [] key lock h = cc
  acquire_with_retry-Holds options (r ∷ rs) key lock h =
      after_try-acquired options _ r.cancelled (acquire_with_retry kept options rs) lock
        (λ l e. try-acquired r.fails r.now r.token options (r.others key) l e)
        (λ k e. acquire_with_retry-Holds options rs k lock e) h
