-- ===== src/Pkg/RedisLock/Exclusion.antt =====
-- No two holders at a time: whoever acquires, renews and releases, in whatever order.
use zhiguang_go.Base.{
  lt→ltb, ℕ, ◌+◌, ◌*◌, ◌/◌, ◌≤◌, ◌<◌, ◌≡◌, refl, ap, ◌∙◌, inl, inr, Bool, true, false, Option, none,
  some, List, [], ◌∷◌, arith, ◌==◌, Bool-cases, Bytes, bytes_eq, update, bytes_eq_iff, update_lem,
}
use zhiguang_go.Pkg.RedisLock.{
  Options, normalized, Key, owner, is_owner, release_script, renew_script, duration, Lock, Tried,
  locked, busy, err, set_if_free, release, renew, try_acquire,
}

pub data Action : Type 0 where
  acquire_lock : Bool → ℕ → Bytes → Options → Action
  release_lock : Bool → ℕ → Lock → Action
  renew_lock : Bool → ℕ → Lock → Action

-- The key, and for each token the time to which its last acquisition or renewal keeps the key.
pub record System : Type 0 where
  pub key : Key
  pub lease : Bytes → ℕ

abbrev pub time : Action → ℕ
time (acquire_lock fails now token options) = now
time (release_lock fails now lock) = now
time (renew_lock fails now lock) = now

-- until when a key is kept
abbrev until : Key → ℕ
until none = 0
until (some (token, expires)) = expires

after_acquire : Bytes → System → Tried × Key → System
after_acquire token s (locked lock, key) = record {
  key = key;
  lease = update s.lease token (until key);
}
after_acquire token s (busy, key) = record s { key = key }
after_acquire token s (err, key) = record s { key = key }

after_renew : Bytes → System → Option Bool × Key → System
after_renew token s (some true, key) = record {
  key = key;
  lease = update s.lease token (until key);
}
after_renew token s (some false, key) = record s { key = key }
after_renew token s (none, key) = record s { key = key }

-- Each token has a lease that ends, or holds the key until its lease ends.
pub Exclusive : ℕ → System → Type 0
Exclusive now s = (token : Bytes) → now < s.lease token → s.key ≡ some (token, s.lease token)

later : (t now : ℕ) (s : System) → t ≤ now → Exclusive t s → Exclusive now s
unfolding Exclusive
later t now s h k token l = k token (omega arith)

module _ (kept : ℕ → ℕ) where
  act : Action → System → System
  unfolding after_acquire after_renew
  act (acquire_lock fails now token options) s =
      after_acquire token s (try_acquire kept fails now token options s.key)
  act (release_lock fails now lock) s = record {
    key = release fails now (some lock) s.key;
    lease = update s.lease lock.token 0;
  }
  act (renew_lock fails now lock) s = after_renew lock.token s (renew fails now lock s.key)

  unfoldable pub run : List Action → System → System
  unfolding act
  run [] s = s
  run (a ∷ later_actions) s = run later_actions (act a s)

-- a key that a token holds beyond now has that token as its owner
owner-lem :
    (now expires : ℕ) (token : Bytes)
    → now < expires
    → owner now (some (token, expires)) ≡ some token
owner-lem now expires token h = rw (lt→ltb now expires h)

absurd_bool : {A : Type 0} {b : Bool} → b ≡ true → b ≡ false → A
absurd_bool e h = cc

absurd_owner : {A : Type 0} {o : Option Bytes} {u : Bytes} → o ≡ none → o ≡ some u → A
absurd_owner e h = cc

set_if_free-Exclusive :
    (now expires : ℕ) (token : Bytes) (opts : Options) (o : Option Bytes) (s : System)
    → owner now s.key ≡ o
    → Exclusive now s
    → Exclusive now (after_acquire token s (set_if_free expires token opts o s.key))
unfolding set_if_free after_acquire Exclusive
set_if_free-Exclusive now expires token opts none s e h = λ u.
    elim (Bool-cases (bytes_eq token u)) [
      | inl b ↦
          rw (update_lem s.lease token u expires, b)
            (λ l. ap (λ t. some (t, expires)) ((bytes_eq_iff token u).0 b))
      | inr b ↦
          rw (update_lem s.lease token u expires, b)
            (λ l.
              let held = owner-lem now (s.lease u) u l in
              let same = ap (owner now) (h u l) in absurd_owner e (same ∙ held))
    ]
set_if_free-Exclusive now expires token opts (some t) s e h = h

not_owner :
    (now expires : ℕ) (token u : Bytes) (key : Key)
    → key ≡ some (u, expires)
    → now < expires
    → bytes_eq token u ≡ false
    → is_owner token (owner now key) ≡ false
not_owner now expires token u key h l b =
    rw (h, lt→ltb now expires l) (ground (arith, bytes_eq_iff u token, bytes_eq_iff token u))

-- A lock whose token no longer holds the key releases nothing, and renews nothing.
release-foreign :
    (fails : Bool) (now expires : ℕ) (lock : Lock) (u : Bytes) (key : Key)
    → key ≡ some (u, expires)
    → now < expires
    → bytes_eq lock.token u ≡ false
    → release fails now (some lock) key ≡ key
unfolding release release_script
release-foreign true now expires lock u key h l b = refl
release-foreign false now expires lock u key h l b =
    rw (not_owner now expires lock.token u key h l b)

release-Exclusive :
    (fails : Bool) (now : ℕ) (lock : Lock) (s : System)
    → Exclusive now s
    → Exclusive now
        (record { key = release fails now (some lock) s.key; lease = update s.lease lock.token 0 })
unfolding Exclusive
release-Exclusive fails now lock s h = λ u. elim (Bool-cases (bytes_eq lock.token u)) [
  | inl b ↦ rw (update_lem s.lease lock.token u 0, b) (λ l. ground arith)
  | inr b ↦
      rw (update_lem s.lease lock.token u 0, b)
        (λ l. release-foreign fails now (s.lease u) lock u s.key (h u l) l b ∙ h u l)
]

renewed-Exclusive :
    (now : ℕ) (lock : Lock) (s : System) (ms : ℕ) (b : Bool)
    → is_owner lock.token (owner now s.key) ≡ b
    → Exclusive now s
    → Exclusive now (
        let (result, key) = renew_script now lock.token ms s.key in
        after_renew lock.token s (some (result == 1), key))
unfolding after_renew renew_script Exclusive
renewed-Exclusive now lock s ms true e h = rw (e) (λ u. elim (Bool-cases (bytes_eq lock.token u)) [
  | inl b ↦
      rw (update_lem s.lease lock.token u (now + ms * 1_000_000), b)
        (λ l. ap (λ t. some (t, now + ms * 1_000_000)) ((bytes_eq_iff lock.token u).0 b))
  | inr b ↦
      rw (update_lem s.lease lock.token u (now + ms * 1_000_000), b)
        (λ l. absurd_bool e (not_owner now (s.lease u) lock.token u s.key (h u l) l b))
])
renewed-Exclusive now lock s ms false e h = rw (e) h

renew-Exclusive :
    (fails : Bool) (now : ℕ) (lock : Lock) (s : System)
    → Exclusive now s
    → Exclusive now (after_renew lock.token s (renew fails now lock s.key))
unfolding after_renew renew
renew-Exclusive true now lock s h = h
renew-Exclusive false now lock s h =
    renewed-Exclusive now lock s (duration lock.options.ttl / 1_000_000)
      (is_owner lock.token (owner now s.key)) refl h

acquire-Exclusive :
    (kept : ℕ → ℕ) (fails : Bool) (now : ℕ) (token : Bytes) (options : Options) (s : System)
    → Exclusive now s
    → Exclusive now (after_acquire token s (try_acquire kept fails now token options s.key))
unfolding try_acquire after_acquire
acquire-Exclusive kept true now token options s h = h
acquire-Exclusive kept false now token options s h =
    set_if_free-Exclusive now _ token (normalized options) (owner now s.key) s refl h

-- the actions happen one after another, from the given time on
abbrev pub Ascends : ℕ → List Action → Type 0
Ascends t [] = Unit
Ascends t (a ∷ rest) = (t ≤ time a) × Ascends (time a) rest

abbrev pub last_time : ℕ → List Action → ℕ
last_time t [] = t
last_time t (a ∷ rest) = last_time (time a) rest

module _ (kept : ℕ → ℕ) where
  act-Exclusive :
      (a : Action) (s : System) → Exclusive (time a) s → Exclusive (time a) (act kept a s)
  unfolding act
  act-Exclusive (acquire_lock fails now token options) s h =
      acquire-Exclusive kept fails now token options s h
  act-Exclusive (release_lock fails now lock) s h = release-Exclusive fails now lock s h
  act-Exclusive (renew_lock fails now lock) s h = renew-Exclusive fails now lock s h

  pub run-Exclusive :
      (actions : List Action) (t : ℕ) (s : System)
      → Ascends t actions
      → Exclusive t s
      → Exclusive (last_time t actions) (run kept actions s)
  unfolding run
  run-Exclusive [] t s h k = k
  run-Exclusive (a ∷ rest) t s (l, ls) k =
      run-Exclusive rest (time a) (act kept a s) ls (act-Exclusive a s (later t (time a) s l k))

  abbrev pub free : System
  free = record { key = none; lease = λ token. 0 }

  -- Mutual exclusion: after any acquisitions, releases and renewals in the order of time, failing or
  -- not, two tokens whose leases have not ended are the same token.
  pub run-one_holder :
      (actions : List Action) (t : ℕ) (u v : Bytes)
      → Ascends t actions
      → last_time t actions < (run kept actions free).lease u
      → last_time t actions < (run kept actions free).lease v
      → u ≡ v
  unfolding Exclusive
  run-one_holder actions t u v h l m =
      let held = run-Exclusive actions t free h (λ token k. ground arith) in
      let first = held u l in let second = held v m in cc
