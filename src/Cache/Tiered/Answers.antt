-- ===== src/Cache/Tiered/Answers.antt =====
-- Get of internal/cache/tiered.go: that it comes to an answer.
use zhiguang_go.Base.{
  ◌≡◌, refl, ◌≢◌, Bool, true, false, Option, none, some, List, [], ◌∷◌, if◌then◌else◌, Bytes,
}
use zhiguang_go.Cache.Tiered.{
  Tiered, Caches, Faults, present, Found, hit, miss, null, Result, value, failed, waiting, Round,
  lock_error, busy, taken, load_and_fill, while_busy, when_taken, cache_read_through, after_l2,
  read_l1, after_l1, get,
}
use zhiguang_go.Cache.Tiered.Coherence.{IsCoherent, IsFair, IsFound, get_l2-IsFound}
use zhiguang_go.Cache.Tiered.Reads.{read_l1-true}

-- The answer is the value, with any level.
abbrev pub IsValue : {T : Type 0} → T → Result T → Type 0
IsValue v (value w level) = w ≡ v
IsValue v (failed e level) = ⊥
IsValue v waiting = ⊥

-- PreLoad, if there is one, does not fail.
abbrev pub IsPassed : Option Bool → Type 0
IsPassed none = Unit
IsPassed (some fails) = fails ≡ false

module _ {T : Type 0} (encode : T → Option Bytes) (decode : Bytes → Option T) (v : T) (t : Tiered)
    (round_trip : (v : T) (raw : Bytes) → encode v ≡ some raw → decode raw ≡ some v)
    (apart : (v : T) (raw : Bytes) → encode v ≡ some raw → raw ≢ t.null_sentinel) where
  -- The lock is held by others for some rounds and then taken; Redis answers, and the call is not
  -- cancelled.
  abbrev pub IsTakenAtLast : List Round → Type 0
  IsTakenAtLast [] = ⊥
  IsTakenAtLast (lock_error ∷ rounds) = ⊥
  IsTakenAtLast (busy others ends ∷ rounds) =
      (ends ≡ false)
      × IsFair decode (some v) t.null_sentinel (busy others ends)
      × IsTakenAtLast rounds
  IsTakenAtLast (taken others ∷ rounds) = IsFair decode (some v) t.null_sentinel (taken others)

  while_busy-IsValue :
      (ends : Bool) (x : Found T × Caches) (next : Caches → Result T × Caches)
      → ends ≡ false
      → IsFound decode (some v) t.null_sentinel x
      → ((c : Caches) → IsCoherent decode (some v) t.null_sentinel c → IsValue v (next c).0)
      → IsValue v (while_busy encode decode ends x next).0
  unfolding while_busy
  while_busy-IsValue ends (hit w, c) next e h k = let p = h.0 in cc
  while_busy-IsValue ends (null, c) next e h k = let p = h.0 in cc
  while_busy-IsValue ends (miss, c) next e h k = rw (e) (k c h)

  when_taken-IsValue :
      (f : Faults) (x : Found T × Caches)
      → IsFound decode (some v) t.null_sentinel x
      → IsValue v (when_taken encode decode f t (present v) x).0
  unfolding when_taken load_and_fill
  when_taken-IsValue f (hit w, c) h = let p = h.0 in cc
  when_taken-IsValue f (null, c) h = let p = h.0 in cc
  when_taken-IsValue f (miss, c) h = refl

  cache_read_through-IsValue :
      (f : Faults) (rounds : List Round) (c : Caches)
      → IsTakenAtLast rounds
      → IsCoherent decode (some v) t.null_sentinel c
      → IsValue v (cache_read_through encode decode f t (present v) rounds c).0
  unfolding cache_read_through
  cache_read_through-IsValue f [] c g h = g
  cache_read_through-IsValue f (lock_error ∷ rounds) c g h = g
  cache_read_through-IsValue f (busy others ends ∷ rounds) c (e, fair, g) h =
      while_busy-IsValue ends _ _ e
        (get_l2-IsFound encode decode (some v) t round_trip apart f (others c) (fair c h))
        (λ d k. cache_read_through-IsValue f rounds d g k)
  cache_read_through-IsValue f (taken others ∷ rounds) c fair h =
      when_taken-IsValue f _
        (get_l2-IsFound encode decode (some v) t round_trip apart f (others c) (fair c h))

  go_on-IsValue :
      (f : Faults) (rounds : List Round) (c : Caches) (b : Bool)
      → IsTakenAtLast rounds
      → IsCoherent decode (some v) t.null_sentinel c
      → IsValue v
          (if b
            then cache_read_through encode decode f t (present v) rounds c
            else load_and_fill encode decode f t (present v) c).0
  unfolding load_and_fill
  go_on-IsValue f rounds c true g h = cache_read_through-IsValue f rounds c g h
  go_on-IsValue f rounds c false g h = refl

  after_l2-IsValue :
      (f : Faults) (pre_load : Option Bool) (rounds : List Round) (x : Found T × Caches)
      → IsPassed pre_load
      → IsTakenAtLast rounds
      → IsFound decode (some v) t.null_sentinel x
      → IsValue v (after_l2 encode decode f t pre_load (present v) rounds x).0
  unfolding after_l2
  after_l2-IsValue f pre_load rounds (hit w, c) q g h = let p = h.0 in cc
  after_l2-IsValue f pre_load rounds (null, c) q g h = let p = h.0 in cc
  after_l2-IsValue f (some true) rounds (miss, c) q g h = let z : true ≡ false = q in cc
  after_l2-IsValue f (some false) rounds (miss, c) q g h =
      go_on-IsValue f rounds c t.has_lock_key g h
  after_l2-IsValue f none rounds (miss, c) q g h = go_on-IsValue f rounds c t.has_lock_key g h

  after_l1-IsValue :
      (f : Faults) (pre_load : Option Bool) (rounds : List Round) (o : Option T) (c : Caches)
      → ((w : T) → o ≡ some w → some v ≡ some w)
      → IsPassed pre_load
      → IsTakenAtLast rounds
      → IsCoherent decode (some v) t.null_sentinel c
      → IsValue v (after_l1 encode decode f t pre_load (present v) rounds o c).0
  unfolding after_l1
  after_l1-IsValue f pre_load rounds (some w) c e q g h = let p = e w refl in cc
  after_l1-IsValue f pre_load rounds none c e q g h =
      after_l2-IsValue f pre_load rounds _ q g
        (get_l2-IsFound encode decode (some v) t round_trip apart f c h)

  -- Where the loader finds v and the coherent caches hold nothing else, Get answers v, whatever of the
  -- reads and writes of the caches fails, as long as PreLoad does not, and others hold the lock for only
  -- finitely many rounds, in which they keep the caches coherent, Redis serves the lock and the call is
  -- not cancelled. Encoded values are decoded to themselves, and none is encoded as the sentinel.
  pub get-IsValue :
      (f : Faults) (pre_load : Option Bool) (rounds : List Round) (c : Caches)
      → IsPassed pre_load
      → IsTakenAtLast rounds
      → IsCoherent decode (some v) t.null_sentinel c
      → IsValue v (get encode decode f t pre_load (present v) rounds c).0
  unfolding get
  get-IsValue f pre_load rounds c q g h =
      after_l1-IsValue f pre_load rounds (read_l1 encode decode t c.l1) c
        (λ w k. read_l1-true encode decode (some v) t round_trip apart c.l1 c w refl h k) q g h
