-- ===== src/Cache/Tiered/Reads.antt =====
-- Get of internal/cache/tiered.go: what it answers, whoever else fills the caches.
use zhiguang_go.Base.{
  ◌≡◌, refl, ◌≢◌, inl, inr, Bool, true, false, Option, none, some, List, [], ◌∷◌, arith,
  if◌then◌else◌, Bool-cases, All, Bytes,
}
use zhiguang_go.Cache.Tiered.{
  Tiered, Caches, Faults, Loaded, Found, hit, miss, null, Result, Round, lock_error, busy, taken,
  load_and_fill, while_busy, when_taken, cache_read_through, after_l2, read_l1, after_l1, get,
}
use zhiguang_go.Cache.Tiered.Coherence.{
  IsCoherent, IsTrue, IsHonest, IsFair, IsFound, IsSound, get_l2-IsFound, load_and_fill-IsSound,
}

module _ {T : Type 0} (encode : T → Option Bytes) (decode : Bytes → Option T) (truth : Option T)
    (t : Tiered) (round_trip : (v : T) (raw : Bytes) → encode v ≡ some raw → decode raw ≡ some v)
    (apart : (v : T) (raw : Bytes) → encode v ≡ some raw → raw ≢ t.null_sentinel) where
  while_busy-IsSound :
      (ends : Bool) (x : Found T × Caches) (next : Caches → Result T × Caches)
      → IsFound decode truth t.null_sentinel x
      → ((c : Caches)
          → IsCoherent decode truth t.null_sentinel c
          → IsSound decode truth t.null_sentinel (next c))
      → IsSound decode truth t.null_sentinel (while_busy encode decode ends x next)
  unfolding while_busy
  while_busy-IsSound ends (hit v, c) next h k = h
  while_busy-IsSound ends (null, c) next h k = h
  while_busy-IsSound true (miss, c) next h k = (tt, h)
  while_busy-IsSound false (miss, c) next h k = k c h

  when_taken-IsSound :
      (f : Faults) (load : Loaded T) (x : Found T × Caches)
      → IsHonest decode truth t.null_sentinel load
      → IsFound decode truth t.null_sentinel x
      → IsSound decode truth t.null_sentinel (when_taken encode decode f t load x)
  unfolding when_taken
  when_taken-IsSound f load (hit v, c) p h = h
  when_taken-IsSound f load (null, c) p h = h
  when_taken-IsSound f load (miss, c) p h =
      load_and_fill-IsSound encode decode truth t round_trip apart f load c p h

  cache_read_through-IsSound :
      (f : Faults) (load : Loaded T) (rounds : List Round) (c : Caches)
      → IsHonest decode truth t.null_sentinel load
      → All (IsFair decode truth t.null_sentinel) rounds
      → IsCoherent decode truth t.null_sentinel c
      → IsSound decode truth t.null_sentinel (cache_read_through encode decode f t load rounds c)
  unfolding cache_read_through
  cache_read_through-IsSound f load [] c p fs h = (tt, h)
  cache_read_through-IsSound f load (lock_error ∷ rounds) c p fs h = (tt, h)
  cache_read_through-IsSound f load (busy others ends ∷ rounds) c p (fair, fs) h =
      while_busy-IsSound ends _ _
        (get_l2-IsFound encode decode truth t round_trip apart f (others c) (fair c h))
        (λ d k. cache_read_through-IsSound f load rounds d p fs k)
  cache_read_through-IsSound f load (taken others ∷ rounds) c p (fair, fs) h =
      when_taken-IsSound f load _ p
        (get_l2-IsFound encode decode truth t round_trip apart f (others c) (fair c h))

  go_on-IsSound :
      (f : Faults) (load : Loaded T) (rounds : List Round) (c : Caches) (b : Bool)
      → IsHonest decode truth t.null_sentinel load
      → All (IsFair decode truth t.null_sentinel) rounds
      → IsCoherent decode truth t.null_sentinel c
      → IsSound decode truth t.null_sentinel (
          if b
          then cache_read_through encode decode f t load rounds c
          else load_and_fill encode decode f t load c)
  go_on-IsSound f load rounds c true p fs h = cache_read_through-IsSound f load rounds c p fs h
  go_on-IsSound f load rounds c false p fs h =
      load_and_fill-IsSound encode decode truth t round_trip apart f load c p h

  after_l2-IsSound :
      (f : Faults) (pre_load : Option Bool) (load : Loaded T) (rounds : List Round)
      (x : Found T × Caches)
      → IsHonest decode truth t.null_sentinel load
      → All (IsFair decode truth t.null_sentinel) rounds
      → IsFound decode truth t.null_sentinel x
      → IsSound decode truth t.null_sentinel (after_l2 encode decode f t pre_load load rounds x)
  unfolding after_l2
  after_l2-IsSound f pre_load load rounds (hit v, c) p fs h = h
  after_l2-IsSound f pre_load load rounds (null, c) p fs h = h
  after_l2-IsSound f (some true) load rounds (miss, c) p fs h = (tt, h)
  after_l2-IsSound f (some false) load rounds (miss, c) p fs h =
      go_on-IsSound f load rounds c t.has_lock_key p fs h
  after_l2-IsSound f none load rounds (miss, c) p fs h =
      go_on-IsSound f load rounds c t.has_lock_key p fs h

  after_l1-IsSound :
      (f : Faults) (pre_load : Option Bool) (load : Loaded T) (rounds : List Round) (o : Option T)
      (c : Caches)
      → ((v : T) → o ≡ some v → truth ≡ some v)
      → IsHonest decode truth t.null_sentinel load
      → All (IsFair decode truth t.null_sentinel) rounds
      → IsCoherent decode truth t.null_sentinel c
      → IsSound decode truth t.null_sentinel (after_l1 encode decode f t pre_load load rounds o c)
  unfolding after_l1
  after_l1-IsSound f pre_load load rounds (some v) c e p fs h = (e v refl, h)
  after_l1-IsSound f pre_load load rounds none c e p fs h =
      after_l2-IsSound f pre_load load rounds _ p fs
        (get_l2-IsFound encode decode truth t round_trip apart f c h)

  pub read_l1-true :
      (o : Option Bytes) (c : Caches) (v : T)
      → c.l1 ≡ o
      → IsCoherent decode truth t.null_sentinel c
      → read_l1 encode decode t o ≡ some v
      → truth ≡ some v
  unfolding read_l1
  read_l1-true none c v e h k = cc
  read_l1-true (some raw) c v e h k = elim (Bool-cases t.has_l1) [
    | inl b ↦ h.in_l1 raw v e (ground (arith, k))
    | inr b ↦ ground (arith, k)
  ]

  -- From coherent caches, Get answers with what is true: a value only if it is the one, and the cached
  -- absence only if there is none; and it leaves the caches coherent. This holds whatever fails and
  -- whatever coherent entries others write while it waits for the lock, where the loader is honest,
  -- encoded values are decoded to themselves, and none is encoded as the sentinel.
  pub get-IsTrue :
      (f : Faults) (pre_load : Option Bool) (load : Loaded T) (rounds : List Round) (c : Caches)
      → IsHonest decode truth t.null_sentinel load
      → All (IsFair decode truth t.null_sentinel) rounds
      → IsCoherent decode truth t.null_sentinel c
      → IsTrue decode truth t.null_sentinel (get encode decode f t pre_load load rounds c).0
        × IsCoherent decode truth t.null_sentinel (get encode decode f t pre_load load rounds c).1
  unfolding get
  get-IsTrue f pre_load load rounds c p fs h =
      after_l1-IsSound f pre_load load rounds (read_l1 encode decode t c.l1) c
        (λ v k. read_l1-true c.l1 c v refl h k) p fs h
