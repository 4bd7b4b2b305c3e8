-- ===== src/Cache/HotKeys/Counting.antt =====
-- The buffer of internal/cache/hotkey.go: how Record counts, and how large the buffer grows.
use zhiguang_go.Base.{
  ℕ, ◌+◌, ◌≤◌, ◌<◌, ◌≡◌, refl, ap, ◌⊎◌, inl, inr, false, Option, none, some, [], ◌∷◌, arith, ◌==◌,
  if◌then◌else◌, length, Bytes, bytes_eq, bytes_eq_refl,
}
use zhiguang_go.Cache.HotKeys.{
  HotKeyConfig, Buckets, Buffer, find, current_bucket, incr, make_room, record_at, record_hit,
}
use zhiguang_go.Cache.HotKeys.Lifetimes.{find-put}
use zhiguang_go.Cache.HotKeys.Evicting.{
  length-put, length-put_known, length-make_room, make_room-Shrinks, put-IsMap, IsMap,
}

-- The count of a bucket, and of a key in it.
pub count_in : Buckets → ℕ → ℕ
count_in [] b = 0
count_in ((c, n) ∷ bs) b = if c == b then n else count_in bs b

abbrev count_of : Option Buckets → ℕ → ℕ
count_of none b = 0
count_of (some bs) b = count_in bs b

pub hits : Buffer → Bytes → ℕ → ℕ
hits buf k b = count_of (find buf k) b

count_in-incr :
    (b c : ℕ) (bs : Buckets) → count_in (incr b bs) c ≡ count_in bs c + (if b == c then 1 else 0)
unfolding count_in incr
count_in-incr b c [] = ground arith
count_in-incr b c ((d, n) ∷ bs) = ground (arith, count_in-incr b c bs)

-- The buffer between two calls.
pub record IsBuffer (max_keys : ℕ) (buf : Buffer) : Type 0 where
  pub bounded : length buf ≤ max_keys
  pub unique : IsMap buf

record_at-IsBuffer :
    (cfg : HotKeyConfig) (max_keys bucket : ℕ) (k : Bytes) (o : Option Buckets) (buf : Buffer)
    → 0 < max_keys
    → find buf k ≡ o
    → IsBuffer max_keys buf
    → IsBuffer max_keys (record_at cfg max_keys bucket k o buf)
unfolding record_at
record_at-IsBuffer cfg max_keys bucket k none buf h e v =
    let room = make_room cfg max_keys bucket buf in
    record {
      bounded = omega (
        arith,
        length-put k (incr bucket []) room,
        length-make_room cfg max_keys bucket buf h v.bounded,
      );
      unique = put-IsMap k _ room (make_room-Shrinks cfg max_keys bucket buf v.unique).0;
    }
record_at-IsBuffer cfg max_keys bucket k (some bs) buf h e v = record {
  bounded = omega (arith, length-put_known k (incr bucket bs) bs buf e, v.bounded);
  unique = put-IsMap k _ buf v.unique;
}

hits-record_at :
    (cfg : HotKeyConfig) (max_keys bucket b : ℕ) (k : Bytes) (o : Option Buckets) (buf : Buffer)
    → find buf k ≡ o
    → hits (record_at cfg max_keys bucket k o buf) k b
      ≡ hits buf k b + (if bucket == b then 1 else 0)
unfolding record_at hits count_in
hits-record_at cfg max_keys bucket b k none buf e =
    rw (find-put k k (incr bucket []) (make_room cfg max_keys bucket buf), bytes_eq_refl k, e)
      (count_in-incr bucket b [])
hits-record_at cfg max_keys bucket b k (some bs) buf e =
    rw (find-put k k (incr bucket bs) buf, bytes_eq_refl k, e) (count_in-incr bucket b bs)

dropped_hits :
    (b : ℕ) (j : Bytes) (before now : Buffer)
    → (find now j ≡ find before j) ⊎ (find now j ≡ none)
    → (hits now j b ≡ hits before j b) ⊎ (hits now j b ≡ 0)
unfolding hits
dropped_hits b j before now (inl e) = inl (ap (λ o. count_of o b) e)
dropped_hits b j before now (inr e) = inr (ap (λ o. count_of o b) e)

record_at_others :
    (cfg : HotKeyConfig) (max_keys bucket : ℕ) (k j : Bytes) (o : Option Buckets) (buf : Buffer)
    → IsMap buf
    → bytes_eq k j ≡ false
    → (find (record_at cfg max_keys bucket k o buf) j ≡ find buf j)
      ⊎ (find (record_at cfg max_keys bucket k o buf) j ≡ none)
unfolding record_at
record_at_others cfg max_keys bucket k j none buf m ne =
    rw (find-put k j (incr bucket []) (make_room cfg max_keys bucket buf), ne)
      ((make_room-Shrinks cfg max_keys bucket buf m).1 j)
record_at_others cfg max_keys bucket k j (some bs) buf m ne =
    rw (find-put k j (incr bucket bs) buf, ne) (inl refl)

-- Record keeps the buffer within its maximum, with each key in it once; it adds 1 to the count of its
-- key in the current bucket, and leaves every other count as it was, but those of keys that it evicts.
pub record_hit-IsBuffer :
    (cfg : HotKeyConfig) (max_keys now : ℕ) (k : Bytes) (buf : Buffer)
    → 0 < max_keys
    → IsBuffer max_keys buf
    → IsBuffer max_keys (record_hit cfg max_keys now k buf)
      × ((b : ℕ)
          → hits (record_hit cfg max_keys now k buf) k b
            ≡ hits buf k b + (if current_bucket cfg now == b then 1 else 0))
      × ((j : Bytes) (b : ℕ)
          → bytes_eq k j ≡ false
          → (hits (record_hit cfg max_keys now k buf) j b ≡ hits buf j b)
            ⊎ (hits (record_hit cfg max_keys now k buf) j b ≡ 0))
unfolding record_hit
record_hit-IsBuffer cfg max_keys now k buf h v =
    let bucket = current_bucket cfg now in
    (
      record_at-IsBuffer cfg max_keys bucket k (find buf k) buf h refl v,
      (λ b. hits-record_at cfg max_keys bucket b k (find buf k) buf refl),
      (λ j b ne.
          dropped_hits b j buf (record_at cfg max_keys bucket k (find buf k) buf)
            (record_at_others cfg max_keys bucket k j (find buf k) buf v.unique ne)),
    )
