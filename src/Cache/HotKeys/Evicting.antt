-- ===== src/Cache/HotKeys/Evicting.antt =====
-- The buffer of internal/cache/hotkey.go: what an eviction leaves of it.
use zhiguang_go.Base.{
  ℕ, zero, suc, ◌+◌, ◌-◌, ◌/◌, ◌≤◌, ◌<◌, ◌≡◌, refl, sym, ap, ◌∙◌, ◌⊎◌, inl, inr, Bool, not, none,
  some, [], ◌∷◌, arith, ltb, leb, if◌then◌else◌, Bool-cases, length, keep, length-keep-le, Bytes,
  bytes_eq, bytes_eq_iff,
}
use zhiguang_go.Cache.HotKeys.{
  HotKeyConfig, Buckets, Buffer, find, put, is_stale, delete_some, evict_oldest, make_room,
}
use zhiguang_go.Cache.HotKeys.Lifetimes.{find-put}

pub length-put : (k : Bytes) (bs : Buckets) (buf : Buffer) → length (put k bs buf) ≤ length buf + 1
unfolding put
length-put k bs [] = omega arith
length-put k bs ((j, cs) ∷ buf) = ground (arith, length-put k bs buf)

pub length-put_known :
    (k : Bytes) (bs cs : Buckets) (buf : Buffer)
    → find buf k ≡ some cs
    → length (put k bs buf) ≡ length buf
unfolding put find
length-put_known k bs cs [] e = absurd (cc)
length-put_known k bs cs ((j, ds) ∷ buf) e = ground (arith, length-put_known k bs cs buf)

length-delete_some : (n : ℕ) (buf : Buffer) → length (delete_some n buf) ≡ length buf - n
unfolding delete_some
length-delete_some zero buf = omega arith
length-delete_some (suc n) [] = omega arith
length-delete_some (suc n) (e ∷ buf) = omega (arith, length-delete_some n buf)

length-evict_oldest :
    (cfg : HotKeyConfig) (bucket : ℕ) (buf : Buffer)
    → 0 < length buf
    → length (evict_oldest cfg bucket buf) + 1 ≤ length buf
unfolding evict_oldest
length-evict_oldest cfg bucket buf h =
    let live = keep (λ e. not (is_stale cfg bucket e.1)) buf in
    ground (
      arith,
      length-keep-le (λ e. not (is_stale cfg bucket e.1)) buf,
      length-delete_some
          ((if ltb (length buf / 10) 1 then 1 else length buf / 10) - (length buf - length live))
          live,
    )

-- No key stands in the buffer twice.
abbrev pub IsMap : Buffer → Type 0
IsMap [] = Unit
IsMap ((k, bs) ∷ buf) = (find buf k ≡ none) × IsMap buf

-- Whatever is found now was found before.
abbrev pub Drops : Buffer → Buffer → Type 0
Drops before now = (k : Bytes) → (find now k ≡ find before k) ⊎ (find now k ≡ none)

Drops-trans : (a b c : Buffer) → Drops a b → Drops b c → Drops a c
Drops-trans a b c f g k = chain (f k) (g k)
  where
    chain :
        (find b k ≡ find a k) ⊎ (find b k ≡ none)
        → (find c k ≡ find b k) ⊎ (find c k ≡ none)
        → (find c k ≡ find a k) ⊎ (find c k ≡ none)
    chain (inl e) (inl d) = inl (d ∙ e)
    chain (inr e) (inl d) = inr (d ∙ e)
    chain x (inr d) = inr d

Drops-none : (a b : Buffer) (k : Bytes) → Drops a b → find a k ≡ none → find b k ≡ none
Drops-none a b k f e = absent (f k)
  where
    absent : (find b k ≡ find a k) ⊎ (find b k ≡ none) → find b k ≡ none
    absent (inl d) = d ∙ e
    absent (inr d) = d

tail-Drops :
    (k : Bytes) (bs : Buckets) (buf : Buffer) → find buf k ≡ none → Drops ((k, bs) ∷ buf) buf
unfolding find
tail-Drops k bs buf e j = elim (Bool-cases (bytes_eq k j)) [
  | inl b ↦ rw (b) (inr (ap (find buf) (sym ((bytes_eq_iff k j).0 b)) ∙ e))
  | inr b ↦ rw (b) (inl refl)
]

cons-Drops :
    (k : Bytes) (bs : Buckets) (buf now : Buffer)
    → Drops buf now
    → Drops ((k, bs) ∷ buf) ((k, bs) ∷ now)
unfolding find
cons-Drops k bs buf now d j = elim (Bool-cases (bytes_eq k j)) [
  | inl b ↦ rw (b) (inl refl)
  | inr b ↦ rw (b) (d j)
]

-- Some keys of a map are dropped.
abbrev pub Shrinks : Buffer → Buffer → Type 0
Shrinks before now = IsMap now × Drops before now

delete_some-Shrinks : (n : ℕ) (buf : Buffer) → IsMap buf → Shrinks buf (delete_some n buf)
unfolding delete_some
delete_some-Shrinks zero buf m = (m, λ k. inl refl)
delete_some-Shrinks (suc n) [] m = (m, λ k. inl refl)
delete_some-Shrinks (suc n) ((k, bs) ∷ buf) (e, m) =
    let rest = delete_some-Shrinks n buf m in
    (rest.0, Drops-trans ((k, bs) ∷ buf) buf (delete_some n buf) (tail-Drops k bs buf e) rest.1)

keep-Shrinks : (p : Bytes × Buckets → Bool) (buf : Buffer) → IsMap buf → Shrinks buf (keep p buf)
keep-Shrinks p [] m = (m, λ k. inl refl)
keep-Shrinks p ((k, bs) ∷ buf) (e, m) =
    let rest = keep-Shrinks p buf m in
    elim (Bool-cases (p (k, bs))) [
      | inl b ↦ rw (b) (
        (Drops-none buf (keep p buf) k rest.1 e, rest.0),
        cons-Drops k bs buf (keep p buf) rest.1,
      )
      | inr b ↦
          rw (b)
            (rest.0, Drops-trans ((k, bs) ∷ buf) buf (keep p buf) (tail-Drops k bs buf e) rest.1)
    ]

evict_oldest-Shrinks :
    (cfg : HotKeyConfig) (bucket : ℕ) (buf : Buffer)
    → IsMap buf
    → Shrinks buf (evict_oldest cfg bucket buf)
unfolding evict_oldest
evict_oldest-Shrinks cfg bucket buf m =
    let target = if ltb (length buf / 10) 1 then 1 else length buf / 10 in
    let live = keep (λ e. not (is_stale cfg bucket e.1)) buf in
    let kept = keep-Shrinks (λ e. not (is_stale cfg bucket e.1)) buf m in
    let evicted = length buf - length live in
    elim (Bool-cases (leb target evicted)) [
      | inl b ↦ rw (b) kept
      | inr b ↦
          let fewer = delete_some-Shrinks (target - evicted) live kept.0 in
          rw (b)
            (fewer.0, Drops-trans buf live (delete_some (target - evicted) live) kept.1 fewer.1)
    ]

pub make_room-Shrinks :
    (cfg : HotKeyConfig) (max_keys bucket : ℕ) (buf : Buffer)
    → IsMap buf
    → Shrinks buf (make_room cfg max_keys bucket buf)
unfolding make_room
make_room-Shrinks cfg max_keys bucket buf m = elim (Bool-cases (leb max_keys (length buf))) [
  | inl b ↦ rw (b) (evict_oldest-Shrinks cfg bucket buf m)
  | inr b ↦ rw (b) (m, λ k. inl refl)
]

pub length-make_room :
    (cfg : HotKeyConfig) (max_keys bucket : ℕ) (buf : Buffer)
    → 0 < max_keys
    → length buf ≤ max_keys
    → length (make_room cfg max_keys bucket buf) + 1 ≤ max_keys
unfolding make_room
length-make_room cfg max_keys bucket buf h l = ground (arith, length-evict_oldest cfg bucket buf)

pub put-IsMap : (k : Bytes) (bs : Buckets) (buf : Buffer) → IsMap buf → IsMap (put k bs buf)
unfolding put
put-IsMap k bs [] m = (unfold find in refl, tt)
put-IsMap k bs ((j, cs) ∷ buf) (e, m) = elim (Bool-cases (bytes_eq j k)) [
  | inl b ↦ rw (b) (e, m)
  | inr b ↦ rw (b) (
    find-put k j bs buf ∙ ground (arith, bytes_eq_iff j k, bytes_eq_iff k j, b, e),
    put-IsMap k bs buf m,
  )
]
