-- ===== src/Counter/Rebuild/Shards.antt =====
-- The sum over the shards of a bitmap is the number of users whose bit is set, in whatever order and
-- pages SCAN lists the shards.
use zhiguang_go.Base.{
  ℕ, zero, suc, ◌+◌, ◌*◌, ◌≤◌, ◌<◌, ◌≡◌, refl, sym, ap, ◌∙◌, Bool, false, some, inl, inr,
  Bool-cases, if◌then◌else◌, List, [], ◌∷◌, ◌++◌, arith, All, Bytes,
}
use mathlib.Core.List.{Perm, Permᴰ}
use mathlib.Core.Logic.{∥∥₁_elim}
use native.Mathlib.Nat.{ℕ_set, add-suc, add_assoc, add_comm, zero-add}
use zhiguang_go.Counter.Model.{chunk_size, chunk_of, bit_of, bitmap_key}
use zhiguang_go.Counter.Toggle.{Redis, is_set}
use zhiguang_go.Counter.Rebuild.{bit_count, sum_shards, Page, scan_fails, keys, bit_count_shards}

bit_count-add :
    (a b : ℕ) (p : ℕ → Bool) → bit_count (a + b) p ≡ bit_count a p + bit_count b (λ j. p (a + j))
unfolding bit_count
bit_count-add a zero p = ground (arith)
bit_count-add a (suc b) p = rw (add-suc) (omega (arith, bit_count-add a b p))

bit_count_congr :
    (n : ℕ) (p q : ℕ → Bool) → ((j : ℕ) → j < n → p j ≡ q j) → bit_count n p ≡ bit_count n q
unfolding bit_count
bit_count_congr zero p q h = refl
bit_count_congr (suc n) p q h =
    rw (h n (omega arith), bit_count_congr n p q (λ j l. h j (omega arith))) refl

pub bit_count-le : (n : ℕ) (p : ℕ → Bool) → bit_count n p ≤ n
unfolding bit_count
bit_count-le zero p = omega arith
bit_count-le (suc n) p = ground (arith, bit_count-le n p)

sum_shards-append :
    (bits : Bytes → ℕ → Bool) (xs ys : List Bytes)
    → sum_shards bits (xs ++ ys) ≡ sum_shards bits xs + sum_shards bits ys
unfolding sum_shards
sum_shards-append bits [] ys = omega arith
sum_shards-append bits (x ∷ xs) ys = omega (arith, sum_shards-append bits xs ys)

sum_shards-perm_d :
    (bits : Bytes → ℕ → Bool) {xs ys : List Bytes}
    → Permᴰ xs ys
    → sum_shards bits xs ≡ sum_shards bits ys
unfolding sum_shards
sum_shards-perm_d bits Permᴰ.nil = refl
sum_shards-perm_d bits (Permᴰ.cons e p) =
    omega (arith, ap (λ (k : Bytes). bit_count chunk_size (bits k)) e, sum_shards-perm_d bits p)
sum_shards-perm_d bits (Permᴰ.swap e d) = omega (
  arith,
  ap (λ (k : Bytes). bit_count chunk_size (bits k)) e,
  ap (λ (k : Bytes). bit_count chunk_size (bits k)) d,
)
sum_shards-perm_d bits (Permᴰ.trans p q) = sum_shards-perm_d bits p ∙ sum_shards-perm_d bits q

sum_shards-perm :
    (bits : Bytes → ℕ → Bool) {xs ys : List Bytes}
    → Perm xs ys
    → sum_shards bits xs ≡ sum_shards bits ys
sum_shards-perm bits p = ∥∥₁_elim p (ℕ_set _ _) (sum_shards-perm_d bits)

-- The keys that the answers of SCAN list.
abbrev pub listed : List Page → List Bytes
listed [] = []
listed (scan_fails ∷ pages) = listed pages
listed (keys ks fails ∷ pages) = ks ++ listed pages

abbrev pub IsServed : Page → Type 0
IsServed scan_fails = ⊥
IsServed (keys ks fails) = fails ≡ false

bit_count_shards-sum :
    (bits : Bytes → ℕ → Bool) (pages : List Page) (total : ℕ)
    → All IsServed pages
    → bit_count_shards bits pages total ≡ some (total + sum_shards bits (listed pages))
unfolding bit_count_shards sum_shards
bit_count_shards-sum bits [] total h = ground arith
bit_count_shards-sum bits (scan_fails ∷ pages) total (h, hs) = absurd h
bit_count_shards-sum bits (keys ks fails ∷ pages) total (h, hs) =
    rw
      (
        h,
        bit_count_shards-sum bits pages (total + sum_shards bits ks) hs,
        sum_shards-append bits ks (listed pages),
      )
      (ground (arith, add_assoc total (sum_shards bits ks) (sum_shards bits (listed pages))))

-- The shards of a bitmap, from the last one down.
abbrev pub shards : Bytes → Bytes → Bytes → ℕ → List Bytes
shards metric entity_type entity_id zero = []
shards metric entity_type entity_id (suc n) =
    bitmap_key metric entity_type entity_id n ∷ shards metric entity_type entity_id n

bit_count-chunk :
    (r : Redis) (metric entity_type entity_id : Bytes) (n : ℕ)
    → bit_count chunk_size (r.bits (bitmap_key metric entity_type entity_id n))
      ≡ bit_count chunk_size (λ j. is_set r metric (n * chunk_size + j) entity_type entity_id)
unfolding is_set
bit_count-chunk r m t i n = bit_count_congr chunk_size _ _ (λ j l.
    let c : chunk_of (n * chunk_size + j) ≡ n = unfold chunk_of in omega arith in
    let b : bit_of (n * chunk_size + j) ≡ j = unfold bit_of in omega arith in
    ap (λ x. r.bits (bitmap_key m t i x) j) (sym c)
    ∙ ap (r.bits (bitmap_key m t i (chunk_of (n * chunk_size + j)))) (sym b))

sum_shards-shards :
    (r : Redis) (metric entity_type entity_id : Bytes) (n : ℕ)
    → sum_shards r.bits (shards metric entity_type entity_id n)
      ≡ bit_count (n * chunk_size) (λ u. is_set r metric u entity_type entity_id)
unfolding sum_shards
sum_shards-shards r m t i zero = unfold bit_count in refl
sum_shards-shards r m t i (suc n) =
    rw (sum_shards-shards r m t i n, bit_count-chunk r m t i n)
      (add_comm _ _
        ∙ sym (bit_count-add (n * chunk_size) chunk_size (λ u. is_set r m u t i))
        ∙ ap (λ k. bit_count k (λ u. is_set r m u t i)) (omega arith))

-- The shards among those that are keys of Redis.
abbrev pub present : (Bytes → Bool) → List Bytes → List Bytes
present exists [] = []
present exists (k ∷ ks) = let rest = present exists ks in if exists k then k ∷ rest else rest

-- A key that Redis does not have has no bit set.
abbrev pub AreKeys : (Bytes → Bool) → Redis → Type 0
AreKeys exists r = (key : Bytes) → exists key ≡ false → (j : ℕ) → r.bits key j ≡ false

bit_count_none : (n : ℕ) (p : ℕ → Bool) → ((j : ℕ) → p j ≡ false) → bit_count n p ≡ 0
unfolding bit_count
bit_count_none zero p h = refl
bit_count_none (suc n) p h = rw (h n, bit_count_none n p h) refl

sum_shards-present :
    (r : Redis) (exists : Bytes → Bool) (ks : List Bytes)
    → AreKeys exists r
    → sum_shards r.bits (present exists ks) ≡ sum_shards r.bits ks
unfolding sum_shards
sum_shards-present r exists [] h = refl
sum_shards-present r exists (k ∷ ks) h = elim (Bool-cases (exists k)) [
  | inl b ↦ rw (b, sum_shards-present r exists ks h) refl
  | inr b ↦
      rw (b, sum_shards-present r exists ks h, bit_count_none chunk_size (r.bits k) (h k b))
        (sym (zero-add _))
]

-- Where SCAN lists each of the shards 0 to n - 1 that exist once, bitCountShards counts the users below
-- n * 65536 whose bit is set.
pub bit_count_shards-counts :
    (r : Redis) (exists : Bytes → Bool) (metric entity_type entity_id : Bytes) (n : ℕ)
    (pages : List Page)
    → AreKeys exists r
    → All IsServed pages
    → Perm (listed pages) (present exists (shards metric entity_type entity_id n))
    → bit_count_shards r.bits pages 0
      ≡ some (bit_count (n * chunk_size) (λ u. is_set r metric u entity_type entity_id))
bit_count_shards-counts r exists m t i n pages keyed h p =
    bit_count_shards-sum r.bits pages 0 h
    ∙ ap some (
        zero-add _
        ∙ sum_shards-perm r.bits p
        ∙ sum_shards-present r exists (shards m t i n) keyed
        ∙ sum_shards-shards r m t i n)
