-- ===== src/Pkg/RateLimiter/Members.antt =====
-- The members of the sorted set: what ZADD adds and what a window keeps.
use zhiguang_go.Base.{
  ℕ, ◌+◌, ◌≤◌, ◌≡◌, refl, inl, inr, Bool, false, ◌||◌, [], ◌∷◌, arith, if◌then◌else◌, Bool-cases,
  length, keep, All, Bytes, bytes_eq,
}
use zhiguang_go.Pkg.RateLimiter.{ZSet, in_window, z_add}

-- whether a member is in the set
unfoldable pub has : Bytes → ZSet → Bool
has member [] = false
has member ((m, s) ∷ z) = bytes_eq m member || has member z

pub z_add-new :
    (p : Bytes × ℕ → Bool) (member : Bytes) (score : ℕ) (z : ZSet)
    → has member z ≡ false
    → length (keep p (z_add member score z))
      ≡ length (keep p z) + (if p (member, score) then 1 else 0)
unfolding z_add has
z_add-new p member score [] h = ground arith
z_add-new p member score ((m, s) ∷ z) h = elim (Bool-cases (bytes_eq m member)) [
  | inl b ↦ ground (arith, b)
  | inr b ↦
      let rest = z_add-new p member score z (ground arith) in
      rw (b) (counted p (m, s) (keep p (z_add member score z)) (keep p z) _ rest)
]
  where
    counted :
        (p : Bytes × ℕ → Bool) (x : Bytes × ℕ) (ys zs : ZSet) (k : ℕ)
        → length ys ≡ length zs + k
        → length (if p x then x ∷ ys else ys) ≡ length (if p x then x ∷ zs else zs) + k
    counted p x ys zs k h = elim (Bool-cases (p x)) [
      | inl b ↦ rw (b) (omega arith)
      | inr b ↦ rw (b) h
    ]

pub has-keep :
    (p : Bytes × ℕ → Bool) (m : Bytes) (z : ZSet) → has m z ≡ false → has m (keep p z) ≡ false
unfolding has
has-keep p m [] h = refl
has-keep p m (x ∷ z) h = elim (Bool-cases (p x)) [
  | inl b ↦ rw (b) (ground (arith, has-keep p m z))
  | inr b ↦ rw (b) (has-keep p m z (ground arith))
]

pub has-z_add :
    (member m : Bytes) (score : ℕ) (z : ZSet)
    → bytes_eq member m ≡ false
    → has m z ≡ false
    → has m (z_add member score z) ≡ false
unfolding has z_add
has-z_add member m score [] h k = ground arith
has-z_add member m score ((x, s) ∷ z) h k = ground (arith, has-z_add member m score z)

-- later windows hold what is left of earlier ones
pub keep-in_window :
    (n t w : ℕ) (z : ZSet)
    → n ≤ t
    → keep (in_window t w) (keep (in_window n w) z) ≡ keep (in_window t w) z
keep-in_window n t w [] h = refl
keep-in_window n t w ((m, s) ∷ z) h = ground (arith, keep-in_window n t w z)

pub All-z_add :
    (P : Bytes × ℕ → Type 0) (member : Bytes) (score : ℕ) (z : ZSet)
    → P (member, score)
    → All P z
    → All P (z_add member score z)
unfolding z_add
All-z_add P member score [] p h = (p, tt)
All-z_add P member score ((m, s) ∷ z) p (q, qs) = elim (Bool-cases (bytes_eq m member)) [
  | inl b ↦ rw (b) (p, qs)
  | inr b ↦ rw (b) (q, All-z_add P member score z p qs)
]

pub length-z_add-le :
    (member : Bytes) (score : ℕ) (z : ZSet) → length (z_add member score z) ≤ length z + 1
unfolding z_add
length-z_add-le member score [] = omega arith
length-z_add-le member score ((m, s) ∷ z) = ground (arith, length-z_add-le member score z)
