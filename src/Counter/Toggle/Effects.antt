-- ===== src/Counter/Toggle/Effects.antt =====
-- What a toggle does to the state of a user, to that of the others, and to the event stream.
use zhiguang_go.Base.{
  ℕ, ◌<◌, ◌≡◌, ap, inl, inr, Bool, true, false, ◌&&◌, Option, none, some, arith, ◌==◌,
  if◌then◌else◌, ==_iff, Bool-cases, Bytes, codes, bytes_eq, bytes_eq_iff, bytes_eq_refl,
}
use zhiguang_go.Base.Decimal.{two_64, format_uint, format_uint-injective}
use zhiguang_go.Counter.Model.{chunk_of, bit_of, bitmap_key, likers_zset_key}
use zhiguang_go.Counter.Model.Keys.{place_unique}
use zhiguang_go.Counter.Toggle.{
  z_set, Redis, is_set, toggle_lua, Reply, changed, unchanged, set_bit,
}

abbrev pub op_of : Bool → Bytes
op_of on = if on then codes "add" else codes "remove"

unfoldable pub is_scored : Option ℕ → Bool
is_scored none = false
is_scored (some score) = true

-- Two users have the same place in the bitmaps of an entity only if they are the same user.
same_place :
    (m t i : Bytes) (u v : ℕ)
    → u < two_64
    → v < two_64
    → (bytes_eq (bitmap_key m t i (chunk_of u)) (bitmap_key m t i (chunk_of v))
        && (bit_of u == bit_of v))
      ≡ (u == v)
same_place m t i u v hu hv = elim (Bool-cases (u == v)) [
  | inl e ↦ ground (
    arith,
    ap (λ (n : ℕ). bitmap_key m t i (chunk_of n)) ((==_iff u v).0 e),
    ap bit_of ((==_iff u v).0 e),
    bytes_eq_refl (bitmap_key m t i (chunk_of u)),
  )
  | inr e ↦ ground (
    arith,
    place_unique m t i u v hu hv,
    bytes_eq_iff (bitmap_key m t i (chunk_of u)) (bitmap_key m t i (chunk_of v)),
  )
]

same_member :
    (u v : ℕ) → u < two_64 → v < two_64 → bytes_eq (format_uint u) (format_uint v) ≡ (u == v)
same_member u v hu hv = elim (Bool-cases (u == v)) [
  | inl e ↦ ground (arith, ap format_uint ((==_iff u v).0 e), bytes_eq_refl (format_uint u))
  | inr e ↦
      ground (arith, format_uint-injective u v hu hv, bytes_eq_iff (format_uint u) (format_uint v))
]

module _ (m t i : Bytes) where
  -- Redis after the script ran for the user `u`
  unfoldable pub toggle_redis : Redis → ℕ → ℕ → Bool → Reply × Redis
  toggle_redis r now u on =
      toggle_lua r (bitmap_key m t i (chunk_of u)) (likers_zset_key m t i) (bit_of u) (op_of on)
        (format_uint u) now

  -- The script sets the state of `u` and leaves that of the other users.
  pub is_set-toggle_redis :
      (r : Redis) (now u v : ℕ) (on : Bool)
      → u < two_64
      → v < two_64
      → is_set (toggle_redis r now u on).1 m v t i ≡ (if u == v then on else is_set r m v t i)
  unfolding toggle_redis toggle_lua is_set bytes_eq set_bit
  is_set-toggle_redis r now u v on hu hv = ground (
    arith,
    same_place m t i u v hu hv,
    ap (λ (n : ℕ). bitmap_key m t i (chunk_of n)) {x = u} {y = v},
    ap bit_of {x = u} {y = v},
  )

  -- The script answers 1 exactly when the state of the user was another.
  pub toggle_redis-changed :
      (r : Redis) (now u : ℕ) (on : Bool)
      → (toggle_redis r now u on).0 ≡ (
          if is_set r m u t i
          then (if on then unchanged else changed)
          else (if on then changed else unchanged))
  unfolding toggle_redis toggle_lua is_set bytes_eq
  toggle_redis-changed r now u true = ground arith
  toggle_redis-changed r now u false = ground arith

  unfoldable pub is_member : Redis → ℕ → Bool
  is_member r u = is_scored (r.zset (likers_zset_key m t i) (format_uint u))

  -- The bit of a user and its membership in the time index say the same.
  abbrev pub InStep : Redis → ℕ → Type 0
  InStep r v = is_set r m v t i ≡ is_member r v

  -- The script keeps the bitmap and the time index in step, for every user.
  pub toggle_redis-InStep :
      (r : Redis) (now u v : ℕ) (on : Bool)
      → u < two_64
      → v < two_64
      → InStep r v
      → InStep (toggle_redis r now u on).1 v
  unfolding toggle_redis toggle_lua is_set is_member is_scored bytes_eq set_bit z_set
  toggle_redis-InStep r now u v on hu hv h = ground (
    arith,
    same_place m t i u v hu hv,
    same_member u v hu hv,
    bytes_eq_refl (likers_zset_key m t i),
    ap (λ (n : ℕ). bitmap_key m t i (chunk_of n)) {x = u} {y = v},
    ap bit_of {x = u} {y = v},
    ap format_uint {x = u} {y = v},
  )
