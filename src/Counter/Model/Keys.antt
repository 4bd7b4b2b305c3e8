-- ===== src/Counter/Model/Keys.antt =====
-- The place of a user in the bitmap is unique, and the keys and members can be read back.
use zhiguang_go.Base.{
  ◌∙◌, false, ap, ℕ, ◌<◌, ◌≡◌, refl, ◌≢◌, Option, none, some, [], ◌∷◌, ◌++◌, arith, Bytes, codes,
  bytes_eq, bytes_eq_ne, cut, Lacks, cut_lem, cut-append, append-cancel,
}
use zhiguang_go.Base.Decimal.{two_64, format_uint-injective}
use mathlib.Core.List.{append_assoc}
use zhiguang_go.Counter.Model.{
  chunk_size, chunk_of, bit_of, bitmap_key, dirty_member, parse_dirty_member, both_present,
  name_to_idx, index_to_name, schema_len, colon,
}

-- The chunk and the bit of a user determine the user.
pub place-injective : (u v : ℕ) → chunk_of u ≡ chunk_of v → bit_of u ≡ bit_of v → u ≡ v
unfolding chunk_of bit_of
place-injective u v p q = omega arith

pub bit_of-lt : (u : ℕ) → bit_of u < chunk_size
unfolding bit_of
bit_of-lt u = omega arith

append_colon :
    (m t i : Bytes) (x : Bytes)
    → codes "bm:" ++ (m ++ (colon ∷ (t ++ (colon ∷ (i ++ (colon ∷ x))))))
      ≡ (codes "bm:" ++ m ++ (colon ∷ t) ++ (colon ∷ i)) ++ (colon ∷ x)
append_colon m t i x = simp append_assoc

-- Chunks of one entity and metric have different keys.
pub bitmap_key-injective :
    (m t i : Bytes) (c d : ℕ)
    → c < two_64
    → d < two_64
    → bitmap_key m t i c ≡ bitmap_key m t i d
    → c ≡ d
unfolding bitmap_key
bitmap_key-injective m t i c d hc hd e = format_uint-injective c d hc hd (
    append-cancel (colon ∷ []) _ _ (
      append-cancel i _ _ (
        append-cancel (colon ∷ []) _ _ (
          append-cancel t _ _ (
            append-cancel (colon ∷ []) _ _
              (append-cancel m _ _ (append-cancel (codes "bm:") _ _ e)))))))

-- Two users share a bit of one bitmap only if they are the same user.
pub place_unique :
    (m t i : Bytes) (u v : ℕ)
    → u < two_64
    → v < two_64
    → bitmap_key m t i (chunk_of u) ≡ bitmap_key m t i (chunk_of v)
    → bit_of u ≡ bit_of v
    → u ≡ v
place_unique m t i u v hu hv k b =
    place-injective u v (bitmap_key-injective m t i _ _ (chunk_lt u hu) (chunk_lt v hv) k) b
  where
    chunk_lt : (u : ℕ) → u < two_64 → chunk_of u < two_64
    chunk_lt u h = unfold chunk_of in omega arith

both_present_lem :
    (t i : Bytes)
    → bytes_eq t [] ≡ false
    → bytes_eq i [] ≡ false
    → both_present (some (t, i)) ≡ some (t, i)
unfolding both_present
both_present_lem t i h k = rw (h, k)

-- A repair member is read back, when the type has no colon and neither part is empty.
pub parse_dirty_member-dirty_member :
    (t i : Bytes)
    → Lacks b':' t
    → t ≢ []
    → i ≢ []
    → parse_dirty_member (dirty_member t i) ≡ some (t, i)
unfolding parse_dirty_member dirty_member
parse_dirty_member-dirty_member t i h nt ni =
    ap both_present (cut_lem colon t i h)
    ∙ both_present_lem t i (bytes_eq_ne t [] nt) (bytes_eq_ne i [] ni)

parts_of_member :
    (member : Bytes) (r : Option (Bytes × Bytes)) (t i : Bytes)
    → cut colon member ≡ r
    → both_present r ≡ some (t, i)
    → t ++ (colon ∷ i) ≡ member
unfolding both_present
parts_of_member member none t i e h = cc
parts_of_member member (some (a, b)) t i e h = ground (arith, cut-append colon member a b e)

-- Whatever is read back from a member names the same Redis hash.
pub dirty_member-parse_dirty_member :
    (member t i : Bytes) → parse_dirty_member member ≡ some (t, i) → dirty_member t i ≡ member
unfolding parse_dirty_member dirty_member
dirty_member-parse_dirty_member member t i h = parts_of_member member (cut colon member) t i refl h

-- The slots and the names of the schema are inverse to each other.
pub name_to_idx-index_to_name : (i : ℕ) → i < schema_len → name_to_idx (index_to_name i) ≡ i
unfolding name_to_idx index_to_name bytes_eq
name_to_idx-index_to_name i h = ground arith

both_present-inverse :
    (r : Option (Bytes × Bytes)) (t i : Bytes) → both_present r ≡ some (t, i) → r ≡ some (t, i)
unfolding both_present
both_present-inverse none t i h = cc
both_present-inverse (some (a, b)) t i h = ground arith

-- The parts of a member that can be read are the texts before and after its first colon.
pub cut-parse_dirty_member :
    (member t i : Bytes) → parse_dirty_member member ≡ some (t, i) → cut b':' member ≡ some (t, i)
unfolding parse_dirty_member
cut-parse_dirty_member member t i h = both_present-inverse (cut b':' member) t i h
