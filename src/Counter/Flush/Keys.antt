-- ===== src/Counter/Flush/Keys.antt =====
-- The keys of the script: the index of an entity leads to its counter hash and to its marker.
use zhiguang_go.Base.{
  ℕ, zero, suc, ◌+◌, ◌<◌, ◌≡◌, refl, sym, ap, ◌∙◌, subst, inl, inr, true, false, ◌||◌, Option, some,
  List, [], ◌∷◌, ◌++◌, map, arith, Bool-cases, length, get_elem?, All, Bytes, codes, bytes_eq,
  bytes_eq_iff,
}
use mathlib.Core.Bool.{false≢true}
use zhiguang_go.Counter.Model.{dirty_member, parse_dirty_member, sds_key, rebuild_marker_key}
use zhiguang_go.Counter.Model.Keys.{dirty_member-parse_dirty_member, cut-parse_dirty_member}
use zhiguang_go.Counter.Batch.{Batch, contains}
use zhiguang_go.Counter.Flush.{
  insert_sorted, sort_strings, add_key, cnt_keys_from, index_of, marker_of_key, marker_of_parts,
  cnt_keys,
}

abbrev pub Readable : Bytes → Type 0
Readable m = (parts : Bytes × Bytes) × (parse_dirty_member m ≡ some parts)

contains-insert_sorted :
    (k m : Bytes) (xs : List Bytes)
    → contains k (insert_sorted m xs) ≡ (bytes_eq k m || contains k xs)
unfolding contains insert_sorted
contains-insert_sorted k m [] = refl
contains-insert_sorted k m (x ∷ xs) = ground (arith, contains-insert_sorted k m xs)

contains-sort_strings : (k : Bytes) (xs : List Bytes) → contains k (sort_strings xs) ≡ contains k xs
unfolding contains sort_strings
contains-sort_strings k [] = refl
contains-sort_strings k (x ∷ xs) =
    contains-insert_sorted k x (sort_strings xs)
    ∙ ap (λ b. bytes_eq k x || b) (contains-sort_strings k xs)

All-insert_sorted :
    (P : Bytes → Type 0) (m : Bytes) (xs : List Bytes) → P m → All P xs → All P (insert_sorted m xs)
unfolding insert_sorted
All-insert_sorted P m [] p ps = (p, tt)
All-insert_sorted P m (x ∷ xs) p ps = ground (arith, All-insert_sorted P m xs p ps.1)

All-sort_strings : (P : Bytes → Type 0) (xs : List Bytes) → All P xs → All P (sort_strings xs)
unfolding sort_strings
All-sort_strings P [] ps = tt
All-sort_strings P (x ∷ xs) ps =
    All-insert_sorted P x (sort_strings xs) ps.0 (All-sort_strings P xs ps.1)

sds_key_of_member :
    (m t i : Bytes) → parse_dirty_member m ≡ some (t, i) → sds_key t i ≡ codes "cnt:" ++ m
unfolding sds_key dirty_member
sds_key_of_member m t i h =
    ap (λ (x : Bytes). codes "cnt:" ++ x) (dirty_member-parse_dirty_member m t i h)

-- Where the member `k` stands in the keys from the position `i` on.
abbrev pub Located : ℕ → Bytes → List Bytes × List (Bytes × ℕ) → Type 0
Located i k x = (j : ℕ) × (index_of k x.1 ≡ i + j) × (get_elem? x.0 j ≡ some (codes "cnt:" ++ k))

add_key-Located :
    (k : Bytes) (i : ℕ) (m t id : Bytes) (rest : List Bytes × List (Bytes × ℕ))
    → parse_dirty_member m ≡ some (t, id)
    → (bytes_eq k m ≡ false → Located (i + 1) k rest)
    → Located i k (add_key m i (some (t, id)) rest)
unfolding add_key index_of
add_key-Located k i m t id rest e ih = elim (Bool-cases (bytes_eq k m)) [
  | inl same ↦ (
    0,
    rw same (omega arith),
    ap some (
        sds_key_of_member m t id e
        ∙ ap (λ (x : Bytes). codes "cnt:" ++ x) (sym ((bytes_eq_iff k m).0 same))),
  )
  | inr other ↦ let (j, at_j, key) = ih other in (suc j, rw other (omega arith), key)
]

cnt_keys_from-Located :
    (k : Bytes) (i : ℕ) (ms : List Bytes)
    → All Readable ms
    → contains k ms ≡ true
    → Located i k (cnt_keys_from i ms)
unfolding contains cnt_keys_from
cnt_keys_from-Located k i [] rs h = absurd (false≢true h)
cnt_keys_from-Located k i (m ∷ ms) (((t, id), e), rs) h =
    subst (λ (x : Option (Bytes × Bytes)). Located i k (add_key m i x (cnt_keys_from (i + 1) ms)))
      (sym e)
      (add_key-Located k i m t id (cnt_keys_from (i + 1) ms) e
        λ other. cnt_keys_from-Located k (i + 1) ms rs (rw other at h))

-- The marker that belongs to the hash of a member.
marker_of_key_lem :
    (m : Bytes) → Readable m → marker_of_key (codes "cnt:" ++ m) ≡ codes "rebuilding:" ++ m
unfolding marker_of_key marker_of_parts rebuild_marker_key dirty_member
marker_of_key_lem m ((t, i), e) =
    rw (cut-parse_dirty_member m t i e)
      (ap (λ (x : Bytes). codes "rebuilding:" ++ x) (dirty_member-parse_dirty_member m t i e))

get_elem?-map :
    {A B : Type 0} (f : A → B) (xs : List A) (j : ℕ) (a : A)
    → get_elem? xs j ≡ some a
    → get_elem? (map f xs) j ≡ some (f a)
get_elem?-map f [] j a h = cc
get_elem?-map f (x ∷ xs) zero a h = cc
get_elem?-map f (x ∷ xs) (suc j) a h = get_elem?-map f xs j a h

get_elem?-lt : {A : Type 0} (xs : List A) (j : ℕ) (a : A) → get_elem? xs j ≡ some a → j < length xs
get_elem?-lt [] j a h = cc
get_elem?-lt (x ∷ xs) zero a h = omega arith
get_elem?-lt (x ∷ xs) (suc j) a h = omega (arith, get_elem?-lt xs j a h)

-- The place of a member in the keys of a batch.
pub record Placed (keys : List Bytes) (j : ℕ) (t i : Bytes) : Type 0 where
  pub within : j < length keys
  pub key : get_elem? keys j ≡ some (sds_key t i)
  pub marker : get_elem? (map marker_of_key keys) j ≡ some (rebuild_marker_key t i)

member-Readable :
    (k : Bytes) (ms : List Bytes) → All Readable ms → contains k ms ≡ true → Readable k
unfolding contains
member-Readable k [] rs h = absurd (false≢true h)
member-Readable k (m ∷ ms) rs h = elim (Bool-cases (bytes_eq k m)) [
  | inl same ↦ subst Readable (sym ((bytes_eq_iff k m).0 same)) rs.0
  | inr other ↦ member-Readable k ms rs.1 (rw other at h)
]

-- Every entity of a batch is found at its index, with its counter hash and its repair marker.
pub cnt_keys-Placed :
    (b : Batch) (t i : Bytes)
    → All Readable b.entities
    → contains (dirty_member t i) b.entities ≡ true
    → Placed (cnt_keys b).0 (index_of (dirty_member t i) (cnt_keys b).1) t i
unfolding cnt_keys sds_key rebuild_marker_key dirty_member
cnt_keys-Placed b t i rs h =
    let k = dirty_member t i in
    let sorted = sort_strings b.entities in
    let (j, at_j, key) =
      cnt_keys_from-Located k 0 sorted (All-sort_strings Readable b.entities rs)
        (contains-sort_strings k b.entities ∙ h) in
    let same : index_of k (cnt_keys_from 0 sorted).1 ≡ j = omega arith in
    record {
      within = rw same (get_elem?-lt (cnt_keys_from 0 sorted).0 j _ key);
      key = rw same key;
      marker = rw same (
          get_elem?-map marker_of_key (cnt_keys_from 0 sorted).0 j _ key
          ∙ ap some (marker_of_key_lem k (member-Readable k b.entities rs h)));
    }
