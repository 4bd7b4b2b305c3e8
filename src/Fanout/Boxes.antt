-- ===== src/Fanout/Boxes.antt =====
-- The boxes of internal/fanout as sorted sets of Redis: what ZADD, ZREM and the trim by rank do to the
-- list of the entries from the newest to the oldest.
use zhiguang_go.Base.{
  ℕ, zero, suc, ◌≡◌, refl, sym, ap, ◌∙◌, inl, inr, Bool, true, false, not, ◌&&◌, ◌||◌, [], ◌∷◌, ltb,
  ◌==◌, if◌then◌else◌, Bool-cases, take, keep, All, All-take, Bytes, bytes_eq, bytes_eq_refl,
}
use zhiguang_go.Base.Int.{ℤ, ltb_ℤ, eq_ℤ}
use zhiguang_go.Fanout.Timeline.{ZSet}

unfoldable pub bytes_ltb : Bytes → Bytes → Bool
bytes_ltb [] [] = false
bytes_ltb [] (c ∷ y) = true
bytes_ltb (b ∷ x) [] = false
bytes_ltb (b ∷ x) (c ∷ y) = ltb b c || ((b == c) && bytes_ltb x y)

-- Whether ZREVRANGE gives the first entry before the second.
unfoldable pub precedes : Bytes × ℤ → Bytes × ℤ → Bool
unfolding bytes_ltb
precedes (m, s) (n, t) = ltb_ℤ t s || (eq_ℤ s t && bytes_ltb n m)

unfoldable pub place : Bytes × ℤ → ZSet → ZSet
place e [] = e ∷ []
place e (x ∷ xs) = if precedes e x then e ∷ x ∷ xs else x ∷ place e xs

-- ZREM
unfoldable pub z_rem : Bytes → ZSet → ZSet
z_rem member box = keep (λ x. not (bytes_eq x.0 member)) box

-- ZADD
unfoldable pub z_add : Bytes × ℤ → ZSet → ZSet
unfolding place z_rem
z_add e box = place e (z_rem e.0 box)

-- ZADD, and ZREMRANGEBYRANK from 0 to -(max + 1)
unfoldable pub push_item : ℕ → Bytes × ℤ → ZSet → ZSet
unfolding z_add
push_item max e box = take max (z_add e box)

-- No entry has the member.
abbrev pub Without : Bytes → ZSet → Type 0
Without m = All (λ x. bytes_eq x.0 m ≡ false)

z_rem-Without : (m : Bytes) (box : ZSet) → Without m (z_rem m box)
unfolding z_rem
z_rem-Without m [] = tt
z_rem-Without m (x ∷ xs) = elim (Bool-cases (bytes_eq x.0 m)) [
  | inl b ↦ rw (b) (z_rem-Without m xs)
  | inr b ↦ rw (b) (b, z_rem-Without m xs)
]

z_rem_id : (m : Bytes) (box : ZSet) → Without m box → z_rem m box ≡ box
unfolding z_rem
z_rem_id m [] w = refl
z_rem_id m (x ∷ xs) (b, w) = rw (b) (ap (◌∷◌ x) (z_rem_id m xs w))

take-take_self : (n : ℕ) (box : ZSet) → take n (take n box) ≡ take n box
take-take_self zero box = refl
take-take_self (suc n) [] = refl
take-take_self (suc n) (x ∷ xs) = ap (◌∷◌ x) (take-take_self n xs)

module _ (e : Bytes × ℤ) where
  z_rem_self : (xs : ZSet) → z_rem e.0 (e ∷ xs) ≡ z_rem e.0 xs
  unfolding z_rem
  z_rem_self xs = rw (bytes_eq_refl e.0) refl

  z_rem_other :
      (x : Bytes × ℤ) (xs : ZSet) → bytes_eq x.0 e.0 ≡ false → z_rem e.0 (x ∷ xs) ≡ x ∷ z_rem e.0 xs
  unfolding z_rem
  z_rem_other x xs b = rw (b) refl

  place_front : (x : Bytes × ℤ) (xs : ZSet) → precedes e x ≡ true → place e (x ∷ xs) ≡ e ∷ x ∷ xs
  unfolding place
  place_front x xs p = rw (p) refl

  place_past :
      (x : Bytes × ℤ) (xs : ZSet) → precedes e x ≡ false → place e (x ∷ xs) ≡ x ∷ place e xs
  unfolding place
  place_past x xs p = rw (p) refl

  take-place_front :
      (n : ℕ) (x : Bytes × ℤ) (xs : ZSet)
      → precedes e x ≡ true
      → take (suc n) (place e (take n (x ∷ xs))) ≡ e ∷ take n (x ∷ xs)
  unfolding place
  take-place_front zero x xs p = refl
  take-place_front (suc n) x xs p =
      ap (take (suc (suc n))) (place_front x (take n xs) p)
      ∙ ap (λ t. e ∷ x ∷ t) (take-take_self n xs)

  place_again :
      (n : ℕ) (xs : ZSet)
      → Without e.0 xs
      → take n (place e (z_rem e.0 (take n (place e xs)))) ≡ take n (place e xs)
  unfolding place z_rem
  place_again zero xs w = refl
  place_again (suc zero) [] w = ap (λ t. take 1 (place e t)) (z_rem_self [])
  place_again (suc (suc n)) [] w = ap (λ t. take (suc (suc n)) (place e t)) (z_rem_self [])
  place_again (suc n) (x ∷ xs) (b, w) = elim (Bool-cases (precedes e x)) [
    | inl p ↦
        let cut : z_rem e.0 (e ∷ take n (x ∷ xs)) ≡ take n (x ∷ xs) =
          z_rem_self (take n (x ∷ xs))
          ∙ z_rem_id e.0 (take n (x ∷ xs))
              (All-take (λ y. bytes_eq y.0 e.0 ≡ false) n (x ∷ xs) (b, w)) in
        ap (λ t. take (suc n) (place e (z_rem e.0 (take (suc n) t)))) (place_front x xs p)
        ∙ (ap (λ t. take (suc n) (place e t)) cut
            ∙ (take-place_front n x xs p ∙ sym (ap (take (suc n)) (place_front x xs p))))
    | inr p ↦
        ap (λ t. take (suc n) (place e (z_rem e.0 (take (suc n) t)))) (place_past x xs p)
        ∙ (ap (λ t. take (suc n) (place e t)) (z_rem_other x (take n (place e xs)) b)
            ∙ (ap (take (suc n)) (place_past x (z_rem e.0 (take n (place e xs))) p)
                ∙ (ap (◌∷◌ x) (place_again n xs w) ∙ sym (ap (take (suc n)) (place_past x xs p)))))
  ]

-- A second push of the same entry changes nothing.
pub push_item_again :
    (max : ℕ) (e : Bytes × ℤ) (box : ZSet)
    → push_item max e (push_item max e box) ≡ push_item max e box
unfolding push_item z_add
push_item_again max e box = place_again e max (z_rem e.0 box) (z_rem-Without e.0 box)
