-- ===== src/Counter/Likers/Scan/Bits.antt =====
-- The offsets of the bits that are set in a bitmap, as GETBIT reads them.
use zhiguang_go.Base.{
  ℕ, zero, suc, ◌+◌, ◌-◌, ◌*◌, ◌/◌, ◌%◌, ◌^◌, ◌≤◌, ◌<◌, ◌≡◌, refl, sym, ap, ◌∙◌, inl, inr, Bool,
  true, false, not, Option, none, some, List, [], ◌∷◌, ◌++◌, arith, ◌==◌, if◌then◌else◌, Bool-cases,
  length, get_elem?, keep, Bytes,
}
use mathlib.Core.Path.{ap₂}

-- Whether the bit at the offset is set, the first bit of a byte being its highest.
abbrev pub bit_in : Option ℕ → ℕ → Bool
bit_in none j = false
bit_in (some b) j = not ((b / 2 ^ (7 - j)) % 2 == 0)

abbrev pub bit_at : Bytes → ℕ → Bool
bit_at bm o = bit_in (get_elem? bm (o / 8)) (o % 8)

abbrev pub range_from : ℕ → ℕ → List ℕ
range_from a zero = []
range_from a (suc n) = a ∷ range_from (a + 1) n

-- The set bits of a byte, and of the bytes from the one with index `i` on.
unfoldable pub byte_offsets : (b base left : ℕ) → List ℕ
byte_offsets b base zero = []
byte_offsets b base (suc k) =
    let rest = byte_offsets b base k in
    if (b / 2 ^ k) % 2 == 0 then rest else (base + (7 - k)) ∷ rest

unfoldable pub offsets : ℕ → Bytes → List ℕ
offsets i [] = []
offsets i (b ∷ bs) = byte_offsets b (i * 8) 8 ++ offsets (i + 1) bs

pub byte_offsets_clear :
    (b base k : ℕ)
    → ((b / 2 ^ k) % 2 == 0) ≡ true
    → byte_offsets b base (suc k) ≡ byte_offsets b base k
unfolding byte_offsets
byte_offsets_clear b base k h = rw (h) refl

pub byte_offsets_set :
    (b base k : ℕ)
    → ((b / 2 ^ k) % 2 == 0) ≡ false
    → byte_offsets b base (suc k) ≡ (base + (7 - k)) ∷ byte_offsets b base k
unfolding byte_offsets
byte_offsets_set b base k h = rw (h) refl

range_from-append : (a m n : ℕ) → range_from a (m + n) ≡ range_from a m ++ range_from (a + m) n
range_from-append a zero n =
    ap (λ k. range_from a k) (omega arith) ∙ ap (λ b. range_from b n) (omega arith)
range_from-append a (suc m) n =
    let longer : suc m + n ≡ suc (m + n) = omega arith in
    let further : a + 1 + m ≡ a + suc m = omega arith in
    ap (λ k. range_from a k) longer
    ∙ ap (◌∷◌ a)
        (range_from-append (a + 1) m n ∙ ap (λ b. range_from (a + 1) m ++ range_from b n) further)

pub keep-append : (p : ℕ → Bool) (xs ys : List ℕ) → keep p (xs ++ ys) ≡ keep p xs ++ keep p ys
keep-append p [] ys = refl
keep-append p (x ∷ xs) ys = elim (Bool-cases (p x)) [
  | inl b ↦ rw (b) (ap (◌∷◌ x) (keep-append p xs ys))
  | inr b ↦ rw (b) (keep-append p xs ys)
]

-- The predicate tells the bits of the byte at `base`.
abbrev Tells : (ℕ → Bool) → ℕ → ℕ → Type 0
Tells p base b = (j : ℕ) → j < 8 → p (base + j) ≡ not ((b / 2 ^ (7 - j)) % 2 == 0)

byte_offsets-keep :
    (p : ℕ → Bool) (b base k : ℕ)
    → k ≤ 8
    → Tells p base b
    → byte_offsets b base k ≡ keep p (range_from (base + (8 - k)) k)
byte_offsets-keep p b base zero h t = unfold byte_offsets in refl
byte_offsets-keep p b base (suc k) h t =
    let here : p (base + (7 - k)) ≡ not ((b / 2 ^ k) % 2 == 0) =
      t (7 - k) (omega arith) ∙ ap (λ e. not ((b / 2 ^ e) % 2 == 0)) (omega arith) in
    let rest : byte_offsets b base k ≡ keep p (range_from (base + (7 - k) + 1) k) =
      byte_offsets-keep p b base k (omega arith) t
      ∙ ap (λ a. keep p (range_from a k)) (omega arith) in
    let start : base + (8 - suc k) ≡ base + (7 - k) = omega arith in
    rw (start, here)
      (elim (Bool-cases ((b / 2 ^ k) % 2 == 0)) [
        | inl clear ↦ byte_offsets_clear b base k clear ∙ rw (clear) rest
        | inr set ↦ byte_offsets_set b base k set ∙ rw (set) (ap (◌∷◌ (base + (7 - k))) rest)
      ])

bit_at_head : (b j : ℕ) (bs : Bytes) → j < 8 → bit_at (b ∷ bs) j ≡ not ((b / 2 ^ (7 - j)) % 2 == 0)
bit_at_head b j bs h =
    let first : j / 8 ≡ 0 = omega arith in
    let place : j % 8 ≡ j = omega arith in ap₂ (λ k. bit_in (get_elem? (b ∷ bs) k)) first place

bit_at_tail : (b o : ℕ) (bs : Bytes) → bit_at (b ∷ bs) (8 + o) ≡ bit_at bs o
bit_at_tail b o bs =
    let next : (8 + o) / 8 ≡ suc (o / 8) = omega arith in
    let place : (8 + o) % 8 ≡ o % 8 = omega arith in
    ap₂ (λ k. bit_in (get_elem? (b ∷ bs) k)) next place

offsets-keep :
    (p : ℕ → Bool) (i : ℕ) (bs : Bytes)
    → ((o : ℕ) → p (i * 8 + o) ≡ bit_at bs o)
    → offsets i bs ≡ keep p (range_from (i * 8) (8 * length bs))
unfolding offsets
offsets-keep p i [] h = refl
offsets-keep p i (b ∷ bs) h =
    let more : 8 * suc (length bs) ≡ 8 + 8 * length bs = omega arith in
    let here : byte_offsets b (i * 8) 8 ≡ keep p (range_from (i * 8) 8) =
      byte_offsets-keep p b (i * 8) 8 (omega arith) (λ j l. h j ∙ bit_at_head b j bs l)
      ∙ ap (λ a. keep p (range_from a 8)) (omega arith) in
    let later : offsets (i + 1) bs ≡ keep p (range_from (i * 8 + 8) (8 * length bs)) =
      offsets-keep p (i + 1) bs (λ o. ap p (omega arith) ∙ h (8 + o) ∙ bit_at_tail b o bs)
      ∙ ap (λ a. keep p (range_from a (8 * length bs))) (omega arith) in
    ap₂ ◌++◌ here later
    ∙ sym (keep-append p (range_from (i * 8) 8) (range_from (i * 8 + 8) (8 * length bs)))
    ∙ ap (keep p)
        (sym (range_from-append (i * 8) 8 (8 * length bs)) ∙ ap (range_from (i * 8)) (sym more))

-- The offsets of a bitmap are those of its bits that are set, in order.
pub offsets-bit_at : (bm : Bytes) → offsets 0 bm ≡ keep (bit_at bm) (range_from 0 (8 * length bm))
offsets-bit_at bm =
    offsets-keep (bit_at bm) 0 bm (λ o. ap (bit_at bm) (omega arith))
    ∙ ap (λ a. keep (bit_at bm) (range_from a (8 * length bm))) (omega arith)
