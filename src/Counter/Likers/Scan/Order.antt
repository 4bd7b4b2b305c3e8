-- ===== src/Counter/Likers/Scan/Order.antt =====
-- The scan of a shard fills the page with the users of the shard, in order.
use zhiguang_go.Base.{
  ℕ, zero, suc, ◌+◌, ◌-◌, ◌*◌, ◌/◌, ◌%◌, ◌^◌, ◌≡◌, refl, sym, ap, ◌∙◌, inl, inr, Bool, true, false,
  not, ◌&&◌, List, [], ◌∷◌, ◌++◌, map, arith, ltb, leb, ◌==◌, if◌then◌else◌, ==_iff, Bool-cases,
  length, take, keep, length-append, Bytes,
}
use native.Mathlib.Nat.{zero-div}
use mathlib.Core.List.{append_assoc, append-nil}
use zhiguang_go.Counter.Likers.Scan.{scan_bits, scan_bytes}
use zhiguang_go.Counter.Likers.Scan.Bits.{
  byte_offsets, offsets, byte_offsets_clear, byte_offsets_set,
}
use zhiguang_go.Counter.Model.{chunk_size}

-- takes users while the page is not full
unfoldable pub fill : ℕ → List ℕ → List ℕ → List ℕ
fill need items [] = items
fill need items (x ∷ xs) =
    let rest = fill need (items ++ x ∷ []) xs in if leb need (length items) then items else rest

pub fill_full :
    (need : ℕ) (items xs : List ℕ) → leb need (length items) ≡ true → fill need items xs ≡ items
unfolding fill
fill_full need items [] h = refl
fill_full need items (x ∷ xs) h = rw (h) refl

pub fill-append :
    (need : ℕ) (items xs ys : List ℕ)
    → fill need items (xs ++ ys) ≡ fill need (fill need items xs) ys
unfolding fill
fill-append need items [] ys = refl
fill-append need items (x ∷ xs) ys = elim (Bool-cases (leb need (length items))) [
  | inl b ↦ rw (b) (sym (fill_full need items ys b))
  | inr b ↦ rw (b) (fill-append need (items ++ x ∷ []) xs ys)
]

take-nil : (n : ℕ) → take n (let e : List ℕ = [] in e) ≡ []
take-nil zero = refl
take-nil (suc n) = refl

pub fill-take :
    (need : ℕ) (items xs : List ℕ) → fill (length items + need) items xs ≡ items ++ take need xs
unfolding fill
fill-take need items [] = sym (ap (◌++◌ items) (take-nil need) ∙ append-nil items)
fill-take zero items (x ∷ xs) =
    let full : leb (length items + 0) (length items) ≡ true = ground arith in
    rw (full) (sym (append-nil items))
fill-take (suc n) items (x ∷ xs) =
    let open_yet : leb (length items + suc n) (length items) ≡ false = ground arith in
    let more : length items + suc n ≡ length (items ++ x ∷ []) + n =
      omega (arith, length-append {0} items (x ∷ [])) in
    rw (open_yet) (
      ap (λ k. fill k (items ++ x ∷ []) xs) more
      ∙ fill-take n (items ++ x ∷ []) xs
      ∙ append_assoc items (x ∷ []) (take n xs))

-- The users of a shard at the offsets that count: not before `first`, and not the user 0.
abbrev pub counts : ℕ → ℕ → ℕ → Bool
counts first chunk o = leb first o && not (chunk * chunk_size + o == 0)

abbrev pub users_at : ℕ → ℕ → List ℕ → List ℕ
users_at first chunk os = map (λ o. chunk * chunk_size + o) (keep (counts first chunk) os)

pub users_at-append :
    (first chunk : ℕ) (xs ys : List ℕ)
    → users_at first chunk (xs ++ ys) ≡ users_at first chunk xs ++ users_at first chunk ys
users_at-append first chunk [] ys = refl
users_at-append first chunk (x ∷ xs) ys = elim (Bool-cases (counts first chunk x)) [
  | inl b ↦ rw (b) (ap (◌∷◌ (chunk * chunk_size + x)) (users_at-append first chunk xs ys))
  | inr b ↦ rw (b) (users_at-append first chunk xs ys)
]

fill-cons :
    (need x : ℕ) (items xs : List ℕ)
    → leb need (length items) ≡ false
    → fill need items (x ∷ xs) ≡ fill need (items ++ x ∷ []) xs
unfolding fill
fill-cons need x items xs h = rw (h) refl

-- the users so far, and whether the page is full
abbrev page : ℕ → List ℕ → List ℕ × Bool
page need items = (items, leb need (length items))

scan_bits-fill :
    (b base first chunk need k : ℕ) (items : List ℕ)
    → leb need (length items) ≡ false
    → scan_bits b base first chunk need k items
      ≡ page need (fill need items (users_at first chunk (byte_offsets b base k)))
unfolding scan_bits
scan_bits-fill b base first chunk need zero items h =
    unfold fill byte_offsets in ap (λ f. (items, f)) (sym h)
scan_bits-fill b base first chunk need (suc k) items h =
    let offset = base + (7 - k) in
    let user_id = chunk * chunk_size + offset in
    let skip = scan_bits-fill b base first chunk need k items h in
    elim (Bool-cases ((b / 2 ^ k) % 2 == 0)) [
      | inl clear ↦ rw (clear, byte_offsets_clear b base k clear) skip
      | inr set ↦ elim (Bool-cases (ltb offset first)) [
        | inl before ↦
            let out : leb first offset ≡ false = ground arith in
            rw (set, before, byte_offsets_set b base k set, out) skip
        | inr after ↦
            let reached : leb first offset ≡ true = ground arith in
            elim (Bool-cases (user_id == 0)) [
              | inl z ↦ rw (set, after, byte_offsets_set b base k set, reached, z) skip
              | inr nz ↦
                  rw
                    (
                      set,
                      after,
                      byte_offsets_set b base k set,
                      reached,
                      nz,
                      fill-cons need user_id items (users_at first chunk (byte_offsets b base k)) h,
                    )
                    (elim (Bool-cases (leb need (length (items ++ user_id ∷ [])))) [
                      | inl full ↦
                          rw
                            (
                              full,
                              fill_full need (items ++ user_id ∷ [])
                                  (users_at first chunk (byte_offsets b base k)) full,
                            )
                            (ap (λ f. (items ++ user_id ∷ [], f)) (sym full))
                      | inr open_yet ↦ rw (open_yet) (
                          scan_bits-fill b base first chunk need k (items ++ user_id ∷ []) open_yet)
                    ])
            ]
      ]
    ]

byte_offsets_zero : (base k : ℕ) → byte_offsets 0 base k ≡ []
byte_offsets_zero base zero = unfold byte_offsets in refl
byte_offsets_zero base (suc k) =
    let clear : ((0 / 2 ^ k) % 2 == 0) ≡ true = rw (zero-div) refl in
    byte_offsets_clear 0 base k clear ∙ byte_offsets_zero base k

pub scan_bytes-fill :
    (i first chunk need : ℕ) (bs : Bytes) (items : List ℕ)
    → leb need (length items) ≡ false
    → scan_bytes i first chunk need bs items ≡ fill need items (users_at first chunk (offsets i bs))
unfolding scan_bytes offsets
scan_bytes-fill i first chunk need [] items h = unfold fill in refl
scan_bytes-fill i first chunk need (b ∷ bs) items h =
    let here = byte_offsets b (i * 8) 8 in
    let later = offsets (i + 1) bs in
    elim (Bool-cases (b == 0)) [
      | inl z ↦
          let none_set : here ≡ [] =
            ap (λ x. byte_offsets x (i * 8) 8) ((==_iff b 0).0 z) ∙ byte_offsets_zero (i * 8) 8 in
          rw (z, none_set) (scan_bytes-fill (i + 1) first chunk need bs items h)
      | inr nz ↦
          rw
            (
              nz,
              scan_bits-fill b (i * 8) first chunk need 8 items h,
              users_at-append first chunk here later,
              fill-append need items (users_at first chunk here) (users_at first chunk later),
            )
            (elim (Bool-cases (leb need (length (fill need items (users_at first chunk here))))) [
              | inl full ↦ rw (full) (sym (fill_full need _ _ full))
              | inr open_yet ↦
                  rw (open_yet) (scan_bytes-fill (i + 1) first chunk need bs _ open_yet)
            ])
    ]
