-- ===== src/Counter/Likers/Scan/Found.antt =====
-- The page of likers that the scan of the bitmap finds.
use zhiguang_go.Base.{
  ℕ, zero, suc, ◌+◌, ◌-◌, ◌*◌, ◌/◌, ◌%◌, ◌^◌, ◌≤◌, ◌<◌, ◌≡◌, refl, sym, ap, ◌∙◌, subst, ◌≢◌, inl,
  inr, true, false, List, [], ◌∷◌, ◌++◌, map, arith, ltb, leb, ◌==◌, Bool-cases, length, keep, All,
  Bytes,
}
use zhiguang_go.Base.{All-keep}
use zhiguang_go.Counter.Model.{chunk_size}
use zhiguang_go.Counter.Likers.Scan.{drop, first_offset, append_likers_from_chunk}
use zhiguang_go.Counter.Likers.Scan.Bits.{
  byte_offsets, byte_offsets_clear, byte_offsets_set, offsets, bit_at, range_from, offsets-bit_at,
}
use zhiguang_go.Counter.Likers.Scan.Order.{fill, counts, users_at, users_at-append, scan_bytes-fill}

-- The users whose bit is set in the shard, and in `n` shards from `chunk` on.
abbrev pub users_of : ℕ → Bytes → List ℕ
users_of chunk bm =
    map (λ o. chunk * chunk_size + o) (keep (bit_at bm) (range_from 0 (8 * length bm)))

abbrev pub users_from : (ℕ → Bytes) → ℕ → ℕ → List ℕ
users_from shard chunk zero = []
users_from shard chunk (suc n) = users_of chunk (shard chunk) ++ users_from shard (chunk + 1) n

abbrev pub above : ℕ → List ℕ → List ℕ
above cursor = keep (ltb cursor)

early_byte :
    (b base first chunk k : ℕ)
    → k ≤ 8
    → base + 8 ≤ first
    → users_at first chunk (byte_offsets b base k) ≡ []
early_byte b base first chunk zero h l = unfold byte_offsets in refl
early_byte b base first chunk (suc k) h l =
    let early : leb first (base + (7 - k)) ≡ false = ground arith in
    elim (Bool-cases ((b / 2 ^ k) % 2 == 0)) [
      | inl clear ↦
          rw (byte_offsets_clear b base k clear) (early_byte b base first chunk k (omega arith) l)
      | inr set ↦
          rw (byte_offsets_set b base k set, early)
            (early_byte b base first chunk k (omega arith) l)
    ]

offsets_next :
    (i first chunk b : ℕ) (bs : Bytes)
    → users_at first chunk (byte_offsets b (i * 8) 8) ≡ []
    → users_at first chunk (offsets i (b ∷ bs)) ≡ users_at first chunk (offsets (i + 1) bs)
unfolding offsets
offsets_next i first chunk b bs e =
    users_at-append first chunk (byte_offsets b (i * 8) 8) (offsets (i + 1) bs)
    ∙ ap (λ us. us ++ users_at first chunk (offsets (i + 1) bs)) e

-- Skipping the bytes before the first offset loses no user.
users_at-drop :
    (d i first chunk : ℕ) (bs : Bytes)
    → (i + d) * 8 ≤ first
    → users_at first chunk (offsets (i + d) (drop d bs)) ≡ users_at first chunk (offsets i bs)
users_at-drop zero i first chunk bs h = ap (λ j. users_at first chunk (offsets j bs)) (omega arith)
users_at-drop (suc d) i first chunk [] h = unfold offsets in refl
users_at-drop (suc d) i first chunk (b ∷ bs) h =
    let further : i + suc d ≡ i + 1 + d = omega arith in
    let none_here = early_byte b (i * 8) first chunk 8 (omega arith) (omega arith) in
    ap (λ j. users_at first chunk (offsets j (drop d bs))) further
    ∙ users_at-drop d (i + 1) first chunk bs (omega arith)
    ∙ sym (offsets_next i first chunk b bs none_here)

-- From the first offset on, the users are those above the cursor.
counts-above :
    (chunk cursor o : ℕ)
    → cursor / chunk_size ≤ chunk
    → counts (first_offset chunk cursor) chunk o ≡ ltb cursor (chunk * chunk_size + o)
unfolding first_offset
counts-above chunk cursor o h = elim (Bool-cases (chunk == cursor / chunk_size)) [
  | inl b ↦ rw (b) (let e : chunk ≡ cursor / chunk_size = ground arith in ground arith)
  | inr b ↦ rw (b) (let ne : chunk ≢ cursor / chunk_size = (λ z. ground arith) in ground arith)
]

users_at-above :
    (chunk cursor : ℕ) (os : List ℕ)
    → cursor / chunk_size ≤ chunk
    → users_at (first_offset chunk cursor) chunk os
      ≡ above cursor (map (λ o. chunk * chunk_size + o) os)
users_at-above chunk cursor [] h = refl
users_at-above chunk cursor (o ∷ os) h =
    let same = counts-above chunk cursor o h in
    elim (Bool-cases (ltb cursor (chunk * chunk_size + o))) [
      | inl b ↦ rw (same, b) (ap (◌∷◌ (chunk * chunk_size + o)) (users_at-above chunk cursor os h))
      | inr b ↦ rw (same, b) (users_at-above chunk cursor os h)
    ]

All-range : (a n m : ℕ) → a + n ≤ m → All (λ o. o < m) (range_from a n)
All-range a zero m h = tt
All-range a (suc n) m h = (omega arith, All-range (a + 1) n m (omega arith))

pub above_none :
    (chunk cursor : ℕ) (os : List ℕ)
    → All (λ o. o < chunk_size) os
    → (chunk + 1) * chunk_size ≤ cursor + 1
    → above cursor (map (λ o. chunk * chunk_size + o) os) ≡ []
above_none chunk cursor [] h l = refl
above_none chunk cursor (o ∷ os) (h, hs) l =
    let low : ltb cursor (chunk * chunk_size + o) ≡ false = ground arith in
    rw (low) (above_none chunk cursor os hs l)

pub users_of-offsets :
    (chunk : ℕ) (bm : Bytes) → map (λ o. chunk * chunk_size + o) (offsets 0 bm) ≡ users_of chunk bm
users_of-offsets chunk bm = ap (map (λ o. chunk * chunk_size + o)) (offsets-bit_at bm)

pub offsets-lt :
    (bm : Bytes) → 8 * length bm ≤ chunk_size → All (λ o. o < chunk_size) (offsets 0 bm)
offsets-lt bm h = subst (All (λ o. o < chunk_size)) (sym (offsets-bit_at bm)) (
    All-keep (λ o. o < chunk_size) (bit_at bm) (range_from 0 (8 * length bm))
      (All-range 0 (8 * length bm) chunk_size (omega arith)))

past_end :
    (chunk cursor : ℕ)
    → leb chunk_size (first_offset chunk cursor) ≡ true
    → (chunk + 1) * chunk_size ≤ cursor + 1
unfolding first_offset
past_end chunk cursor h = ground arith

pub append_likers_from_chunk-fill :
    (items : List ℕ) (bm : Bytes) (chunk cursor need : ℕ)
    → 8 * length bm ≤ chunk_size
    → cursor / chunk_size ≤ chunk
    → leb need (length items) ≡ false
    → append_likers_from_chunk items bm chunk cursor need
      ≡ fill need items (above cursor (users_of chunk bm))
unfolding append_likers_from_chunk
append_likers_from_chunk-fill items bm chunk cursor need small h open_yet =
    let first = first_offset chunk cursor in
    elim (Bool-cases (leb chunk_size first)) [
      | inl past ↦
          let nothing : above cursor (users_of chunk bm) ≡ [] =
            ap (above cursor) (sym (users_of-offsets chunk bm))
            ∙ above_none chunk cursor (offsets 0 bm) (offsets-lt bm small)
                (past_end chunk cursor past) in
          rw (past, nothing) (unfold fill in refl)
      | inr inside ↦ rw (inside) (
          scan_bytes-fill (first / 8) first chunk need (drop (first / 8) bm) items open_yet
          ∙ ap (fill need items) (
              ap (λ j. users_at first chunk (offsets j (drop (first / 8) bm))) (omega arith)
              ∙ users_at-drop (first / 8) 0 first chunk bm (omega arith)
              ∙ users_at-above chunk cursor (offsets 0 bm) h
              ∙ ap (above cursor) (users_of-offsets chunk bm)))
    ]
