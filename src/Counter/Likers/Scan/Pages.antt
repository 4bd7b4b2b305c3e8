-- ===== src/Counter/Likers/Scan/Pages.antt =====
-- The page of likers that scanBitmapForLikers of internal/counter/likers.go answers with.
use zhiguang_go.Base.{
  ℕ, zero, suc, ◌+◌, ◌-◌, ◌*◌, ◌/◌, ◌≤◌, ◌<◌, ◌≡◌, refl, sym, ap, ◌∙◌, inl, inr, Bool, false, some,
  List, [], ◌∷◌, ◌++◌, arith, ltb, leb, Bool-cases, length, take, Bytes, bytes_eq, bytes_eq_iff,
}
use mathlib.Core.Path.{ap₂}
use mathlib.Core.List.{append_assoc, append-nil}
use zhiguang_go.Counter.Model.{chunk_size}
use zhiguang_go.Counter.Likers.Scan.{
  scan_batch, min, scan_from, scan_liker_chunks, LikersPage, page_of, scanned,
  scan_bitmap_for_likers, last,
}
use zhiguang_go.Counter.Likers.Scan.Bits.{keep-append}
use zhiguang_go.Counter.Likers.Scan.Order.{fill, fill_full, fill-append, fill-take}
use zhiguang_go.Counter.Likers.Scan.Found.{
  users_of, users_from, above, append_likers_from_chunk-fill, above_none, offsets-lt,
  users_of-offsets,
}
use zhiguang_go.Counter.Likers.Scan.Bits.{offsets}

-- No shard is longer than SETBIT can make it.
abbrev pub AreShards : (ℕ → Bytes) → Type 0
AreShards shard = (chunk : ℕ) → 8 * length (shard chunk) ≤ chunk_size

users_of_empty : (chunk : ℕ) (bm : Bytes) → bm ≡ [] → users_of chunk bm ≡ []
users_of_empty chunk bm e = ap (users_of chunk) e

module _ (shard : ℕ → Bytes) (sized : AreShards shard) (cursor need : ℕ) where
  scan_batch-fill :
      (n chunk : ℕ) (items : List ℕ)
      → cursor / chunk_size ≤ chunk
      → leb need (length items) ≡ false
      → scan_batch shard chunk n cursor need items
        ≡ fill need items (above cursor (users_from shard chunk n))
  unfolding scan_batch
  scan_batch-fill zero chunk items h open_yet = unfold fill in refl
  scan_batch-fill (suc n) chunk items h open_yet =
      let here = above cursor (users_of chunk (shard chunk)) in
      let later = above cursor (users_from shard (chunk + 1) n) in
      let split : fill need items (above cursor (users_from shard chunk (suc n)))
          ≡ fill need (fill need items here) later =
        ap (fill need items)
          (keep-append (ltb cursor) (users_of chunk (shard chunk)) (users_from shard (chunk + 1) n))
        ∙ fill-append need items here later in
      elim (Bool-cases (bytes_eq (shard chunk) [])) [
        | inl b ↦
            let nothing : here ≡ [] =
              ap (above cursor)
                (users_of_empty chunk (shard chunk) ((bytes_eq_iff (shard chunk) []).0 b)) in
            rw (b) (
              scan_batch-fill n (chunk + 1) items (omega arith) open_yet
              ∙ sym (
                  split
                  ∙ ap (λ xs. fill need (fill need items xs) later) nothing
                  ∙ ap (λ xs. fill need xs later) (unfold fill in refl)))
        | inr b ↦
            rw
              (
                b,
                append_likers_from_chunk-fill items (shard chunk) chunk cursor need (sized chunk) h
                    open_yet,
                split,
              )
              (elim (Bool-cases (leb need (length (fill need items here)))) [
                | inl full ↦ rw (full) (sym (fill_full need (fill need items here) later full))
                | inr more ↦
                    rw (more)
                      (scan_batch-fill n (chunk + 1) (fill need items here) (omega arith) more)
              ])
      ]

  users_from-append :
      (m n chunk : ℕ)
      → users_from shard chunk (m + n) ≡ users_from shard chunk m ++ users_from shard (chunk + m) n
  users_from-append zero n chunk =
      ap (λ k. users_from shard chunk k) (omega arith)
      ∙ ap (λ c. users_from shard c n) (omega arith)
  users_from-append (suc m) n chunk =
      let longer : suc m + n ≡ suc (m + n) = omega arith in
      let further : chunk + 1 + m ≡ chunk + suc m = omega arith in
      ap (users_from shard chunk) longer
      ∙ ap (◌++◌ (users_of chunk (shard chunk))) (
          users_from-append m n (chunk + 1)
          ∙ ap (λ c. users_from shard (chunk + 1) m ++ users_from shard c n) further)
      ∙ sym (
          append_assoc (users_of chunk (shard chunk)) (users_from shard (chunk + 1) m)
            (users_from shard (chunk + suc m) n))

  ended :
      (chunk max_chunk : ℕ) (items : List ℕ)
      → max_chunk ≤ chunk
      → fill need items (above cursor (users_from shard chunk (max_chunk - chunk))) ≡ items
  unfolding fill
  ended chunk max_chunk items h =
      let over : max_chunk - chunk ≡ 0 = omega arith in
      ap (λ n. fill need items (above cursor (users_from shard chunk n))) over

  -- A batch of 16 shards, or of those that are left, and what follows it.
  users_from-batch :
      (chunk max_chunk : ℕ)
      → chunk < max_chunk
      → users_from shard chunk (max_chunk - chunk)
        ≡ users_from shard chunk (min (chunk + 16) max_chunk - chunk)
          ++ users_from shard (chunk + 16) (max_chunk - (chunk + 16))
  unfolding min
  users_from-batch chunk max_chunk h = elim (Bool-cases (ltb (chunk + 16) max_chunk)) [
    | inl b ↦
        let sum : max_chunk - chunk ≡ chunk + 16 - chunk + (max_chunk - (chunk + 16)) =
          ground arith in
        let place : chunk + (chunk + 16 - chunk) ≡ chunk + 16 = omega arith in
        rw (b) (
          ap (users_from shard chunk) sum
          ∙ users_from-append (chunk + 16 - chunk) (max_chunk - (chunk + 16)) chunk
          ∙ ap
              (λ c.
                users_from shard chunk (chunk + 16 - chunk)
                ++ users_from shard c (max_chunk - (chunk + 16)))
              place)
    | inr b ↦
        let over : max_chunk - (chunk + 16) ≡ 0 = ground arith in
        rw (b, over) (sym (append-nil (users_from shard chunk (max_chunk - chunk))))
  ]

  scan_from-fill :
      (fails : ℕ → Bool) (fuel chunk max_chunk : ℕ) (items : List ℕ)
      → ((c : ℕ) → fails c ≡ false)
      → cursor / chunk_size ≤ chunk
      → max_chunk ≤ chunk + 16 * fuel
      → scan_from shard fails fuel chunk max_chunk cursor need items
        ≡ some (fill need items (above cursor (users_from shard chunk (max_chunk - chunk))))
  unfolding scan_from
  scan_from-fill fails zero chunk max_chunk items served h enough =
      ap some (sym (ended chunk max_chunk items (omega arith)))
  scan_from-fill fails (suc fuel) chunk max_chunk items served h enough =
      elim (Bool-cases (ltb chunk max_chunk)) [
        | inr b ↦ rw (b) (ap some (sym (ended chunk max_chunk items (ground arith))))
        | inl b ↦ elim (Bool-cases (ltb (length items) need)) [
          | inr f ↦ rw (b, f) (ap some (sym (fill_full need items _ (ground arith))))
          | inl o ↦
              let open_yet : leb need (length items) ≡ false = ground arith in
              let m = min (chunk + 16) max_chunk - chunk in
              let here = above cursor (users_from shard chunk m) in
              let later = above cursor (users_from shard (chunk + 16) (max_chunk - (chunk + 16))) in
              rw (b, o, served chunk, scan_batch-fill m chunk items h open_yet)
                (scan_from-fill fails fuel (chunk + 16) max_chunk (fill need items here) served
                    (omega arith) (omega arith)
                  ∙ ap some (
                      sym (
                        ap (λ us. fill need items (above cursor us))
                          (users_from-batch chunk max_chunk (ground arith))
                        ∙ ap (fill need items) (
                            keep-append (ltb cursor) (users_from shard chunk m)
                              (users_from shard (chunk + 16) (max_chunk - (chunk + 16))))
                        ∙ fill-append need items here later)))
        ]
      ]

module _ (shard : ℕ → Bytes) (sized : AreShards shard) (cursor : ℕ) where
  -- Before the shard of the cursor, no user is above it.
  before_cursor :
      (n chunk : ℕ) → chunk + n ≤ cursor / chunk_size → above cursor (users_from shard chunk n) ≡ []
  before_cursor zero chunk h = refl
  before_cursor (suc n) chunk h =
      keep-append (ltb cursor) (users_of chunk (shard chunk)) (users_from shard (chunk + 1) n)
      ∙ ap₂ ◌++◌
          (ap (above cursor) (sym (users_of-offsets chunk (shard chunk)))
            ∙ above_none chunk cursor (offsets 0 (shard chunk))
                (offsets-lt (shard chunk) (sized chunk)) (omega arith))
          (before_cursor n (chunk + 1) (omega arith))

  from_start :
      (max_chunk : ℕ)
      → above cursor (users_from shard (cursor / chunk_size) (max_chunk - cursor / chunk_size))
        ≡ above cursor (users_from shard 0 max_chunk)
  from_start max_chunk = elim (Bool-cases (leb (cursor / chunk_size) max_chunk)) [
    | inl b ↦
        let start = cursor / chunk_size in
        let sum : max_chunk ≡ start + (max_chunk - start) = ground arith in
        let place : 0 + start ≡ start = omega arith in
        sym (
          ap (λ n. above cursor (users_from shard 0 n)) sum
          ∙ ap (above cursor) (users_from-append shard sized cursor 0 start (max_chunk - start) 0)
          ∙ keep-append (ltb cursor) (users_from shard 0 start)
              (users_from shard (0 + start) (max_chunk - start))
          ∙ ap₂ ◌++◌ (before_cursor start 0 (omega arith))
              (ap (λ c. above cursor (users_from shard c (max_chunk - start))) place))
    | inr b ↦
        let over : max_chunk - cursor / chunk_size ≡ 0 = ground arith in
        ap (λ n. above cursor (users_from shard (cursor / chunk_size) n)) over
        ∙ sym (before_cursor max_chunk 0 (ground arith))
  ]

take-take : (n : ℕ) (xs : List ℕ) → take n (take (suc n) xs) ≡ take n xs
take-take zero xs = refl
take-take (suc n) [] = refl
take-take (suc n) (x ∷ xs) = ap (◌∷◌ x) (take-take n xs)

longer-take : (n : ℕ) (xs : List ℕ) → ltb n (length (take (suc n) xs)) ≡ ltb n (length xs)
longer-take zero [] = refl
longer-take zero (x ∷ xs) = ground arith
longer-take (suc n) [] = refl
longer-take (suc n) (x ∷ xs) = ground (arith, longer-take n xs)

-- The page of the likers among `us`.
abbrev pub page_from : ℕ → List ℕ → LikersPage
page_from limit us = record {
  items = take limit us;
  has_more = ltb limit (length us);
  cursor = last (take limit us);
}

page_of-take : (limit : ℕ) (us : List ℕ) → page_of limit (take (suc limit) us) ≡ page_from limit us
unfolding page_of
page_of-take limit us = rw (take-take limit us, longer-take limit us) refl

scan_liker_chunks-take :
    (shard : ℕ → Bytes) (fails : ℕ → Bool) (max_chunk cursor limit : ℕ)
    → AreShards shard
    → ((c : ℕ) → fails c ≡ false)
    → scan_liker_chunks shard fails max_chunk cursor limit
      ≡ some (take (suc limit) (above cursor (users_from shard 0 max_chunk)))
unfolding scan_liker_chunks
scan_liker_chunks-take shard fails max_chunk cursor limit sized served =
    let us = above cursor (users_from shard 0 max_chunk) in
    scan_from-fill shard sized cursor (limit + 1) fails max_chunk (cursor / chunk_size) max_chunk []
      served (omega arith) (omega arith)
    ∙ ap (λ xs. some (fill (limit + 1) [] xs)) (from_start shard sized cursor max_chunk)
    ∙ ap some (ap (λ n. fill n [] us) (omega arith) ∙ fill-take (suc limit) [] us)

-- Where the shards are fetched, scanBitmapForLikers answers with the first `limit` users above the
-- cursor whose bit is set, in ascending order, out of all shards below the maximum, says whether there
-- are more of them, and gives the last one as the next cursor.
pub scan_bitmap_for_likers-page :
    (shard : ℕ → Bytes) (fails : ℕ → Bool) (max_chunk cursor limit : ℕ)
    → AreShards shard
    → ((c : ℕ) → fails c ≡ false)
    → scan_bitmap_for_likers shard fails max_chunk cursor limit
      ≡ some (page_from limit (above cursor (users_from shard 0 max_chunk)))
unfolding scan_bitmap_for_likers
scan_bitmap_for_likers-page shard fails max_chunk cursor limit sized served =
    ap (scanned limit) (scan_liker_chunks-take shard fails max_chunk cursor limit sized served)
    ∙ ap some (page_of-take limit (above cursor (users_from shard 0 max_chunk)))
