-- ===== src/Counter/Likers/Scan.antt =====
-- internal/counter/likers.go: the likers that are listed from the bitmap where there is no index by time.
-- A shard is the text of its bitmap, empty if there is none; a failing fetch is an input.
pub mod Bits
pub mod Order
pub mod Found
pub mod Pages
use zhiguang_go.Base.{
  ℕ, zero, suc, ◌+◌, ◌-◌, ◌*◌, ◌/◌, ◌%◌, ◌^◌, Bool, true, false, not, ◌&&◌, Option, none, some,
  List, [], ◌∷◌, ◌++◌, ltb, leb, ◌==◌, if◌then◌else◌, length, take, Bytes, bytes_eq,
}
use zhiguang_go.Counter.Model.{chunk_size}

-- chunkFetchBatch
abbrev pub chunk_fetch_batch : ℕ
chunk_fetch_batch = 16

abbrev pub drop {ℓ} : {A : Type ℓ} → ℕ → List A → List A
drop zero xs = xs
drop (suc n) [] = []
drop (suc n) (x ∷ xs) = drop n xs

-- The bits of the byte `b` whose first offset is `base`, of which `left` are to be read; and whether
-- the page is full.
unfoldable pub scan_bits : (b base first chunk need left : ℕ) → List ℕ → List ℕ × Bool
scan_bits b base first chunk need zero items = (items, false)
scan_bits b base first chunk need (suc k) items =
    let offset = base + (7 - k) in
    let user_id = chunk * chunk_size + offset in
    let skip = scan_bits b base first chunk need k items in
    let items' = items ++ user_id ∷ [] in
    let next = scan_bits b base first chunk need k items' in
    if (b / 2 ^ k) % 2 == 0
    then skip
    else if ltb offset first
    then skip
    else if user_id == 0
    then skip
    else if leb need (length items')
    then (items', true)
    else next

unfoldable pub scan_bytes : (byte_idx first chunk need : ℕ) → Bytes → List ℕ → List ℕ
unfolding scan_bits
scan_bytes byte_idx first chunk need [] items = items
scan_bytes byte_idx first chunk need (b ∷ bs) items =
    let (items', full) = scan_bits b (byte_idx * 8) first chunk need 8 items in
    let rest = scan_bytes (byte_idx + 1) first chunk need bs items' in
    let skip = scan_bytes (byte_idx + 1) first chunk need bs items in
    if b == 0 then skip else if full then items' else rest

unfoldable pub first_offset : ℕ → ℕ → ℕ
first_offset chunk cursor = if chunk == cursor / chunk_size then cursor % chunk_size + 1 else 0

-- appendLikersFromChunk
unfoldable pub append_likers_from_chunk : List ℕ → Bytes → ℕ → ℕ → ℕ → List ℕ
unfolding scan_bytes first_offset
append_likers_from_chunk items bm chunk cursor need =
    let first = first_offset chunk cursor in
    if leb chunk_size first
    then items
    else scan_bytes (first / 8) first chunk need (drop (first / 8) bm) items

-- The shards of a batch, from `chunk` on.
unfoldable pub scan_batch : (ℕ → Bytes) → (chunk left cursor need : ℕ) → List ℕ → List ℕ
unfolding append_likers_from_chunk
scan_batch shard chunk zero cursor need items = items
scan_batch shard chunk (suc n) cursor need items =
    let items' =
      if bytes_eq (shard chunk) []
      then items
      else append_likers_from_chunk items (shard chunk) chunk cursor need in
    let rest = scan_batch shard (chunk + 1) n cursor need items' in
    if not (bytes_eq (shard chunk) []) && leb need (length items') then items' else rest

unfoldable pub min : ℕ → ℕ → ℕ
min a b = if ltb a b then a else b

-- The loop of scanLikerChunks, for at most `fuel` batches.
unfoldable pub scan_from :
    (ℕ → Bytes) → (ℕ → Bool) → (fuel chunk max_chunk cursor need : ℕ) → List ℕ → Option (List ℕ)
unfolding scan_batch min
scan_from shard fails zero chunk max_chunk cursor need items = some items
scan_from shard fails (suc fuel) chunk max_chunk cursor need items =
    let items' =
      scan_batch shard chunk (min (chunk + chunk_fetch_batch) max_chunk - chunk) cursor need
        items in
    let rest =
      scan_from shard fails fuel (chunk + chunk_fetch_batch) max_chunk cursor need items' in
    if not (ltb chunk max_chunk && ltb (length items) need)
    then some items
    else if fails chunk
    then none
    else rest

-- scanLikerChunks; a round goes on by 16 shards, so `max_chunk` rounds are enough. The warning is left
-- out.
unfoldable pub scan_liker_chunks :
    (ℕ → Bytes) → (ℕ → Bool) → (max_chunk cursor limit : ℕ) → Option (List ℕ)
unfolding scan_from
scan_liker_chunks shard fails max_chunk cursor limit =
    scan_from shard fails max_chunk (cursor / chunk_size) max_chunk cursor (limit + 1) []

pub record LikersPage : Type 0 where
  pub items : List ℕ
  pub has_more : Bool
  pub cursor : Option ℕ

unfoldable pub last : List ℕ → Option ℕ
last [] = none
last (x ∷ []) = some x
last (x ∷ y ∷ xs) = last (y ∷ xs)

unfoldable pub page_of : ℕ → List ℕ → LikersPage
unfolding last
page_of limit found =
    let items = take limit found in
    record { items = items; has_more = ltb limit (length found); cursor = last items }

scanned : ℕ → Option (List ℕ) → Option LikersPage
unfolding page_of
scanned limit none = none
scanned limit (some found) = some (page_of limit found)

-- scanBitmapForLikers where the cache of scans has no full page; `cursor` is the user of the next cursor.
unfoldable pub scan_bitmap_for_likers :
    (ℕ → Bytes) → (ℕ → Bool) → (max_chunk cursor limit : ℕ) → Option LikersPage
unfolding scanned scan_liker_chunks
scan_bitmap_for_likers shard fails max_chunk cursor limit =
    scanned limit (scan_liker_chunks shard fails max_chunk cursor limit)
