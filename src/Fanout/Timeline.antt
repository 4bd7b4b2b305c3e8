-- ===== src/Fanout/Timeline.antt =====
-- internal/fanout/timeline_reader.go: the home timeline merges the inbox of a reader with the boxes of
-- the celebrities that the reader follows. A sorted set of Redis is the list of its members in reverse
-- order of their scores; scores are integers, as the writer stores seconds. A limit of 0 stands for any
-- that is not positive. The lister of the followed users and the filter for celebrities are parameters;
-- `none` is their error.
pub mod Celebrities
pub mod Merged
pub mod Pages
use zhiguang_go.Base.{
  ℕ, zero, suc, ◌+◌, Bool, true, false, not, ◌&&◌, ◌||◌, Option, none, some, List, [], ◌∷◌, ◌++◌,
  ltb, leb, ◌==◌, if◌then◌else◌, length, take, keep, Bytes, codes, bytes_eq, cut,
}
use zhiguang_go.Base.Int.{ℤ, pos, ltb_ℤ, leb_ℤ, eq_ℤ}
use zhiguang_go.Base.Decimal.{format_int, format_uint, parse_int, parse_uint}

pub record TimelineEntry : Type 0 where
  pub post_id : ℕ
  pub score : ℤ

pub record TimelineCursor : Type 0 where
  pub set : Bool
  pub score : ℤ
  pub post_id : ℕ

abbrev pub unset : TimelineCursor
unset = record { set = false; score = pos 0; post_id = 0 }

unfoldable pub encode_timeline_cursor : TimelineEntry → Bytes
encode_timeline_cursor e = codes "t:" ++ (format_int e.score ++ b':' ∷ format_uint e.post_id)

-- strings.CutPrefix with "t:"
cut_prefix : Bytes → Option Bytes
cut_prefix [] = none
cut_prefix (c ∷ []) = none
cut_prefix (c ∷ d ∷ s) = if (c == b't') && (d == b':') then some s else none

both_numbers : Option ℤ → Option ℕ → Option TimelineCursor
both_numbers none id = none
both_numbers (some ts) none = none
both_numbers (some ts) (some id) = some (record { set = true; score = ts; post_id = id })

parse_parts : Option (Bytes × Bytes) → Option TimelineCursor
parse_parts none = none
parse_parts (some (ts, id)) = both_numbers (parse_int ts) (parse_uint id)

parse_body : Option Bytes → Option TimelineCursor
parse_body none = none
parse_body (some body) = parse_parts (cut b':' body)

unfoldable pub parse_timeline_cursor : Bytes → Option TimelineCursor
unfolding cut_prefix parse_body parse_parts both_numbers
parse_timeline_cursor [] = some unset
parse_timeline_cursor (c ∷ raw) = parse_body (cut_prefix (c ∷ raw))

unfoldable pub after : TimelineCursor → TimelineEntry → Bool
after c e =
    if not c.set
    then true
    else if not (eq_ℤ e.score c.score)
    then ltb_ℤ e.score c.score
    else ltb e.post_id c.post_id

-- tieSlack
abbrev pub tie_slack : ℕ
tie_slack = 16

abbrev pub ZSet : Type 0
ZSet = List (Bytes × ℤ)

-- rangeMax: whether a score is within the upper bound
abbrev pub in_range : TimelineCursor → Bytes × ℤ → Bool
in_range c (member, score) = not c.set || leb_ℤ score c.score

cons_entry : Option ℕ → ℤ → List TimelineEntry → List TimelineEntry
cons_entry none score es = es
cons_entry (some id) score es = record { post_id = id; score = score } ∷ es

unfoldable pub to_entries : ZSet → List TimelineEntry
unfolding cons_entry
to_entries [] = []
to_entries ((member, score) ∷ items) = cons_entry (parse_uint member) score (to_entries items)

-- ZRevRangeByScore up to the cursor, at most `need` items
unfoldable pub read_range : TimelineCursor → ℕ → ZSet → List TimelineEntry
read_range c need box = to_entries (take need (keep (in_range c) box))

-- the order of the merged timeline
unfoldable pub before : TimelineEntry → TimelineEntry → Bool
before a b = if not (eq_ℤ a.score b.score) then ltb_ℤ b.score a.score else ltb b.post_id a.post_id

unfoldable pub seen : ℕ → List ℕ → Bool
seen id [] = false
seen id (x ∷ xs) = (id == x) || seen id xs

-- the first entry of each post
unfoldable pub dedupe : List ℕ → List TimelineEntry → List TimelineEntry
dedupe ids [] = []
dedupe ids (e ∷ es) =
    let skipped = dedupe ids es in
    let rest = dedupe (e.post_id ∷ ids) es in if seen e.post_id ids then skipped else e ∷ rest

unfoldable pub insert_entry : TimelineEntry → List TimelineEntry → List TimelineEntry
insert_entry e [] = e ∷ []
insert_entry e (x ∷ xs) =
    let rest = insert_entry e xs in if before e x then e ∷ x ∷ xs else x ∷ rest

-- sort.Slice, for entries of different posts
unfoldable pub sort_entries : List TimelineEntry → List TimelineEntry
sort_entries [] = []
sort_entries (e ∷ es) = insert_entry e (sort_entries es)

unfoldable pub merge_timelines : List TimelineEntry → List TimelineEntry → ℕ → List TimelineEntry
merge_timelines pushed pulled limit =
    let merged = sort_entries (dedupe [] (pushed ++ pulled)) in
    if ltb 0 limit && ltb limit (length merged) then take limit merged else merged

abbrev scan_page_size : ℕ
scan_page_size = 500

abbrev scan_max_pages : ℕ
scan_max_pages = 40

-- adds celebrities up to the maximum, and says whether it is reached
unfoldable pub collect : ℕ → List ℕ → List ℕ → Bool × List ℕ
collect max_pull [] celebs = (false, celebs)
collect max_pull (id ∷ ids) celebs =
    let rest = collect max_pull ids (celebs ++ id ∷ []) in
    if leb max_pull (length (celebs ++ id ∷ [])) then (true, celebs ++ id ∷ []) else rest

next_batch :
    List ℕ → Bytes → Bytes → Bool × List ℕ → (Bytes → List ℕ → Option (List ℕ)) → Option (List ℕ)
next_batch batch next cursor (true, celebs) scan = some celebs
next_batch batch next cursor (false, celebs) scan =
    if bytes_eq next [] || bytes_eq next cursor || ltb (length batch) scan_page_size
    then some celebs
    else scan next celebs

filter_batch :
    ℕ
    → Option (List ℕ)
    → List ℕ
    → Bytes
    → Bytes
    → List ℕ
    → (Bytes → List ℕ → Option (List ℕ))
    → Option (List ℕ)
filter_batch max_pull none batch next cursor celebs scan = none
filter_batch max_pull (some found) batch next cursor celebs scan =
    next_batch batch next cursor (collect max_pull found celebs) scan

module _ (following_cursor : Bytes → Option (List ℕ × Bytes))
    (among : List ℕ → Option (List ℕ)) where
  scan_batch :
      ℕ
      → Option (List ℕ × Bytes)
      → Bytes
      → List ℕ
      → (Bytes → List ℕ → Option (List ℕ))
      → Option (List ℕ)
  scan_batch max_pull none cursor celebs scan = none
  scan_batch max_pull (some ([], next)) cursor celebs scan = some celebs
  scan_batch max_pull (some (id ∷ ids, next)) cursor celebs scan =
      filter_batch max_pull (among (id ∷ ids)) (id ∷ ids) next cursor celebs scan

  -- the rounds of the loop that are left
  scan_pages : ℕ → ℕ → Bytes → List ℕ → Option (List ℕ)
  scan_pages max_pull zero cursor celebs = some celebs
  scan_pages max_pull (suc n) cursor celebs =
      scan_batch max_pull (following_cursor cursor) cursor celebs (scan_pages max_pull n)

  unfoldable pub followed_celebrities : ℕ → Option (List ℕ)
  unfolding scan_pages scan_batch filter_batch next_batch
  followed_celebrities max_pull = scan_pages max_pull scan_max_pages [] []

-- The boxes of the reader and of the authors; a box that cannot be read is `none`. The faults are a
-- failing read of the inbox and a failing pipeline.
pub record Boxes : Type 0 where
  pub inbox : Option ZSet
  pub author_box : ℕ → Option ZSet
  pub exec_fails : Bool

box_entries : TimelineCursor → ℕ → Option ZSet → List TimelineEntry
box_entries c need none = []
box_entries c need (some box) = read_range c need box

all_boxes : Boxes → TimelineCursor → ℕ → List ℕ → List TimelineEntry
all_boxes b c need [] = []
all_boxes b c need (id ∷ ids) = box_entries c need (b.author_box id) ++ all_boxes b c need ids

-- readCelebrityBoxes, and the empty list in place of an error as HomeTimeline has it
unfoldable pub read_celebrity_boxes :
    Boxes → TimelineCursor → ℕ → Option (List ℕ) → List TimelineEntry
unfolding all_boxes box_entries
read_celebrity_boxes b c need none = []
read_celebrity_boxes b c need (some celebs) = if b.exec_fails then [] else all_boxes b c need celebs

pub data TimelineError : Type 0 where
  invalid_cursor read_inbox : TimelineError

pub record Page : Type 0 where
  pub entries : List TimelineEntry
  pub next : Bytes
  pub has_more : Bool

pub data Result : Type 0 where
  page : Page → Result
  failed : TimelineError → Result

pub last_cursor : List TimelineEntry → Bytes
last_cursor [] = []
last_cursor (e ∷ []) = encode_timeline_cursor e
last_cursor (e ∷ x ∷ xs) = last_cursor (x ∷ xs)

-- the filter by the cursor, and the cut to a page
unfoldable pub cut_page : TimelineCursor → ℕ → List TimelineEntry → Page
unfolding last_cursor
cut_page c limit merged =
    let fetched = take (limit + 1) (keep (after c) merged) in
    let entries = if ltb limit (length fetched) then take limit fetched else fetched in
    record { entries = entries; next = last_cursor entries; has_more = ltb limit (length fetched) }

pub after_inbox : Boxes → TimelineCursor → ℕ → Option (List ℕ) → Option ZSet → Result
after_inbox b c limit celebs none = failed read_inbox
after_inbox b c limit celebs (some inbox) =
    let need = limit + 1 + tie_slack in
    page (
      cut_page c limit
        (merge_timelines (read_range c need inbox) (read_celebrity_boxes b c need celebs) 0))

pub after_cursor : Boxes → ℕ → Option (List ℕ) → Option TimelineCursor → Result
unfolding after_inbox
after_cursor b limit celebs none = failed invalid_cursor
after_cursor b limit celebs (some c) = after_inbox b c limit celebs b.inbox

-- HomeTimeline, with the result of followedCelebrities
unfoldable pub home_timeline : Boxes → Option (List ℕ) → Bytes → ℕ → Result
unfolding after_cursor
home_timeline b celebs cursor limit =
    after_cursor b (if ltb 0 limit then limit else 20) celebs (parse_timeline_cursor cursor)
