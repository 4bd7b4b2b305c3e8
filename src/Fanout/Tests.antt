-- ===== src/Fanout/Tests.antt =====
-- The theorems on the timeline, for an inbox with two posts and one celebrity.
use zhiguang_go.Base.{ℕ, ◌≡◌, refl, true, false, ◌||◌, some, [], ◌∷◌, arith, All, codes, cut}
use zhiguang_go.Base.Int.{pos}
use zhiguang_go.Base.Decimal.{parse_uint, parse_int, format_uint, format_int}
use zhiguang_go.Fanout.Timeline.{
  cut_page, sort_entries, dedupe, read_range, to_entries, seen, insert_entry, read_celebrity_boxes,
  after, TimelineEntry, encode_timeline_cursor, parse_timeline_cursor, before, merge_timelines,
  Boxes, Page, page, home_timeline,
}
use zhiguang_go.Fanout.Timeline.Merged.{Descends, Distinct, shows, merge_timelines-merges}
use zhiguang_go.Fanout.Timeline.Pages.{home_timeline-resumes}

abbrev old : TimelineEntry
old = record { post_id = 3; score = pos 100 }

abbrev new : TimelineEntry
new = record { post_id = 4; score = pos 200 }

abbrev boxes : Boxes
boxes = record {
  inbox = some ((codes "4", pos 200) ∷ (codes "3", pos 100) ∷ []);
  author_box = λ id. some ((codes "4", pos 200) ∷ []);
  exec_fails = false;
}

abbrev first_page : Page
first_page = record { entries = new ∷ []; next = codes "t:200:4"; has_more = true }

abbrev last_page : Page
last_page = record { entries = old ∷ []; next = codes "t:100:3"; has_more = false }

merge_timelines-merges_example :
    Descends (merge_timelines (old ∷ []) (new ∷ old ∷ []) 0)
    × Distinct (merge_timelines (old ∷ []) (new ∷ old ∷ []) 0)
    × ((id : ℕ)
        → shows id (merge_timelines (old ∷ []) (new ∷ old ∷ []) 0)
          ≡ (shows id (old ∷ []) || shows id (new ∷ old ∷ [])))
merge_timelines-merges_example = merge_timelines-merges (old ∷ []) (new ∷ old ∷ [])

first_call : home_timeline boxes (some (7 ∷ [])) [] 1 ≡ page first_page
unfolding home_timeline parse_timeline_cursor cut parse_int parse_uint cut_page merge_timelines
    sort_entries dedupe read_range to_entries seen insert_entry read_celebrity_boxes before after
    encode_timeline_cursor format_int format_uint
first_call = refl

second_call : home_timeline boxes (some (7 ∷ [])) (codes "t:200:4") 1 ≡ page last_page
unfolding home_timeline parse_timeline_cursor cut parse_int parse_uint cut_page merge_timelines
    sort_entries dedupe read_range to_entries seen insert_entry read_celebrity_boxes before after
    encode_timeline_cursor format_int format_uint
second_call = refl

home_timeline-resumes_example :
    All (λ y. All (λ x. before x y ≡ true) first_page.entries) last_page.entries
home_timeline-resumes_example =
    home_timeline-resumes boxes boxes (some (7 ∷ [])) (some (7 ∷ [])) [] 1 1 first_page last_page
      first_call (ground arith) (record { fits_id = ground arith; fits_score = ground arith }, tt)
      second_call
