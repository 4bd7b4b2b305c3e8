-- ===== src/Fanout/Writing/Looping.antt =====
-- The loop of FanoutPost of internal/fanout: it ends, and which followers it pushes to.
use zhiguang_go.Base.{
  if_true, if_false, ℕ, zero, suc, ◌+◌, ◌≤◌, ◌<◌, ◌≡◌, refl, sym, ap, ◌∙◌, subst, ◌≢◌, inl, inr,
  Bool, true, false, ◌&&◌, ◌||◌, Option, none, some, List, [], ◌∷◌, ◌++◌, arith, ltb, leb,
  if◌then◌else◌, Bool-cases, length, Bytes, bytes_eq,
}
use zhiguang_go.Base.Int.{ℤ, pos, negsuc}
use zhiguang_go.Fanout.Timeline.{ZSet}
use zhiguang_go.Fanout.Writing.{
  Faults, Redis, Event, Lister, Outcome, running, box_failed, entry_of, push_batch, push_on,
  push_page, push_pages, push_to_followers, push_unless, fanout_post, mark, set_celebrity, is_empty,
  write_author_box, is_celebrity,
}
use zhiguang_go.Fanout.Config.{RawConfig, Config, with_defaults}
use zhiguang_go.Fanout.Writing.Effects.{push_batch-append}

mark_boxes : (f : Faults) (author : ℕ) (r : Redis) → (mark f author r).boxes ≡ r.boxes
unfolding mark set_celebrity
mark_boxes f author r = elim (Bool-cases f.s_add) [ inl b ↦ rw (b) refl | inr b ↦ rw (b) refl ]

module _ (cfg : Config) (f : Faults) (followers_cursor : Lister) (now : ℕ) (event : Event) where
  touched_on : (ℕ → Bytes → ℕ → List ℕ) → ℕ → Bytes → Bytes → ℕ → ℕ → List ℕ
  touched_on again n cursor next fans reached =
      if leb cfg.celebrity_threshold reached
      then []
      else if leb cfg.fanout_max_fans reached
      then []
      else if is_empty next || (bytes_eq next cursor || ltb fans cfg.fanout_batch_size)
      then []
      else again (n + 1) next reached

  touched_page : (ℕ → Bytes → ℕ → List ℕ) → ℕ → Bytes → ℕ → Option (List ℕ × Bytes) → List ℕ
  unfolding touched_on
  touched_page again n cursor reached none = []
  touched_page again n cursor reached (some ([], next)) = []
  touched_page again n cursor reached (some (fan ∷ fans, next)) =
      if f.push n
      then []
      else (fan ∷ fans)
        ++ touched_on again n cursor next (length (fan ∷ fans)) (reached + length (fan ∷ fans))

  -- The followers that a run of the loop pushes to, whatever Redis holds.
  pub touched : ℕ → ℕ → Bytes → ℕ → List ℕ
  unfolding touched_page
  touched zero n cursor reached = []
  touched (suc fuel) n cursor reached =
      touched_page (touched fuel) n cursor reached (followers_cursor cfg.fanout_batch_size cursor)

  abbrev pushes : List ℕ → Redis → Bytes → ZSet
  pushes fans r = (push_batch cfg now (entry_of event) fans r).boxes

  abbrev Follows : (ℕ → Bytes → ℕ → Redis → Outcome × Redis) → (ℕ → Bytes → ℕ → List ℕ) → Type 0
  Follows again fans =
      (n : ℕ) (cursor : Bytes) (reached : ℕ) (r : Redis)
      → (again n cursor reached r).1.boxes ≡ pushes (fans n cursor reached) r

  on-Follows :
      (again : ℕ → Bytes → ℕ → Redis → Outcome × Redis) (fans : ℕ → Bytes → ℕ → List ℕ)
      → Follows again fans
      → (n : ℕ) (cursor next : Bytes) (len reached : ℕ) (r : Redis)
      → (push_on cfg f followers_cursor now event again n cursor next len reached r).1.boxes
        ≡ pushes (touched_on fans n cursor next len reached) r
  unfolding push_on touched_on push_batch
  on-Follows again fans h n cursor next len reached r =
      elim (Bool-cases (leb cfg.celebrity_threshold reached)) [
        | inl a ↦ rw (a) (mark_boxes f event.creator_id r)
        | inr a ↦ elim (Bool-cases (leb cfg.fanout_max_fans reached)) [
          | inl b ↦ rw (a, b) (mark_boxes f event.creator_id r)
          | inr b ↦
              elim (Bool-cases
                (is_empty next || (bytes_eq next cursor || ltb len cfg.fanout_batch_size))) [
                  | inl c ↦ rw (a, b, c) refl
                  | inr c ↦ rw (a, b, c) (h (n + 1) next reached r)
                ]
        ]
      ]

  page-Follows :
      (again : ℕ → Bytes → ℕ → Redis → Outcome × Redis) (fans : ℕ → Bytes → ℕ → List ℕ)
      → Follows again fans
      → (n : ℕ) (cursor : Bytes) (reached : ℕ) (r : Redis) (o : Option (List ℕ × Bytes))
      → (push_page cfg f followers_cursor now event again n cursor reached r o).1.boxes
        ≡ pushes (touched_page fans n cursor reached o) r
  unfolding push_page touched_page push_batch
  page-Follows again fans h n cursor reached r none = refl
  page-Follows again fans h n cursor reached r (some ([], next)) = refl
  page-Follows again fans h n cursor reached r (some (fan ∷ page, next)) =
      elim (Bool-cases (f.push n)) [
        | inl b ↦ rw (b) refl
        | inr b ↦ rw (b) (
            on-Follows again fans h n cursor next (length (fan ∷ page))
              (reached + length (fan ∷ page)) _
            ∙ sym (
                ap (λ (x : Redis). x.boxes)
                  (push_batch-append cfg now (entry_of event) (fan ∷ page) _ r)))
      ]

  pub pages-Follows :
      (fuel : ℕ) → Follows (push_pages cfg f followers_cursor now event fuel) (touched fuel)
  unfolding push_pages touched push_batch
  pages-Follows zero n cursor reached r = refl
  pages-Follows (suc fuel) n cursor reached r =
      page-Follows (push_pages cfg f followers_cursor now event fuel) (touched fuel)
        (pages-Follows fuel) n cursor reached r (followers_cursor cfg.fanout_batch_size cursor)

  abbrev Ends : Outcome × Redis → Type 0
  Ends x = x.0 ≢ running

  on-Ends :
      (again : ℕ → Bytes → ℕ → Redis → Outcome × Redis) (n : ℕ) (cursor next : Bytes)
      (len reached : ℕ) (r : Redis)
      → (reached < cfg.celebrity_threshold → Ends (again (n + 1) next reached r))
      → Ends (push_on cfg f followers_cursor now event again n cursor next len reached r)
  unfolding push_on
  on-Ends again n cursor next len reached r h =
      elim (Bool-cases (leb cfg.celebrity_threshold reached)) [
        | inl a ↦ rw (a) (λ e. cc)
        | inr a ↦ elim (Bool-cases (leb cfg.fanout_max_fans reached)) [
          | inl b ↦ rw (a, b) (λ e. cc)
          | inr b ↦
              elim (Bool-cases
                (is_empty next || (bytes_eq next cursor || ltb len cfg.fanout_batch_size))) [
                  | inl c ↦ rw (a, b, c) (λ e. cc)
                  | inr c ↦ rw (a, b, c) (h (ground arith))
                ]
        ]
      ]

  page-Ends :
      (again : ℕ → Bytes → ℕ → Redis → Outcome × Redis) (n : ℕ) (cursor : Bytes) (reached : ℕ)
      (r : Redis) (o : Option (List ℕ × Bytes))
      → ((next : Bytes) (more : ℕ) (s : Redis)
          → reached < more
          → more < cfg.celebrity_threshold
          → Ends (again (n + 1) next more s))
      → Ends (push_page cfg f followers_cursor now event again n cursor reached r o)
  unfolding push_page
  page-Ends again n cursor reached r none h = λ e. cc
  page-Ends again n cursor reached r (some ([], next)) h = λ e. cc
  page-Ends again n cursor reached r (some (fan ∷ page, next)) h = elim (Bool-cases (f.push n)) [
    | inl b ↦ rw (b) (λ e. cc)
    | inr b ↦ rw (b) (
        on-Ends again n cursor next (length (fan ∷ page)) (reached + length (fan ∷ page)) _
          (h next (reached + length (fan ∷ page)) _ (omega arith)))
  ]

  pages-Ends :
      (fuel n : ℕ) (cursor : Bytes) (reached : ℕ) (r : Redis)
      → reached < cfg.celebrity_threshold
      → cfg.celebrity_threshold ≤ reached + fuel
      → Ends (push_pages cfg f followers_cursor now event fuel n cursor reached r)
  unfolding push_pages
  pages-Ends zero n cursor reached r l g = absurd (omega arith)
  pages-Ends (suc fuel) n cursor reached r l g =
      page-Ends (push_pages cfg f followers_cursor now event fuel) n cursor reached r
        (followers_cursor cfg.fanout_batch_size cursor)
        (λ next more s up below. pages-Ends fuel (n + 1) next more s below (omega arith))

  unless-Ends :
      (x : (Bool × Bool) × Redis)
      → 0 < cfg.celebrity_threshold
      → Ends (push_unless cfg f followers_cursor now event x)
  unfolding push_unless push_to_followers
  unless-Ends ((celebrity, known), r) h = elim (Bool-cases (known && celebrity)) [
    | inl b ↦ rw (b) (λ e. cc)
    | inr b ↦ rw (b) (pages-Ends cfg.celebrity_threshold 0 [] 0 r h (omega arith))
  ]

pub positive_threshold : (c : RawConfig) → 0 < (with_defaults c).celebrity_threshold
unfolding with_defaults
positive_threshold c = elim c.celebrity_threshold [ pos n ↦ ground arith | negsuc n ↦ ground arith ]

module _ (cfg : Config) (f : Faults) (followers_cursor : Lister) (now : ℕ) (event : Event)
    (count : Option ℤ) where
  pub boxed :
      (r : Redis)
      → f.author_box ≡ false
      → fanout_post cfg f followers_cursor now event count r
        ≡ push_unless cfg f followers_cursor now event (
            is_celebrity f cfg.celebrity_threshold count event.creator_id
              (write_author_box cfg now event r))
  unfolding fanout_post
  boxed r b = if_false _ _ b

  pub unboxed :
      (r : Redis)
      → f.author_box ≡ true
      → fanout_post cfg f followers_cursor now event count r ≡ (box_failed, r)
  unfolding fanout_post
  unboxed r b = if_true _ _ b

-- FanoutPost ends whatever the followers' pages are, even if they are cyclic: as many rounds as the
-- threshold are enough.
pub fanout_post-Ends :
    (c : RawConfig) (f : Faults) (followers_cursor : Lister) (now : ℕ) (event : Event)
    (count : Option ℤ) (r : Redis)
    → (fanout_post (with_defaults c) f followers_cursor now event count r).0 ≢ running
fanout_post-Ends c f followers_cursor now event count r = elim (Bool-cases f.author_box) [
  | inl b ↦
      subst (λ x. x.0 ≢ running)
        (sym (unboxed (with_defaults c) f followers_cursor now event count r b)) (λ e. cc)
  | inr b ↦
      subst (λ x. x.0 ≢ running)
        (sym (boxed (with_defaults c) f followers_cursor now event count r b))
        (unless-Ends (with_defaults c) f followers_cursor now event
          (is_celebrity f (with_defaults c).celebrity_threshold count event.creator_id
            (write_author_box (with_defaults c) now event r))
          (positive_threshold c))
]
