-- ===== src/Fanout/Writing/Spreading.antt =====
-- FanoutPost of internal/fanout: where the pages are those of a list of followers, the loop pushes
-- to all of them or marks the author.
use zhiguang_go.Base.{
  ℕ, zero, suc, ◌+◌, ◌≤◌, ◌<◌, ◌≡◌, refl, sym, ◌∙◌, subst, ◌⊎◌, inl, inr, true, false, ◌||◌, Option,
  some, List, [], ◌∷◌, ◌++◌, arith, ltb, leb, Bool-cases, length, Bytes, bytes_eq, update_self,
}
use zhiguang_go.Base.Decimal.{format_uint}
use zhiguang_go.Fanout.Writing.{
  Faults, Redis, Event, Lister, Outcome, pushed, entry_of, push_batch, push_on, push_page,
  push_pages, mark, set_celebrity, is_empty,
}
use zhiguang_go.Fanout.Config.{Config}
use zhiguang_go.Fanout.Writing.Effects.{push_batch-append}

-- The pages of the cursors from one on are those of a list: each but the last is full and names another
-- cursor.
pub data Serves (size : ℕ) (lister : Lister) : Bytes → List ℕ → Type 0 where
  last_page :
      (cursor next : Bytes) (fans : List ℕ)
      → lister size cursor ≡ some (fans, next)
      → is_empty next || ltb (length fans) size ≡ true
      → Serves size lister cursor fans
  full_page :
      (cursor next : Bytes) (fans rest : List ℕ)
      → lister size cursor ≡ some (fans, next)
      → is_empty next ≡ false
      → bytes_eq next cursor ≡ false
      → ltb (length fans) size ≡ false
      → 0 < length fans
      → Serves size lister next rest
      → Serves size lister cursor (fans ++ rest)

module _ (cfg : Config) (f : Faults) (lister : Lister) (now : ℕ) (event : Event) where
  -- Everybody was pushed to, or the author is now in the set of the celebrities.
  unfoldable pub Spread : List ℕ → Redis → Outcome × Redis → Type 0
  Spread fans r (o, s) =
      ((o ≡ pushed) × (s ≡ push_batch cfg now (entry_of event) fans r))
      ⊎ (s.celebrities (format_uint event.creator_id) ≡ true)

  mark_marks :
      (r : Redis)
      → f.s_add ≡ false
      → (mark f event.creator_id r).celebrities (format_uint event.creator_id) ≡ true
  unfolding mark set_celebrity
  mark_marks r b = rw (b) (update_self r.celebrities (format_uint event.creator_id) true)

  abbrev Marked : Outcome × Redis → Type 0
  Marked x = x.1.celebrities (format_uint event.creator_id) ≡ true

  module _ (again : ℕ → Bytes → ℕ → Redis → Outcome × Redis) (n : ℕ) (cursor next : Bytes)
      (len reached : ℕ) (r : Redis) where
    abbrev turn : Outcome × Redis
    turn = push_on cfg f lister now event again n cursor next len reached r

    turn_last :
        f.s_add ≡ false
        → is_empty next || ltb len cfg.fanout_batch_size ≡ true
        → (turn ≡ (pushed, r)) ⊎ Marked turn
    unfolding push_on
    turn_last a e = elim (Bool-cases (leb cfg.celebrity_threshold reached)) [
      | inl b ↦ inr (rw (b) (mark_marks r a))
      | inr b ↦ elim (Bool-cases (leb cfg.fanout_max_fans reached)) [
        | inl c ↦ inr (rw (b, c) (mark_marks r a))
        | inr c ↦
            let stop : is_empty next || (bytes_eq next cursor || ltb len cfg.fanout_batch_size)
                ≡ true =
              ground arith in
            inl (rw (b, c, stop) refl)
      ]
    ]

    turn_full :
        f.s_add ≡ false
        → is_empty next ≡ false
        → bytes_eq next cursor ≡ false
        → ltb len cfg.fanout_batch_size ≡ false
        → ((turn ≡ again (n + 1) next reached r) × (reached < cfg.celebrity_threshold))
          ⊎ Marked turn
    unfolding push_on
    turn_full a e x y = elim (Bool-cases (leb cfg.celebrity_threshold reached)) [
      | inl b ↦ inr (rw (b) (mark_marks r a))
      | inr b ↦ elim (Bool-cases (leb cfg.fanout_max_fans reached)) [
        | inl c ↦ inr (rw (b, c) (mark_marks r a))
        | inr c ↦ inl (rw (b, c, e, x, y) refl, ground arith)
      ]
    ]

  abbrev page_of :
      (ℕ → Bytes → ℕ → Redis → Outcome × Redis)
      → ℕ
      → Bytes
      → ℕ
      → Redis
      → Option (List ℕ × Bytes)
      → Outcome × Redis
  page_of = push_page cfg f lister now event

  page_full :
      (again : ℕ → Bytes → ℕ → Redis → Outcome × Redis) (n : ℕ) (cursor next : Bytes) (reached : ℕ)
      (r : Redis) (page rest : List ℕ)
      → f.s_add ≡ false
      → f.push n ≡ false
      → is_empty next ≡ false
      → bytes_eq next cursor ≡ false
      → ltb (length page) cfg.fanout_batch_size ≡ false
      → 0 < length page
      → (reached + length page < cfg.celebrity_threshold
          → Spread rest (push_batch cfg now (entry_of event) page r) (
              again
                (n + 1)
                next
                (reached + length page)
                (push_batch cfg now (entry_of event) page r)))
      → Spread (page ++ rest) r (page_of again n cursor reached r (some (page, next)))
  unfolding push_page Spread
  page_full again n cursor next reached r [] rest a p e x y l h = absurd (omega arith)
  page_full again n cursor next reached r (fan ∷ page) rest a p e x y l h =
      let s = push_batch cfg now (entry_of event) (fan ∷ page) r in
      elim (turn_full again n cursor next (length (fan ∷ page)) (reached + length (fan ∷ page)) s a
        e x y) [
          | inr m ↦ rw (p) (inr m)
          | inl (t, below) ↦ elim (h below) [
            | inr m ↦ rw (p, t) (inr m)
            | inl (o, b) ↦
                rw (p, t)
                  (inl
                    (o, b ∙ sym (push_batch-append cfg now (entry_of event) (fan ∷ page) rest r)))
          ]
        ]

  page_last :
      (again : ℕ → Bytes → ℕ → Redis → Outcome × Redis) (n : ℕ) (cursor next : Bytes) (reached : ℕ)
      (r : Redis) (page : List ℕ)
      → f.s_add ≡ false
      → f.push n ≡ false
      → is_empty next || ltb (length page) cfg.fanout_batch_size ≡ true
      → Spread page r (page_of again n cursor reached r (some (page, next)))
  unfolding push_page Spread push_batch
  page_last again n cursor next reached r [] a p e = inl (refl, refl)
  page_last again n cursor next reached r (fan ∷ page) a p e =
      let s = push_batch cfg now (entry_of event) (fan ∷ page) r in
      elim (turn_last again n cursor next (length (fan ∷ page)) (reached + length (fan ∷ page)) s a
        e) [ inr m ↦ rw (p) (inr m) | inl t ↦ rw (p, t) (inl (refl, refl)) ]

  pub pages-Spread :
      (fuel n : ℕ) (cursor : Bytes) (reached : ℕ) (r : Redis) (fans : List ℕ)
      → f.s_add ≡ false
      → ((i : ℕ) → f.push i ≡ false)
      → reached < cfg.celebrity_threshold
      → cfg.celebrity_threshold ≤ reached + fuel
      → Serves cfg.fanout_batch_size lister cursor fans
      → Spread fans r (push_pages cfg f lister now event fuel n cursor reached r)
  unfolding push_pages
  pages-Spread zero n cursor reached r fans a p l g s = absurd (omega arith)
  pages-Spread (suc fuel) n _ reached r _ a p l g (last_page cursor next fans e d) =
      subst
        (λ o. Spread fans r (page_of (push_pages cfg f lister now event fuel) n cursor reached r o))
        (sym e)
        (page_last (push_pages cfg f lister now event fuel) n cursor next reached r fans a (p n) d)
  pages-Spread (suc fuel) n _ reached r _ a p l g (full_page cursor next fans rest e d x y z s) =
      subst
        (λ o.
          Spread (fans ++ rest) r
            (page_of (push_pages cfg f lister now event fuel) n cursor reached r o))
        (sym e)
        (page_full (push_pages cfg f lister now event fuel) n cursor next reached r fans rest a
          (p n) d x y z
          (λ below.
            pages-Spread fuel (n + 1) next (reached + length fans) _ rest a p below (omega arith)
              s))
