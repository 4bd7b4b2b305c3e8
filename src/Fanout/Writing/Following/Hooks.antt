-- ===== src/Fanout/Writing/Following/Hooks.antt =====
-- OnFollow and OnUnfollow of internal/fanout: an unfollow undoes a follow.
use zhiguang_go.Base.{
  if_true, if_false, ℕ, zero, suc, ◌+◌, ◌≤◌, ◌≡◌, refl, sym, ap, ◌∙◌, subst, inl, inr, Bool, true,
  false, not, ◌&&◌, ◌||◌, Option, [], ◌∷◌, arith, ◌==◌, Bool-cases, length, take, length-take-le,
  length-keep-le, All, All-take, Bytes, bytes_eq, bytes_eq_iff, bytes_eq_refl, update_self,
  update_lem,
}
use zhiguang_go.Base.Int.{ℤ}
use zhiguang_go.Fanout.Timeline.{ZSet}
use zhiguang_go.Fanout.Boxes.{place, z_rem, z_add, precedes}
use zhiguang_go.Fanout.Writing.{Faults, Redis, Reply, timeline_key, author_box_key, is_celebrity}
use zhiguang_go.Fanout.Config.{Config}
use zhiguang_go.Fanout.Writing.Following.{
  z_add_all, backfill, follow_decided, on_follow, has_member, z_rem_all, clean_up, on_unfollow,
}
use zhiguang_go.Fanout.Writing.Effects.{is_celebrity_boxes}

module _ (gone : ZSet) where
  z_rem_all-place :
      (e : Bytes × ℤ) (box : ZSet)
      → has_member e.0 gone ≡ true
      → z_rem_all gone (place e box) ≡ z_rem_all gone box
  unfolding z_rem_all place
  z_rem_all-place e [] h = rw (h) refl
  z_rem_all-place e (x ∷ xs) h = elim (Bool-cases (precedes e x)) [
    | inl p ↦ rw (p, h) refl
    | inr p ↦ elim (Bool-cases (has_member x.0 gone)) [
      | inl b ↦ rw (p, b) (z_rem_all-place e xs h)
      | inr b ↦ rw (p, b) (ap (◌∷◌ x) (z_rem_all-place e xs h))
    ]
  ]

  z_rem_all-z_rem :
      (m : Bytes) (box : ZSet)
      → has_member m gone ≡ true
      → z_rem_all gone (z_rem m box) ≡ z_rem_all gone box
  unfolding z_rem_all z_rem
  z_rem_all-z_rem m [] h = refl
  z_rem_all-z_rem m (x ∷ xs) h = elim (Bool-cases (bytes_eq x.0 m)) [
    | inl b ↦
        let there : has_member x.0 gone ≡ true =
          ap (λ k. has_member k gone) ((bytes_eq_iff x.0 m).0 b) ∙ h in
        rw (b, there) (z_rem_all-z_rem m xs h)
    | inr b ↦ elim (Bool-cases (has_member x.0 gone)) [
      | inl c ↦ rw (b, c) (z_rem_all-z_rem m xs h)
      | inr c ↦ rw (b, c) (ap (◌∷◌ x) (z_rem_all-z_rem m xs h))
    ]
  ]

  z_rem_all-z_add_all :
      (items box : ZSet)
      → All (λ e. has_member e.0 gone ≡ true) items
      → z_rem_all gone (z_add_all items box) ≡ z_rem_all gone box
  unfolding z_add_all z_add
  z_rem_all-z_add_all [] box h = refl
  z_rem_all-z_add_all (e ∷ items) box (b, h) =
      z_rem_all-z_add_all items (z_add e box) h
      ∙ (z_rem_all-place e (z_rem e.0 box) b ∙ z_rem_all-z_rem e.0 box b)

length-place : (e : Bytes × ℤ) (box : ZSet) → length (place e box) ≡ length box + 1
unfolding place
length-place e [] = refl
length-place e (x ∷ xs) = ground (arith, length-place e xs)

length-z_add_all : (items box : ZSet) → length (z_add_all items box) ≤ length box + length items
unfolding z_add_all z_add z_rem
length-z_add_all [] box = omega arith
length-z_add_all (e ∷ items) box = omega (
  arith,
  length-z_add_all items (z_add e box),
  length-place e (z_rem e.0 box),
  length-keep-le (λ x. not (bytes_eq x.0 e.0)) box,
)

take_all : (n : ℕ) (box : ZSet) → length box ≤ n → take n box ≡ box
take_all zero [] h = refl
take_all zero (x ∷ xs) h = absurd (omega arith)
take_all (suc n) [] h = refl
take_all (suc n) (x ∷ xs) h = ap (◌∷◌ x) (take_all n xs (omega arith))

own-has_member : (box : ZSet) → All (λ e. has_member e.0 box ≡ true) box
unfolding has_member
own-has_member [] = tt
own-has_member (x ∷ xs) = (rw (bytes_eq_refl x.0) refl, more x xs xs (own-has_member xs))
  where
    more :
        (y : Bytes × ℤ) (ys es : ZSet)
        → All (λ e. has_member e.0 ys ≡ true) es
        → All (λ e. has_member e.0 (y ∷ ys) ≡ true) es
    more y ys [] h = tt
    more y ys (e ∷ es) (b, h) = (first_or (bytes_eq e.0 y.0) (has_member e.0 ys) b, more y ys es h)
      where
        first_or : (p q : Bool) → q ≡ true → p || q ≡ true
        first_or p q e = ground arith

z_rem_all-none : (box : ZSet) → z_rem_all [] box ≡ box
unfolding z_rem_all has_member
z_rem_all-none [] = refl
z_rem_all-none (x ∷ xs) = ap (◌∷◌ x) (z_rem_all-none xs)

inbox_apart : (fan author : ℕ) → bytes_eq (timeline_key fan) (author_box_key author) ≡ false
unfolding author_box_key timeline_key bytes_eq
inbox_apart fan author = refl

module _ (cfg : Config) (f : Faults) (now follower author : ℕ) where
  -- The author's box is as it was, and so is the inbox, but for the author's posts.
  abbrev Keeps : (Bytes → ZSet) → (Bytes → ZSet) → Type 0
  Keeps r s =
      (s (author_box_key author) ≡ r (author_box_key author))
      × (z_rem_all (r (author_box_key author)) (s (timeline_key follower))
          ≡ z_rem_all (r (author_box_key author)) (r (timeline_key follower)))

  backfill-Keeps :
      (items : ZSet) (r : Redis)
      → All (λ e. has_member e.0 (r.boxes (author_box_key author)) ≡ true) items
      → length (r.boxes (timeline_key follower)) + length items ≤ cfg.timeline_max_items
      → Keeps r.boxes (backfill cfg f now (timeline_key follower) items r).1.boxes
  unfolding backfill
  backfill-Keeps [] r a h = (refl, refl)
  backfill-Keeps (e ∷ items) r a h = elim (Bool-cases f.write_timeline) [
    | inl b ↦ rw (b) (refl, refl)
    | inr b ↦
        let box = z_add_all (e ∷ items) (r.boxes (timeline_key follower)) in
        let kept =
          ap (z_rem_all (r.boxes (author_box_key author))) (
            update_self r.boxes (timeline_key follower) (take cfg.timeline_max_items box)
            ∙ take_all cfg.timeline_max_items box
                (omega (arith, length-z_add_all (e ∷ items) (r.boxes (timeline_key follower)))))
          ∙ z_rem_all-z_add_all (r.boxes (author_box_key author)) (e ∷ items)
              (r.boxes (timeline_key follower)) a in
        rw (b) (
          update_lem r.boxes (timeline_key follower) (author_box_key author) _
              ∙ rw (inbox_apart follower author) refl,
          kept,
        )
  ]

  decided-Keeps :
      (x : (Bool × Bool) × Redis)
      → length (x.1.boxes (timeline_key follower)) + cfg.follow_backfill_limit
        ≤ cfg.timeline_max_items
      → Keeps x.1.boxes (follow_decided cfg f now follower author x).1.boxes
  unfolding follow_decided
  decided-Keeps ((celebrity, known), r) h = elim (Bool-cases (known && celebrity)) [
    | inl b ↦ rw (b) (refl, refl)
    | inr b ↦ elim (Bool-cases f.read_box) [
      | inl c ↦ rw (b, c) (refl, refl)
      | inr c ↦
          let box = r.boxes (author_box_key author) in
          rw (b, c)
            (backfill-Keeps (take cfg.follow_backfill_limit box) r
              (All-take (λ e. has_member e.0 box ≡ true) cfg.follow_backfill_limit box
                (own-has_member box))
              (omega (arith, length-take-le cfg.follow_backfill_limit box)))
    ]
  ]

  cleaned :
      (items : ZSet) (r : Redis) (key : Bytes)
      → f.write_timeline ≡ false
      → ((clean_up f key items r).0 ≡ true)
        × ((clean_up f key items r).1.boxes key ≡ z_rem_all items (r.boxes key))
  unfolding clean_up
  cleaned [] r key b = (refl, sym (z_rem_all-none (r.boxes key)))
  cleaned (e ∷ items) r key b =
      rw (b) (refl, update_self r.boxes key (z_rem_all (e ∷ items) (r.boxes key)))

  unfollowed :
      (r : Redis)
      → f.read_box ≡ false
      → f.write_timeline ≡ false
      → ((on_unfollow f follower author r).0 ≡ true)
        × ((on_unfollow f follower author r).1.boxes (timeline_key follower)
            ≡ z_rem_all (r.boxes (author_box_key author)) (r.boxes (timeline_key follower)))
  unfolding on_unfollow
  unfollowed r b c = rw (b) (cleaned (r.boxes (author_box_key author)) r (timeline_key follower) c)

  on_follow_off :
      (count : Option ℤ) (r : Redis)
      → cfg.follow_backfill_limit == 0 ≡ true
      → on_follow cfg f now count follower author r ≡ (true, r)
  unfolding on_follow
  on_follow_off count r b = if_true _ _ b

  on_follow_on :
      (count : Option ℤ) (r : Redis)
      → cfg.follow_backfill_limit == 0 ≡ false
      → on_follow cfg f now count follower author r
        ≡ follow_decided cfg f now follower author
            (is_celebrity f cfg.celebrity_threshold count author r)
  unfolding on_follow
  on_follow_on count r b = if_false _ _ b

  followed-Keeps :
      (count : Option ℤ) (r : Redis)
      → length (r.boxes (timeline_key follower)) + cfg.follow_backfill_limit
        ≤ cfg.timeline_max_items
      → Keeps r.boxes (on_follow cfg f now count follower author r).1.boxes
  followed-Keeps count r h =
      let x = is_celebrity f cfg.celebrity_threshold count author r in
      let same : x.1.boxes ≡ r.boxes =
        is_celebrity_boxes f cfg.celebrity_threshold count author r in
      let fits : length (x.1.boxes (timeline_key follower)) + cfg.follow_backfill_limit
          ≤ cfg.timeline_max_items =
        subst
          (λ (b : Bytes → ZSet).
            length (b (timeline_key follower)) + cfg.follow_backfill_limit ≤ cfg.timeline_max_items)
          (sym same) h in
      elim (Bool-cases (cfg.follow_backfill_limit == 0)) [
        | inl b ↦
            subst (λ (y : Reply). Keeps r.boxes y.1.boxes) (sym (on_follow_off count r b))
              (refl, refl)
        | inr b ↦
            subst (λ (y : Reply). Keeps r.boxes y.1.boxes) (sym (on_follow_on count r b))
              (subst (λ k. Keeps k (follow_decided cfg f now follower author x).1.boxes) same
                (decided-Keeps x fits))
      ]

-- Where the backfill fits into the inbox, and OnUnfollow neither fails to read the author's box nor to
-- write the inbox, OnUnfollow after OnFollow, however that went, succeeds and leaves the inbox with what
-- stood in it before the two calls, but for all posts that are in the author's box.
pub on_unfollow-on_follow :
    (cfg : Config) (f g : Faults) (now : ℕ) (count : Option ℤ) (follower author : ℕ) (r : Redis)
    → g.read_box ≡ false
    → g.write_timeline ≡ false
    → length (r.boxes (timeline_key follower)) + cfg.follow_backfill_limit ≤ cfg.timeline_max_items
    → ((on_unfollow g follower author (on_follow cfg f now count follower author r).1).0 ≡ true)
      × ((on_unfollow g follower author (on_follow cfg f now count follower author r).1).1.boxes
            (timeline_key follower)
          ≡ z_rem_all (r.boxes (author_box_key author)) (r.boxes (timeline_key follower)))
on_unfollow-on_follow cfg f g now count follower author r b c h =
    let s = (on_follow cfg f now count follower author r).1 in
    let keeps = followed-Keeps cfg f now follower author count r h in
    let gone = unfollowed cfg g now follower author s b c in
    (
      gone.0,
      gone.1 ∙ (ap (λ items. z_rem_all items (s.boxes (timeline_key follower))) keeps.0 ∙ keeps.1),
    )
