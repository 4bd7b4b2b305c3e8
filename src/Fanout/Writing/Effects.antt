-- ===== src/Fanout/Writing/Effects.antt =====
-- What the pipelines of internal/fanout do to each box.
use zhiguang_go.Base.{
  ℕ, ◌+◌, ◌≡◌, refl, ap, ◌∙◌, inl, inr, Bool, true, false, not, ◌&&◌, ◌||◌, Option, List, [], ◌∷◌,
  ◌++◌, arith, if◌then◌else◌, Bool-cases, All, Bytes, bytes_eq, update, bytes_eq_iff, bytes_eq_refl,
  update_lem,
}
use zhiguang_go.Base.Decimal.{format_uint}
use zhiguang_go.Fanout.Writing.{is_celebrity, fallen, demote}
use zhiguang_go.Base.Int.{ℤ}
use zhiguang_go.Fanout.Timeline.{ZSet}
use zhiguang_go.Fanout.Boxes.{push_item, push_item_again}
use zhiguang_go.Fanout.Writing.{
  Faults, Redis, timeline_key, author_box_key, put_item, push_batch, set_celebrity,
}
use zhiguang_go.Fanout.Config.{Config}

pub update_box :
    (boxes : Bytes → ZSet) (k key : Bytes) (g : ZSet → ZSet)
    → update boxes k (g (boxes k)) key ≡ (if bytes_eq k key then g (boxes key) else boxes key)
update_box boxes k key g = elim (Bool-cases (bytes_eq k key)) [
  | inl b ↦ update_lem boxes k key _ ∙ rw (b) (ap (λ x. g (boxes x)) ((bytes_eq_iff k key).0 b))
  | inr b ↦ update_lem boxes k key _ ∙ rw (b) refl
]

-- Whether the key is the inbox of one of the users.
pub is_inbox : List ℕ → Bytes → Bool
is_inbox [] key = false
is_inbox (fan ∷ fans) key = bytes_eq (timeline_key fan) key || is_inbox fans key

pub author_box-no_inbox :
    (author : ℕ) (fans : List ℕ) → is_inbox fans (author_box_key author) ≡ false
unfolding is_inbox timeline_key author_box_key bytes_eq
author_box-no_inbox author [] = refl
author_box-no_inbox author (fan ∷ fans) = author_box-no_inbox author fans

pub All_weaken : {P Q : ℕ → Type 0} (xs : List ℕ) → ((x : ℕ) → P x → Q x) → All P xs → All Q xs
All_weaken [] h a = tt
All_weaken (x ∷ xs) h (p, a) = (h x p, All_weaken xs h a)

pub All-is_inbox : (fans : List ℕ) → All (λ fan. is_inbox fans (timeline_key fan) ≡ true) fans
unfolding is_inbox
All-is_inbox [] = tt
All-is_inbox (fan ∷ fans) = (
  rw (bytes_eq_refl (timeline_key fan)) refl,
  All_weaken {P = λ x. is_inbox fans (timeline_key x) ≡ true} fans
      (λ x h. first_or (bytes_eq (timeline_key fan) (timeline_key x)) _ h) (All-is_inbox fans),
)
  where
    first_or : (a b : Bool) → b ≡ true → a || b ≡ true
    first_or a b h = ground arith

module _ (cfg : Config) (now : ℕ) (e : Bytes × ℤ) where
  -- The box at a key after the entry has been pushed to the users.
  pub delivered : List ℕ → Bytes → ZSet → ZSet
  delivered fans key box = if is_inbox fans key then push_item cfg.timeline_max_items e box else box

  delivered_pushed :
      (fans : List ℕ) (key : Bytes) (box : ZSet)
      → delivered fans key (push_item cfg.timeline_max_items e box)
        ≡ push_item cfg.timeline_max_items e box
  unfolding delivered
  delivered_pushed fans key box = elim (Bool-cases (is_inbox fans key)) [
    | inl b ↦ rw (b) (push_item_again cfg.timeline_max_items e box)
    | inr b ↦ rw (b) refl
  ]

  delivered_first :
      (fan : ℕ) (fans : List ℕ) (key : Bytes) (boxes : Bytes → ZSet)
      → delivered fans key (
          update boxes
            (timeline_key fan)
            (push_item cfg.timeline_max_items e (boxes (timeline_key fan)))
            key)
        ≡ delivered (fan ∷ fans) key (boxes key)
  unfolding delivered is_inbox
  delivered_first fan fans key boxes =
      let pushed = update_box boxes (timeline_key fan) key (push_item cfg.timeline_max_items e) in
      elim (Bool-cases (bytes_eq (timeline_key fan) key)) [
        | inl b ↦ rw (pushed, b) (delivered_pushed fans key (boxes key))
        | inr b ↦ rw (pushed, b) refl
      ]

  pub delivered_inside :
      (fans : List ℕ) (key : Bytes) (box : ZSet)
      → is_inbox fans key ≡ true
      → delivered fans key box ≡ push_item cfg.timeline_max_items e box
  unfolding delivered
  delivered_inside fans key box b = rw (b) refl

  pub delivered_outside :
      (fans : List ℕ) (key : Bytes) (box : ZSet)
      → is_inbox fans key ≡ false
      → delivered fans key box ≡ box
  unfolding delivered
  delivered_outside fans key box b = rw (b) refl

  pub push_batch_boxes :
      (fans : List ℕ) (r : Redis) (key : Bytes)
      → (push_batch cfg now e fans r).boxes key ≡ delivered fans key (r.boxes key)
  unfolding push_batch delivered is_inbox put_item
  push_batch_boxes [] r key = refl
  push_batch_boxes (fan ∷ fans) r key =
      push_batch_boxes fans
        (put_item cfg.timeline_max_items (now + cfg.timeline_ttl) (timeline_key fan) e r) key
      ∙ delivered_first fan fans key r.boxes

  pub delivered_again :
      (fans : List ℕ) (key : Bytes) (box : ZSet)
      → delivered fans key (delivered fans key box) ≡ delivered fans key box
  unfolding delivered
  delivered_again fans key box = elim (Bool-cases (is_inbox fans key)) [
    | inl b ↦ rw (b) (push_item_again cfg.timeline_max_items e box)
    | inr b ↦ rw (b) refl
  ]

  pub push_batch-append :
      (xs ys : List ℕ) (r : Redis)
      → push_batch cfg now e (xs ++ ys) r ≡ push_batch cfg now e ys (push_batch cfg now e xs r)
  unfolding push_batch
  push_batch-append [] ys r = refl
  push_batch-append (x ∷ xs) ys r = push_batch-append xs ys _

  pub push_batch_celebrities :
      (fans : List ℕ) (r : Redis) → (push_batch cfg now e fans r).celebrities ≡ r.celebrities
  unfolding push_batch put_item
  push_batch_celebrities [] r = refl
  push_batch_celebrities (fan ∷ fans) r = push_batch_celebrities fans _

pub is_celebrity_boxes :
    (f : Faults) (threshold : ℕ) (count : Option ℤ) (author : ℕ) (r : Redis)
    → (is_celebrity f threshold count author r).1.boxes ≡ r.boxes
unfolding is_celebrity demote set_celebrity
is_celebrity_boxes f threshold count author r =
    elim (Bool-cases (not f.is_member && r.celebrities (format_uint author))) [
      | inr a ↦ rw (a) refl
      | inl a ↦ elim (Bool-cases (fallen threshold count)) [
        | inr b ↦ rw (a, b) refl
        | inl b ↦ elim (Bool-cases f.s_rem) [
          | inl c ↦ rw (a, b, c) refl
          | inr c ↦ rw (a, b, c) refl
        ]
      ]
    ]
