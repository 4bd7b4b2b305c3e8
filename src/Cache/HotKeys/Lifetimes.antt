-- ===== src/Cache/HotKeys/Lifetimes.antt =====
-- TTLForPublicBatch of internal/cache/hotkey.go against TTLForPublic.
use zhiguang_go.Base.{
  ℕ, ◌≡◌, refl, sym, ap, ◌∙◌, subst, inl, inr, true, false, Option, none, some, List, [], ◌∷◌, map,
  arith, ltb, if◌then◌else◌, Bool-cases, Option-cases, length, Bytes, bytes_eq, bytes_eq_iff,
  bytes_eq_refl,
}
use mathlib.Core.Path.{ap₂}
use zhiguang_go.Base.Int.{ℤ}
use zhiguang_go.Cache.HotKeys.{
  Level, HotKeyConfig, Levels, find, put, ttl_for_level, parse_mark_level, remember, ttl_for_public,
  local_levels, mark_ttls, ttl_for_public_batch, local_ttl, local_ttls,
}

pub find-put :
    {V : Type 0} (k j : Bytes) (v : V) (m : List (Bytes × V))
    → find (put k v m) j ≡ (if bytes_eq k j then some v else find m j)
unfolding find put
find-put k j v [] = refl
find-put k j v ((i, w) ∷ m) =
    ground (arith, bytes_eq_iff k j, bytes_eq_iff i k, bytes_eq_iff i j, find-put k j v m)

module _ (cfg : HotKeyConfig) (max_keys : ℕ) (marks : Bytes → Option Bytes) (base : ℤ) where
  -- TTLForPublic for one key after the other
  pub one_by_one : List Bytes → Levels → List ℤ
  one_by_one [] levels = []
  one_by_one (k ∷ ks) levels =
      let (ttl, levels') = ttl_for_public cfg max_keys false marks base k levels in
      ttl ∷ one_by_one ks levels'

  -- The levels of a key: as before, or read from its mark since.
  data Agrees (k : Bytes) (before now : Levels) : Type 0 where
    same : find now k ≡ find before k → Agrees k before now
    learnt :
        (v : Bytes)
        → find before k ≡ none
        → marks k ≡ some v
        → find now k ≡ some (parse_mark_level v)
        → Agrees k before now

  moved :
      (j : Bytes) (before now later : Levels)
      → find later j ≡ find now j
      → Agrees j before now
      → Agrees j before later
  moved j before now later e (same q) = same (e ∙ q)
  moved j before now later e (learnt v m n q) = learnt v m n (e ∙ q)

  remember-Agrees :
      (k j v : Bytes) (before now : Levels)
      → find before k ≡ none
      → marks k ≡ some v
      → Agrees j before now
      → Agrees j before (remember max_keys k (parse_mark_level v) now)
  unfolding remember
  remember-Agrees k j v before now missing marked a =
      let l = parse_mark_level v in
      elim (Bool-cases (ltb (length now) max_keys)) [
        | inr full ↦ rw (full) a
        | inl room ↦ rw (room) (elim (Bool-cases (bytes_eq k j)) [
          | inl e ↦
              subst (λ x. Agrees x before (put k l now)) ((bytes_eq_iff k j).0 e)
                (learnt v missing marked (find-put k k l now ∙ rw (bytes_eq_refl k) refl))
          | inr ne ↦ moved j before now (put k l now) (find-put k j l now ∙ rw (ne) refl) a
        ])
      ]

  abbrev Agree : Levels → Levels → Type 0
  Agree before now = (k : Bytes) → Agrees k before now

  single_hit :
      (k : Bytes) (now : Levels) (l : Level)
      → find now k ≡ some l
      → ttl_for_public cfg max_keys false marks base k now ≡ (ttl_for_level cfg base l, now)
  unfolding ttl_for_public
  single_hit k now l e = rw (e) refl

  single_cold :
      (k : Bytes) (now : Levels)
      → find now k ≡ none
      → marks k ≡ none
      → ttl_for_public cfg max_keys false marks base k now ≡ (base, now)
  unfolding ttl_for_public ttl_for_level
  single_cold k now e m = rw (e, m) refl

  single_marked :
      (k v : Bytes) (now : Levels)
      → find now k ≡ none
      → marks k ≡ some v
      → ttl_for_public cfg max_keys false marks base k now ≡ (
        ttl_for_level cfg base (parse_mark_level v),
        remember max_keys k (parse_mark_level v) now,
      )
  unfolding ttl_for_public
  single_marked k v now e m = rw (e, m) refl

  known :
      (k : Bytes) (l : Level) (before now : Levels)
      → Agrees k before now
      → find before k ≡ some l
      → find now k ≡ some l
  known k l before now (same q) e = q ∙ e
  known k l before now (learnt v m n q) e = absurd (cc (m, e))

  unmarked_unknown :
      (k : Bytes) (before now : Levels)
      → Agrees k before now
      → find before k ≡ none
      → marks k ≡ none
      → find now k ≡ none
  unmarked_unknown k before now (same q) e m = q ∙ e
  unmarked_unknown k before now (learnt v n p q) e m = absurd (cc (m, p))

  learnt_level :
      (k v : Bytes) (l : Level) (before now : Levels)
      → Agrees k before now
      → find before k ≡ none
      → marks k ≡ some v
      → find now k ≡ some l
      → l ≡ parse_mark_level v
  learnt_level k v l before now (same q) e m t = absurd (cc (q, e, t))
  learnt_level k v l before now (learnt w n p q) e m t =
      let texts : w ≡ v = cc (p, m) in
      let levels : some l ≡ some (parse_mark_level w) = sym t ∙ q in
      let first : l ≡ parse_mark_level w = cc in first ∙ ap parse_mark_level texts

  mark_ttls-one_by_one :
      (ks : List Bytes) (before now other : Levels)
      → Agree before now
      → (mark_ttls cfg max_keys marks base (local_levels ks before) other).0 ≡ one_by_one ks now
  unfolding mark_ttls local_levels one_by_one
  mark_ttls-one_by_one [] before now other a = refl
  mark_ttls-one_by_one (k ∷ ks) before now other a = elim (Option-cases (find before k)) [
    | inr (l, hit) ↦ rw (hit) (
        ap (◌∷◌ (ttl_for_level cfg base l)) (mark_ttls-one_by_one ks before now other a)
        ∙ sym (
            ap (λ t. t.0 ∷ one_by_one ks t.1)
              (single_hit k now l (known k l before now (a k) hit))))
    | inl miss ↦ elim (Option-cases (marks k)) [
      | inl unmarked ↦
          rw (miss, unmarked)
            (ap (◌∷◌ base) (mark_ttls-one_by_one ks before now other a)
              ∙ sym (
                  ap (λ t. t.0 ∷ one_by_one ks t.1)
                    (single_cold k now (unmarked_unknown k before now (a k) miss unmarked)
                      unmarked)))
      | inr (v, marked) ↦ elim (Option-cases (find now k)) [
        | inl absent ↦
            rw (miss, marked)
              (ap (◌∷◌ (ttl_for_level cfg base (parse_mark_level v))) (
                  mark_ttls-one_by_one ks before (remember max_keys k (parse_mark_level v) now) _
                    (λ j. remember-Agrees k j v before now miss marked (a j)))
                ∙ sym (ap (λ t. t.0 ∷ one_by_one ks t.1) (single_marked k v now absent marked)))
        | inr (l, there) ↦
            let read : l ≡ parse_mark_level v =
              learnt_level k v l before now (a k) miss marked there in
            rw (miss, marked)
              (ap (◌∷◌ (ttl_for_level cfg base (parse_mark_level v)))
                  (mark_ttls-one_by_one ks before now _ a)
                ∙ sym (
                    ap (λ t. t.0 ∷ one_by_one ks t.1)
                      (single_hit k now (parse_mark_level v) (there ∙ ap some read))))
      ]
    ]
  ]

local_ttl-failing :
    (cfg : HotKeyConfig) (max_keys : ℕ) (marks : Bytes → Option Bytes) (base : ℤ) (k : Bytes)
    (levels : Levels)
    → local_ttl cfg base (find levels k) ≡ (ttl_for_public cfg max_keys true marks base k levels).0
unfolding local_ttl ttl_for_public ttl_for_level
local_ttl-failing cfg max_keys marks base k levels = elim (Option-cases (find levels k)) [
  | inl miss ↦ rw (miss) refl
  | inr (l, hit) ↦ rw (hit) refl
]

local_ttls-failing :
    (cfg : HotKeyConfig) (max_keys : ℕ) (marks : Bytes → Option Bytes) (base : ℤ) (ks : List Bytes)
    (levels : Levels)
    → local_ttls cfg base (local_levels ks levels)
      ≡ map (λ k. (ttl_for_public cfg max_keys true marks base k levels).0) ks
unfolding local_ttls local_levels
local_ttls-failing cfg max_keys marks base [] levels = refl
local_ttls-failing cfg max_keys marks base (k ∷ ks) levels =
    ap₂ ◌∷◌ (local_ttl-failing cfg max_keys marks base k levels)
      (local_ttls-failing cfg max_keys marks base ks levels)

-- TTLForPublicBatch gives each key the lifetime that TTLForPublic gives it: where Redis answers, when it
-- is called for one key after the other, and where Redis fails, when it fails for each key.
pub ttl_for_public_batch-one_by_one :
    (cfg : HotKeyConfig) (max_keys : ℕ) (marks : Bytes → Option Bytes) (base : ℤ) (ks : List Bytes)
    (levels : Levels)
    → ((ttl_for_public_batch cfg max_keys false marks base ks levels).0
        ≡ one_by_one cfg max_keys marks base ks levels)
      × ((ttl_for_public_batch cfg max_keys true marks base ks levels).0
          ≡ map (λ k. (ttl_for_public cfg max_keys true marks base k levels).0) ks)
unfolding ttl_for_public_batch
ttl_for_public_batch-one_by_one cfg max_keys marks base ks levels = (
  mark_ttls-one_by_one cfg max_keys marks base ks levels levels levels (λ k. same refl),
  local_ttls-failing cfg max_keys marks base ks levels,
)
