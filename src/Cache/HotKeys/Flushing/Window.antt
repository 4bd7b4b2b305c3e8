-- ===== src/Cache/HotKeys/Flushing/Window.antt =====
-- What flushOnce of internal/cache/hotkey.go counts and deletes.
use zhiguang_go.Base.{
  ℕ, zero, suc, ◌+◌, ◌-◌, ◌≤◌, ◌<◌, ◌≡◌, refl, sym, ap, ◌∙◌, subst, inl, inr, true, false, ◌||◌,
  Option, none, some, List, [], ◌∷◌, map, arith, ltb, Bool-cases, All, Bytes, bytes_eq, update,
  bytes_eq_iff, update_lem,
}
use mathlib.Core.Path.{ap₂}
use zhiguang_go.Cache.HotKeys.Evicting.{IsMap}
use zhiguang_go.Base.Int.{ℤ, pos}
use zhiguang_go.Base.Decimal.{format_int, parse_int, parse_int-format_int, two_63}
use zhiguang_go.Cache.HotKeys.{
  HotKeyConfig, Level, Buffer, Buckets, find, current_bucket, countdown, stale_bucket_fields,
  in_window, add_entry, sum_from, sum_buckets_in_window, calc_level,
}
use zhiguang_go.Cache.HotKeys.Flushing.{
  write_stats, hincr_buckets, is_field, hdel, Detector, Faults, read_levels, flushed, flush_once,
}

module _ (cfg : HotKeyConfig) (bucket : ℕ) (fits : bucket < two_63) where
  -- The field is a bucket that is not in the window.
  IsPast : Bytes → Type 0
  IsPast f = (b : ℕ) × (b + cfg.bucket_count ≤ bucket) × (f ≡ format_int (pos b))

  countdown-IsPast :
      (n b : ℕ)
      → b + cfg.bucket_count ≤ bucket
      → All IsPast (map (λ c. format_int (pos c)) (countdown b n))
  unfolding countdown IsPast
  countdown-IsPast zero b h = tt
  countdown-IsPast (suc n) b h = ((b, h, refl), countdown-IsPast n (b - 1) (omega arith))

  stale-IsPast : All IsPast (stale_bucket_fields cfg bucket)
  unfolding stale_bucket_fields
  stale-IsPast = elim (Bool-cases (ltb bucket cfg.bucket_count)) [
    | inl b ↦ rw (b) tt
    | inr b ↦ rw (b) (countdown-IsPast _ (bucket - cfg.bucket_count) (ground arith))
  ]

  uncounted :
      (b : ℕ) (count : Option ℤ) (total : ℤ)
      → b + cfg.bucket_count ≤ bucket
      → add_entry cfg bucket (some (pos b)) count total ≡ total
  unfolding add_entry in_window
  uncounted b none total h = refl
  uncounted b (some n) total h = ground arith

  past_uncounted :
      (f v : Bytes) (total : ℤ)
      → IsPast f
      → add_entry cfg bucket (parse_int f) (parse_int v) total ≡ total
  unfolding IsPast add_entry in_window
  past_uncounted f v total (b, h, e) =
      rw (ap parse_int e ∙ parse_int-format_int (pos b) (omega arith))
        (uncounted b (parse_int v) total h)

  is_field-IsPast :
      (f : Bytes) (fields : List Bytes) → is_field f fields ≡ true → All IsPast fields → IsPast f
  unfolding is_field
  is_field-IsPast f [] e past = absurd (cc)
  is_field-IsPast f (g ∷ fields) e (p, past) = elim (Bool-cases (bytes_eq f g)) [
    | inl b ↦ subst IsPast (sym ((bytes_eq_iff f g).0 b)) p
    | inr b ↦ is_field-IsPast f fields (sym (ap (λ x. x || is_field f fields) b) ∙ e) past
  ]

  sum_from-hdel :
      (fields : List Bytes) (h : List (Bytes × Bytes)) (total : ℤ)
      → All IsPast fields
      → sum_from cfg bucket (hdel fields h) total ≡ sum_from cfg bucket h total
  unfolding sum_from hdel
  sum_from-hdel fields [] total past = refl
  sum_from-hdel fields ((f, v) ∷ h) total past = elim (Bool-cases (is_field f fields)) [
    | inl b ↦ rw (b) (
        sum_from-hdel fields h total past
        ∙ ap (sum_from cfg bucket h)
            (sym (past_uncounted f v total (is_field-IsPast f fields b past))))
    | inr b ↦ rw (b) (sum_from-hdel fields h _ past)
  ]

  hdel_keeps_sum :
      (h : List (Bytes × Bytes))
      → sum_buckets_in_window cfg (hdel (stale_bucket_fields cfg bucket) h) bucket
        ≡ sum_buckets_in_window cfg h bucket
  unfolding sum_buckets_in_window
  hdel_keeps_sum h = sum_from-hdel (stale_bucket_fields cfg bucket) h (pos 0) stale-IsPast

module _ {V : Type 0} (j k : Bytes) (v : V) (m : List (Bytes × V)) where
  find_here : bytes_eq j k ≡ true → find ((j, v) ∷ m) k ≡ some v
  unfolding find
  find_here b = rw (b) refl

  find_there : bytes_eq j k ≡ false → find ((j, v) ∷ m) k ≡ find m k
  unfolding find
  find_there b = rw (b) refl

module _ (cfg : HotKeyConfig) (bucket : ℕ) where
  -- The hash of Redis after the flush.
  abbrev counted : Buckets → List (Bytes × Bytes) → List (Bytes × Bytes)
  counted bs h = hdel (stale_bucket_fields cfg bucket) (hincr_buckets bs h)

  abbrev level_of : List (Bytes × Bytes) → Level
  level_of h = calc_level cfg (sum_buckets_in_window cfg h bucket)

  write_stats_absent :
      (k : Bytes) (buf : Buffer) (stats : Bytes → List (Bytes × Bytes))
      → find buf k ≡ none
      → write_stats cfg bucket buf stats k ≡ stats k
  unfolding write_stats find
  write_stats_absent k [] stats e = refl
  write_stats_absent k ((j, bs) ∷ buf) stats e = elim (Bool-cases (bytes_eq j k)) [
    | inl b ↦ absurd (let z : some bs ≡ none = sym (find_here j k bs buf b) ∙ e in cc)
    | inr b ↦
        write_stats_absent k buf (update stats j (counted bs (stats j)))
          (sym (find_there j k bs buf b) ∙ e)
        ∙ (update_lem stats j k (counted bs (stats j)) ∙ rw (b) refl)
  ]

  write_stats_found :
      (k : Bytes) (bs : Buckets) (buf : Buffer) (stats : Bytes → List (Bytes × Bytes))
      → IsMap buf
      → find buf k ≡ some bs
      → write_stats cfg bucket buf stats k ≡ counted bs (stats k)
  unfolding write_stats find
  write_stats_found k bs [] stats m e = absurd (cc)
  write_stats_found k bs ((j, cs) ∷ buf) stats (n, m) e = elim (Bool-cases (bytes_eq j k)) [
    | inl b ↦
        let here : j ≡ k = (bytes_eq_iff j k).0 b in
        let now : some cs ≡ some bs = sym (find_here j k cs buf b) ∙ e in
        let same : cs ≡ bs = cc in
        write_stats_absent k buf (update stats j (counted cs (stats j)))
          (ap (find buf) (sym here) ∙ n)
        ∙ (update_lem stats j k (counted cs (stats j))
            ∙ (rw (b) (ap₂ counted same (ap stats here))))
    | inr b ↦
        write_stats_found k bs buf (update stats j (counted cs (stats j))) m
          (sym (find_there j k cs buf b) ∙ e)
        ∙ ap (counted bs) (update_lem stats j k (counted cs (stats j)) ∙ rw (b) refl)
  ]

  read_levels_found :
      (f : Faults) (k : Bytes) (bs : Buckets) (buf : Buffer) (stats : Bytes → List (Bytes × Bytes))
      → find buf k ≡ some bs
      → f.unread k ≡ false
      → find (read_levels cfg f bucket buf stats) k
        ≡ some (calc_level cfg (sum_buckets_in_window cfg (stats k) bucket))
  unfolding read_levels find
  read_levels_found f k bs [] stats e r = absurd (cc)
  read_levels_found f k bs ((j, cs) ∷ buf) stats e r = elim (Bool-cases (bytes_eq j k)) [
    | inl b ↦
        let here : j ≡ k = (bytes_eq_iff j k).0 b in
        rw (ap f.unread here ∙ r) (
          find_here j k (level_of (stats j)) (read_levels cfg f bucket buf stats) b
          ∙ ap (λ i. some (level_of (stats i))) here)
    | inr b ↦
        let rest = read_levels_found f k bs buf stats (sym (find_there j k cs buf b) ∙ e) r in
        elim (Bool-cases (f.unread j)) [
          | inl u ↦ rw (u) rest
          | inr u ↦
              rw (u)
                (find_there j k (level_of (stats j)) (read_levels cfg f bucket buf stats) b ∙ rest)
        ]
  ]

empty_lem : (k : Bytes) (bs : Buckets) → find [] k ≡ some bs → ⊥
unfolding find
empty_lem k bs e = cc

flushed_level :
    (cfg : HotKeyConfig) (f : Faults) (bucket : ℕ) (buf : Buffer) (d : Detector) (k : Bytes)
    (bs : Buckets)
    → bucket < two_63
    → IsMap buf
    → find buf k ≡ some bs
    → f.write ≡ false
    → f.unread k ≡ false
    → find (flushed cfg f bucket buf d).levels k
      ≡ some (level_of cfg bucket (hincr_buckets bs (d.stats k)))
unfolding flushed
flushed_level cfg f bucket [] d k bs fits m e w r = absurd (empty_lem k bs e)
flushed_level cfg f bucket (e ∷ buf) d k bs fits m found w r = rw (w) (
    read_levels_found cfg bucket f k bs (e ∷ buf) (write_stats cfg bucket (e ∷ buf) d.stats) found r
    ∙ ap (λ h. some (level_of cfg bucket h))
        (write_stats_found cfg bucket k bs (e ∷ buf) d.stats m found)
    ∙ ap (λ total. some (calc_level cfg total))
        (hdel_keeps_sum cfg bucket fits (hincr_buckets bs (d.stats k))))

-- After flushOnce has written its counts, each key that stood in the buffer and whose hash could be read
-- has the level of the sum over the window of what Redis held for it and what was counted: the buckets
-- that are deleted are none that the sum counts.
pub flush_once_level :
    (cfg : HotKeyConfig) (f : Faults) (now : ℕ) (d : Detector) (k : Bytes) (bs : Buckets)
    → current_bucket cfg now < two_63
    → IsMap d.buf
    → find d.buf k ≡ some bs
    → f.write ≡ false
    → f.unread k ≡ false
    → find (flush_once cfg f now d).levels k
      ≡ some (
          calc_level cfg
            (sum_buckets_in_window cfg (hincr_buckets bs (d.stats k)) (current_bucket cfg now)))
unfolding flush_once
flush_once_level cfg f now d k bs = flushed_level cfg f (current_bucket cfg now) d.buf d k bs
