-- ===== src/Cache/Tests.antt =====
-- The theorem on the tiered read, for one number that is cached as a byte.
use zhiguang_go.Base.{
  ℕ, ◌≡◌, refl, sym, ap, ◌∙◌, ◌≢◌, true, false, Option, none, some, List, [], ◌∷◌, Bytes, codes,
  bytes_eq,
}
use zhiguang_go.Cache.Tiered.{
  Tiered, Caches, Faults, HitLevel, present, value, Round, busy, taken, fill_l1, get_l2,
  load_and_fill, cache_read_through, get,
}
use zhiguang_go.Cache.Tiered.Coherence.{IsCoherent, IsTrue}
use zhiguang_go.Cache.Tiered.Answers.{IsValue, get-IsValue}
use zhiguang_go.Cache.Tiered.Reads.{get-IsTrue}

abbrev encode : ℕ → Option Bytes
encode n = some (n ∷ [])

abbrev decode : Bytes → Option ℕ
decode [] = none
decode (n ∷ []) = some n
decode (n ∷ m ∷ r) = none

abbrev null_text : Bytes
null_text = codes "NULL"

abbrev tiered : Tiered
tiered = record {
  has_l1 = true;
  has_l2 = true;
  null_sentinel = null_text;
  has_null_ttl = true;
  has_l2_ttl = true;
  has_lock_key = true;
}

abbrev no_faults : Faults
no_faults = record { get = false; set_l2 = false; set_l1 = false }

abbrev empty : Caches
empty = record { l1 = none; l2 = none }

-- another holder of the lock has filled Redis
abbrev filled : Caches
filled = record { l1 = none; l2 = some (7 ∷ []) }

abbrev waits : List Round
waits = busy (λ c. c) false ∷ taken (λ c. filled) ∷ []

of_encode : (v : ℕ) (raw : Bytes) → encode v ≡ some raw → v ∷ [] ≡ raw
of_encode v raw e = let z : some (v ∷ []) ≡ some raw = e in cc

not_null : (v : ℕ) → v ∷ [] ≢ null_text
not_null v e = let z : v ∷ [] ≡ 78 ∷ 85 ∷ 76 ∷ 76 ∷ [] = e in cc

empty-IsCoherent : IsCoherent decode (some 7) null_text empty
empty-IsCoherent = record {
  in_l1 = λ raw v e d. let z : none ≡ some raw = e in cc;
  no_value = λ raw e n s. let z : none ≡ some raw = e in cc;
  in_l2 = λ raw v e n d. let z : none ≡ some raw = e in cc;
}

filled-IsCoherent : IsCoherent decode (some 7) null_text filled
filled-IsCoherent = record {
  in_l1 = λ raw v e d. let z : none ≡ some raw = e in cc;
  no_value = λ raw e n s.
      let z : some (7 ∷ []) ≡ some raw = e in
      let y : 7 ∷ [] ≡ raw = cc in absurd (not_null 7 (y ∙ s));
  in_l2 = λ raw v e n d.
      let z : some (7 ∷ []) ≡ some raw = e in let y : 7 ∷ [] ≡ raw = cc in ap decode y ∙ d;
}

get_waits :
    (get encode decode no_faults tiered none (present 7) waits empty).0 ≡ value 7 HitLevel.hit_l2
unfolding get get_l2 fill_l1 load_and_fill cache_read_through bytes_eq
get_waits = refl

get_loads :
    (get encode decode no_faults tiered none (present 7) (taken (λ c. c) ∷ []) empty).1
    ≡ record { l1 = some (7 ∷ []); l2 = some (7 ∷ []) }
unfolding get get_l2 fill_l1 load_and_fill cache_read_through bytes_eq
get_loads = refl

get-IsTrue_example :
    IsTrue decode
      (some 7)
      null_text
      (get encode decode no_faults tiered none (present 7) waits empty).0
    × IsCoherent decode
        (some 7)
        null_text
        (get encode decode no_faults tiered none (present 7) waits empty).1
get-IsTrue_example =
    get-IsTrue encode decode (some 7) tiered (λ v raw e. sym (ap decode (of_encode v raw e)))
      (λ v raw e s. not_null v (of_encode v raw e ∙ s)) no_faults none (present 7) waits empty refl
      ((λ c h. h), ((λ c h. filled-IsCoherent), tt)) empty-IsCoherent

get-IsValue_example : IsValue 7 (get encode decode no_faults tiered none (present 7) waits empty).0
get-IsValue_example =
    get-IsValue encode decode 7 tiered (λ v raw e. sym (ap decode (of_encode v raw e)))
      (λ v raw e s. not_null v (of_encode v raw e ∙ s)) no_faults none waits empty tt
      (refl, (λ c h. h), (λ c h. filled-IsCoherent)) empty-IsCoherent
