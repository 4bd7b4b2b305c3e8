-- ===== src/Cache/Bloom/Tests.antt =====
-- The filter as an exact list.
use zhiguang_go.Base.{
  inl, ◌≡◌, refl, Bool, true, false, not, ◌||◌, none, some, List, [], ◌∷◌, arith, keep, Bytes,
  codes, bytes_eq, bytes_eq_refl,
}
use zhiguang_go.Base.Decimal.{format_uint}
use zhiguang_go.Cache.Bloom.{
  bool_answer, redis_truthy, Filter, Errors, add, might_contain, warm_detail_bloom,
  is_unknown_command_err,
}
use zhiguang_go.Cache.Bloom.FailOpen.{HasNoFalseNegatives, adding, asking, run, might_contain-add}
use zhiguang_go.Cache.Bloom.Gaps.{no_errors, connected, fresh, might_contain_misses}

listed : List Bytes → Bytes → Bool
listed [] m = false
listed (x ∷ xs) m = bytes_eq x m || listed xs m

abbrev exact : Filter (List Bytes)
exact = record {
  reserved = [];
  cf_add = λ f m. m ∷ f;
  cf_del = λ f m. keep (λ x. not (bytes_eq x m)) f;
  cf_exists = λ f m. bool_answer (listed f m);
}

exact-HasNoFalseNegatives : HasNoFalseNegatives exact
unfolding redis_truthy listed
exact-HasNoFalseNegatives = record {
  exists_added = λ f m. rw (bytes_eq_refl m) refl;
  exists_kept = λ f m x h. ground (arith, h);
}

abbrev timeout : Errors
timeout = record {
  exists_key = none;
  raced = [];
  reserve = none;
  command = some (codes "i/o timeout");
}

might_contain-add_example :
    (might_contain exact timeout (codes "7") (
      run exact
        (adding timeout (codes "8") ∷ asking no_errors (codes "9") ∷ [])
        (add exact no_errors (codes "7") (fresh, none)))).0.0
    ≡ true
might_contain-add_example =
    might_contain-add exact exact-HasNoFalseNegatives no_errors timeout (codes "7") (fresh, none)
      (adding timeout (codes "8") ∷ asking no_errors (codes "9") ∷ []) (omega arith) refl refl refl
      refl

might_contain_misses_example :
    ((might_contain exact no_errors
        (codes "7")
        (add exact timeout (codes "7") (connected, some []))).0.0
      ≡ redis_truthy (exact.cf_exists [] (codes "7")))
    × ((might_contain exact no_errors (format_uint 8) (fresh, none)).0.0 ≡ true)
    × ((might_contain exact no_errors
          (format_uint 8)
          (warm_detail_bloom exact ((7, no_errors) ∷ []) (fresh, none))).0.0
        ≡ redis_truthy
            (exact.cf_exists (exact.cf_add exact.reserved (format_uint 7)) (format_uint 8)))
might_contain_misses_example =
    might_contain_misses exact connected timeout (codes "7") [] 7 8 (omega arith)
      (unfold format_uint in omega arith) (unfold format_uint in omega arith) refl tt
      (unfold is_unknown_command_err in refl) (inl (λ h. cc))
