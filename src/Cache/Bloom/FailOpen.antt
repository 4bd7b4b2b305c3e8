-- ===== src/Cache/Bloom/FailOpen.antt =====
-- internal/cache/bloom.go: a member that was added is not denied.
use zhiguang_go.Base.{
  ◌<◌, ◌≡◌, refl, ap, ◌∙◌, inl, inr, Bool, true, false, not, ◌&&◌, ◌||◌, Option, none, some, List,
  [], ◌∷◌, arith, Bool-cases, length, Bytes,
}
use zhiguang_go.Cache.Bloom.{
  redis_truthy, Filter, Client, Errors, World, reserve_key, look_up, ensure_ready, add_to,
  add_ready, add, is_warm, has, ask, might_contain,
}

-- What the module promises of CF.ADD and CF.EXISTS, as long as nothing is deleted.
pub record HasNoFalseNegatives {F : Type 0} (cf : Filter F) : Type 0 where
  pub exists_added : (f : F) (m : Bytes) → redis_truthy (cf.cf_exists (cf.cf_add f m) m) ≡ true
  pub exists_kept :
      (f : F) (m x : Bytes)
      → redis_truthy (cf.cf_exists f x) ≡ true
      → redis_truthy (cf.cf_exists (cf.cf_add f m) x) ≡ true

-- An operation on the filter, with the errors that it meets.
pub data Op : Type 0 where
  adding : Errors → Bytes → Op
  asking : Errors → Bytes → Op

module _ {F : Type 0} (cf : Filter F) where
  abbrev pub step : Op → World cf → World cf
  step (adding x m) w = add cf x m w
  step (asking x m) w = (might_contain cf x m w).1

  pub run : List Op → World cf → World cf
  run [] w = w
  run (op ∷ ops) w = run ops (step op w)

  ensure_ready_filter :
      (x : Errors) (c : Client) (f : F) → (ensure_ready cf x (c, some f)).1.1 ≡ some f
  unfolding ensure_ready look_up
  ensure_ready_filter x c f = elim (Bool-cases c.module_fail) [
    | inl a ↦ rw (a) refl
    | inr a ↦ elim (Bool-cases (c.ensured && c.module_ok)) [
      | inl b ↦ rw (a, b) refl
      | inr b ↦ rw (a, b) (looked _ x.exists_key)
    ]
  ]
    where
      looked : (d : Client) (e : Option Bytes) → (look_up cf x e (d, some f)).1.1 ≡ some f
      looked d none = refl
      looked d (some e) = refl

  module _ (laws : HasNoFalseNegatives cf) (m : Bytes) where
    added_keeps :
        (e : Option Bytes) (n : Bytes) (x : Bool × World cf) (f : F)
        → x.1.1 ≡ some f
        → redis_truthy (cf.cf_exists f m) ≡ true
        → has cf (add_ready cf e n x).1 m ≡ true
    unfolding add_ready add_to has
    added_keeps e n (false, (c, s)) f q h = ap (λ t. has cf t m) q ∙ h
    added_keeps (some e) n (true, (c, s)) f q h = ap (λ t. has cf t m) q ∙ h
    added_keeps none n (true, (c, s)) f q h =
        ap (λ t. has cf (add_to cf t n) m) q ∙ laws.exists_kept f n m h

    add_keeps :
        (x : Errors) (n : Bytes) (w : World cf)
        → has cf w.1 m ≡ true
        → has cf (add cf x n w).1 m ≡ true
    unfolding add has
    add_keeps x [] w h = h
    add_keeps x (b ∷ n) (c, none) h = absurd (cc)
    add_keeps x (b ∷ n) (c, some f) h =
        added_keeps x.command (b ∷ n) (ensure_ready cf x (c, some f)) f (ensure_ready_filter x c f)
          h

    ask_keeps :
        (x : Errors) (n : Bytes) (w : World cf)
        → has cf w.1 m ≡ true
        → has cf (might_contain cf x n w).1.1 m ≡ true
    unfolding might_contain
    ask_keeps x [] w h = h
    ask_keeps x (b ∷ n) w h = elim (Bool-cases (w.0.module_fail || not (is_warm cf x w))) [
      | inl d ↦ rw (d) h
      | inr d ↦ rw (d) (asked x.command w h)
    ]
      where
        asked :
            (e : Option Bytes) (v : World cf)
            → has cf v.1 m ≡ true
            → has cf (ask cf e (b ∷ n) v).1.1 m ≡ true
        asked none v k = k
        asked (some e) v k = k

    run_keeps : (ops : List Op) (w : World cf) → has cf w.1 m ≡ true → has cf (run ops w).1 m ≡ true
    unfolding run
    run_keeps [] w h = h
    run_keeps (adding x n ∷ ops) w h = run_keeps ops (add cf x n w) (add_keeps x n w h)
    run_keeps (asking x n ∷ ops) w h = run_keeps ops (might_contain cf x n w).1 (ask_keeps x n w h)

  never_denied :
      (y : Errors) (m : Bytes) (w : World cf)
      → has cf w.1 m ≡ true
      → (might_contain cf y m w).0.0 ≡ true
  unfolding might_contain
  never_denied y [] w h = refl
  never_denied y (b ∷ m) w h = elim (Bool-cases (w.0.module_fail || not (is_warm cf y w))) [
    | inl d ↦ rw (d) refl
    | inr d ↦ rw (d) (asked y.command w h)
  ]
    where
      asked :
          (e : Option Bytes) (v : World cf)
          → has cf v.1 (b ∷ m) ≡ true
          → (ask cf e (b ∷ m) v).0.0 ≡ true
      asked none v k = k
      asked (some e) v k = refl

  ensure_ready_ok :
      (x : Errors) (c : Client) (s : Option F)
      → c.module_fail ≡ false
      → x.exists_key ≡ none
      → x.reserve ≡ none
      → (ensure_ready cf x (c, s)).0 ≡ true
  unfolding ensure_ready look_up reserve_key
  ensure_ready_ok x c s a e r = elim (Bool-cases (c.ensured && c.module_ok)) [
    | inl b ↦ rw (a, b) refl
    | inr b ↦ rw (a, b) (looked _ s x.exists_key e)
  ]
    where
      reserved_ok :
          (d : Client) (o : Option Bytes) → o ≡ none → (reserve_key cf x.raced o d).0 ≡ true
      reserved_ok d none q = refl
      reserved_ok d (some t) q = absurd (cc)

      looked :
          (d : Client) (t : Option F) (o : Option Bytes)
          → o ≡ none
          → (look_up cf x o (d, t)).0 ≡ true
      looked d t (some o) q = absurd (cc)
      looked d (some f) none q = refl
      looked d none none q = reserved_ok d x.reserve r

  has-add_ready :
      (laws : HasNoFalseNegatives cf) (n : Bytes) (e : Option Bytes) (x : Bool × World cf)
      → e ≡ none
      → x.0 ≡ true
      → has cf (add_ready cf e n x).1 n ≡ true
  unfolding add_ready add_to has
  has-add_ready laws n e (false, w) q h = absurd (cc)
  has-add_ready laws n (some e) (true, w) q h = absurd (cc)
  has-add_ready laws n none (true, (c, none)) q h = laws.exists_added cf.reserved n
  has-add_ready laws n none (true, (c, some f)) q h = laws.exists_added f n

  has-add :
      (laws : HasNoFalseNegatives cf) (x : Errors) (m : Bytes) (w : World cf)
      → 0 < length m
      → w.0.module_fail ≡ false
      → x.exists_key ≡ none
      → x.reserve ≡ none
      → x.command ≡ none
      → has cf (add cf x m w).1 m ≡ true
  unfolding add
  has-add laws x [] w p a e r c = absurd (omega arith)
  has-add laws x (b ∷ m) (c, s) p a e r q =
      has-add_ready laws (b ∷ m) x.command (ensure_ready cf x (c, s)) q
        (ensure_ready_ok x c s a e r)

-- A member that was added without an error is never denied from then on: after further additions and
-- questions, whichever of their calls fail with whatever errors, MightContain answers true, also if its
-- own calls fail. The module is taken to keep what was added, and nothing is deleted.
pub might_contain-add :
    {F : Type 0} (cf : Filter F) (laws : HasNoFalseNegatives cf) (x y : Errors) (m : Bytes)
    (w : World cf) (ops : List Op)
    → 0 < length m
    → w.0.module_fail ≡ false
    → x.exists_key ≡ none
    → x.reserve ≡ none
    → x.command ≡ none
    → (might_contain cf y m (run cf ops (add cf x m w))).0.0 ≡ true
might_contain-add cf laws x y m w ops p a e r c =
    never_denied cf y m (run cf ops (add cf x m w))
      (run_keeps cf laws m ops (add cf x m w) (has-add cf laws x m w p a e r c))
