-- ===== src/Cache/Bloom/Gaps.antt =====
-- internal/cache/bloom.go: members that exist and are denied.
use zhiguang_go.Base.{
  ℕ, ◌<◌, ◌≡◌, ◌≢◌, ◌⊎◌, inl, inr, ◌&&◌, Option, Bool-cases, Bool, refl, sym, ap, subst, if_true,
  if_false, ◌∙◌, true, false, none, some, [], ◌∷◌, arith, length, Bytes,
}
use zhiguang_go.Base.Decimal.{format_uint}
use zhiguang_go.Cache.Bloom.{
  ready, redis_truthy, Filter, Client, Errors, is_unknown_command_err, mark_module_error, World,
  reserve_key, look_up, ensure_ready, add_to, add_ready, add, is_warm, has, ask, might_contain,
  warm_detail_bloom,
}

abbrev pub no_errors : Errors
no_errors = record { exists_key = none; raced = []; reserve = none; command = none }

-- A client that has found the key.
abbrev pub connected : Client
connected = record { ensured = true; module_ok = true; module_fail = false }

-- A client that has made no call yet.
abbrev pub fresh : Client
fresh = record { ensured = false; module_ok = false; module_fail = false }

-- The error, if there is one, is not that of a missing module.
abbrev pub IsOrdinary : Option Bytes → Type 0
IsOrdinary none = Unit
IsOrdinary (some e) = is_unknown_command_err e ≡ false

-- CF.ADD fails, or EXISTS does before it, which only a client calls that has not found the key.
abbrev pub AddFails : Client → Errors → Type 0
AddFails c x = (x.command ≢ none) ⊎ (((c.ensured && c.module_ok) ≡ false) × (x.exists_key ≢ none))

module _ {F : Type 0} (cf : Filter F) where
  asked_warm :
      (m : Bytes) (c : Client) (f : F)
      → 0 < length m
      → c.module_fail ≡ false
      → (might_contain cf no_errors m (c, some f)).0.0 ≡ redis_truthy (cf.cf_exists f m)
  unfolding might_contain is_warm ask has
  asked_warm [] c f p h = absurd (omega arith)
  asked_warm (b ∷ m) c f p h = rw (h) refl

  -- The filter is still `f`, and the client still uses the module.
  abbrev Kept : F → World cf → Type 0
  Kept f w = (w.1 ≡ some f) × (w.0.module_fail ≡ false)

  asked-Kept :
      (m : Bytes) (f : F) (w : World cf)
      → 0 < length m
      → Kept f w
      → (might_contain cf no_errors m w).0.0 ≡ redis_truthy (cf.cf_exists f m)
  asked-Kept m f (c, none) p (e, h) = absurd (cc)
  asked-Kept m f (c, some g) p (e, h) =
      ap (λ (o : Option F). (might_contain cf no_errors m (c, o)).0.0) e ∙ asked_warm m c f p h

  marked_again :
      (e : Bytes) (c : Client)
      → is_unknown_command_err e ≡ false
      → c.module_fail ≡ false
      → (mark_module_error e c).module_fail ≡ false
  unfolding mark_module_error
  marked_again e c h k = rw (h) k

  refused_add :
      (o : Option Bytes) (m : Bytes) (f : F) (c : Client)
      → IsOrdinary o
      → o ≢ none
      → c.module_fail ≡ false
      → Kept f (add_ready cf o m (true, (c, some f)))
  unfolding add_ready
  refused_add none m f c h ne k = absurd (ne refl)
  refused_add (some e) m f c h ne k = (refl, marked_again e c h k)

  looked_add :
      (x : Errors) (o q : Option Bytes) (m : Bytes) (f : F) (c : Client)
      → IsOrdinary o
      → IsOrdinary q
      → (q ≢ none) ⊎ (o ≢ none)
      → c.module_fail ≡ false
      → Kept f (add_ready cf q m (look_up cf x o (c, some f)))
  looked_add x none q m f c h g (inl ne) k = unfold look_up in refused_add q m f (ready c) g ne k
  looked_add x none q m f c h g (inr ne) k = absurd (ne refl)
  looked_add x (some e) q m f c h g ne k =
      unfold look_up in unfold add_ready in (refl, marked_again e c h k)

  failed_add :
      (x : Errors) (m : Bytes) (f : F) (c : Client)
      → IsOrdinary x.exists_key
      → IsOrdinary x.command
      → AddFails c x
      → c.module_fail ≡ false
      → Kept f (add cf x m (c, some f))
  unfolding add ensure_ready
  failed_add x [] f c h g ne k = (refl, k)
  failed_add x (b ∷ m) f c h g ne k = elim (Bool-cases (c.ensured && c.module_ok)) [
    | inl up ↦
        subst kept_by (sym (if_false _ _ k ∙ if_true _ _ up))
          (refused_add x.command (b ∷ m) f c g (called up ne) k)
    | inr down ↦
        subst kept_by (sym (if_false _ _ k ∙ if_false _ _ down))
          (looked_add x x.exists_key x.command (b ∷ m) f c h g (either ne) k)
  ]
    where
      kept_by : Bool × World cf → Type 0
      kept_by w = Kept f (add_ready cf x.command (b ∷ m) w)

      called : (c.ensured && c.module_ok) ≡ true → AddFails c x → x.command ≢ none
      called up (inl n) = n
      called up (inr (down, n)) = absurd (ground arith)

      either : AddFails c x → (x.command ≢ none) ⊎ (x.exists_key ≢ none)
      either (inl n) = inl n
      either (inr (down, n)) = inr n

  cold_answer : (n : Bytes) → (might_contain cf no_errors n (fresh, none)).0.0 ≡ true
  unfolding might_contain is_warm
  cold_answer [] = refl
  cold_answer (b ∷ n) = refl

  first_add :
      (n : Bytes)
      → 0 < length n
      → add cf no_errors n (fresh, none) ≡ (connected, some (cf.cf_add cf.reserved n))
  unfolding add add_ready ensure_ready look_up reserve_key add_to
  first_add [] l = absurd (omega arith)
  first_add (b ∷ n) l = refl

  first_warm :
      (id : ℕ)
      → 0 < length (format_uint id)
      → warm_detail_bloom cf ((id, no_errors) ∷ []) (fresh, none)
        ≡ (connected, some (cf.cf_add cf.reserved (format_uint id)))
  unfolding warm_detail_bloom
  first_warm id l = first_add (format_uint id) l

  -- For a member that is not empty, of which the addition to a filter that Redis has failed, at CF.ADD or
  -- at the EXISTS before it and with any error but that of an unknown command, MightContain answers as
  -- the filter answers without the member, if no call of the question fails. For another id a client
  -- that has made no call yet answers true before the warm-up, and after a warm-up with no failure has
  -- added a first id to a filter that did not exist it answers as a filter of that one id does, if
  -- again no call of the question fails.
  pub might_contain_misses :
      (c : Client) (x : Errors) (m : Bytes) (f : F) (id other : ℕ)
      → 0 < length m
      → 0 < length (format_uint id)
      → 0 < length (format_uint other)
      → c.module_fail ≡ false
      → IsOrdinary x.exists_key
      → IsOrdinary x.command
      → AddFails c x
      → ((might_contain cf no_errors m (add cf x m (c, some f))).0.0
          ≡ redis_truthy (cf.cf_exists f m))
        × ((might_contain cf no_errors (format_uint other) (fresh, none)).0.0 ≡ true)
        × ((might_contain cf no_errors
              (format_uint other)
              (warm_detail_bloom cf ((id, no_errors) ∷ []) (fresh, none))).0.0
            ≡ redis_truthy
                (cf.cf_exists (cf.cf_add cf.reserved (format_uint id)) (format_uint other)))
  might_contain_misses c x m f id other p q r k h g ne = (
    asked-Kept m f (add cf x m (c, some f)) p (failed_add x m f c h g ne k),
    cold_answer (format_uint other),
    ap (λ (w : World cf). (might_contain cf no_errors (format_uint other) w).0.0) (first_warm id q)
        ∙ asked_warm (format_uint other) connected _ r refl,
  )
