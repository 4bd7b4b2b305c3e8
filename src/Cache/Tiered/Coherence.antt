-- ===== src/Cache/Tiered/Coherence.antt =====
-- The entries of the two caches and the truth: what a look into Redis and a filling of the caches keep.
use zhiguang_go.Base.{
  ◌≡◌, refl, sym, ap, ◌∙◌, subst, ◌≢◌, inl, inr, false, not, ◌&&◌, ◌||◌, Option, none, some, [],
  arith, Bool-cases, Bytes, bytes_eq, bytes_eq_iff,
}
use zhiguang_go.Cache.Tiered.{
  Tiered, Caches, Faults, CacheError, null_cached, Loaded, present, absent, broken, Found, hit,
  miss, null, Result, value, failed, waiting, Round, lock_error, busy, taken, fill_l1, decoded,
  read_l2, get_l2, fill, load_and_fill,
}

module _ {T : Type 0} (decode : Bytes → Option T) (truth : Option T) (sentinel : Bytes) where
  -- The entries of the caches say what is true: the sentinel that there is nothing, and any other entry
  -- that can be decoded its value.
  pub record IsCoherent (c : Caches) : Type 0 where
    pub in_l1 : (raw : Bytes) (v : T) → c.l1 ≡ some raw → decode raw ≡ some v → truth ≡ some v
    pub no_value : (raw : Bytes) → c.l2 ≡ some raw → raw ≢ [] → raw ≡ sentinel → truth ≡ none
    pub in_l2 :
        (raw : Bytes) (v : T)
        → c.l2 ≡ some raw
        → raw ≢ sentinel
        → decode raw ≡ some v
        → truth ≡ some v

  -- The answer is true.
  abbrev pub IsTrue : Result T → Type 0
  IsTrue (value v level) = truth ≡ some v
  IsTrue (failed null_cached level) = truth ≡ none
  IsTrue (failed CacheError.load_failed level) = Unit
  IsTrue (failed CacheError.pre_load_failed level) = Unit
  IsTrue (failed CacheError.lock_failed level) = Unit
  IsTrue (failed CacheError.cancelled level) = Unit
  IsTrue waiting = Unit

  -- The loader says what is true.
  abbrev pub IsHonest : Loaded T → Type 0
  IsHonest (present v) = truth ≡ some v
  IsHonest absent = truth ≡ none
  IsHonest broken = Unit

  -- What others do in a round keeps the caches coherent.
  abbrev pub IsFair : Round → Type 0
  IsFair lock_error = Unit
  IsFair (busy others ends) = (c : Caches) → IsCoherent c → IsCoherent (others c)
  IsFair (taken others) = (c : Caches) → IsCoherent c → IsCoherent (others c)

  abbrev pub IsFound : Found T × Caches → Type 0
  IsFound (hit v, c) = (truth ≡ some v) × IsCoherent c
  IsFound (null, c) = (truth ≡ none) × IsCoherent c
  IsFound (miss, c) = IsCoherent c

  abbrev pub IsSound : Result T × Caches → Type 0
  IsSound (r, c) = IsTrue r × IsCoherent c

  fill_l1-IsCoherent :
      (f : Faults) (t : Tiered) (raw : Bytes) (v : T) (c : Caches)
      → decode raw ≡ some v
      → truth ≡ some v
      → IsCoherent c
      → IsCoherent (fill_l1 f t raw c)
  unfolding fill_l1
  fill_l1-IsCoherent f t raw v c d e h = elim (Bool-cases (not t.has_l1 || f.set_l1)) [
    | inl b ↦ rw (b) h
    | inr b ↦ rw (b) (record {
      in_l1 = λ r w p q. let same : raw ≡ r = cc in e ∙ sym d ∙ ap decode same ∙ q;
      no_value = h.no_value;
      in_l2 = h.in_l2;
    })
  ]

module _ {T : Type 0} (encode : T → Option Bytes) (decode : Bytes → Option T) (truth : Option T)
    (t : Tiered) (round_trip : (v : T) (raw : Bytes) → encode v ≡ some raw → decode raw ≡ some v)
    (apart : (v : T) (raw : Bytes) → encode v ≡ some raw → raw ≢ t.null_sentinel) where
  decoded-IsFound :
      (f : Faults) (raw : Bytes) (o : Option T) (c : Caches)
      → decode raw ≡ o
      → ((v : T) → o ≡ some v → truth ≡ some v)
      → IsCoherent decode truth t.null_sentinel c
      → IsFound decode truth t.null_sentinel (decoded encode decode f t raw o c)
  unfolding decoded
  decoded-IsFound f raw none c d e h = h
  decoded-IsFound f raw (some v) c d e h =
      (e v refl, fill_l1-IsCoherent decode truth t.null_sentinel f t raw v c d (e v refl) h)

  differ :
      (raw : Bytes)
      → bytes_eq raw [] ≡ false
      → (not (bytes_eq t.null_sentinel []) && bytes_eq raw t.null_sentinel) ≡ false
      → raw ≢ t.null_sentinel
  differ raw b n z =
      let eq = (bytes_eq_iff raw t.null_sentinel).1 z in
      let ne : bytes_eq t.null_sentinel [] ≡ false = subst (λ s. bytes_eq s [] ≡ false) z b in
      ground arith

  read_l2-IsFound :
      (f : Faults) (o : Option Bytes) (c : Caches)
      → c.l2 ≡ o
      → IsCoherent decode truth t.null_sentinel c
      → IsFound decode truth t.null_sentinel (read_l2 encode decode f t o c)
  unfolding read_l2
  read_l2-IsFound f none c e h = h
  read_l2-IsFound f (some raw) c e h = elim (Bool-cases (bytes_eq raw [])) [
    | inl b ↦ rw (b) h
    | inr b ↦
        rw (b)
          (elim (Bool-cases (not (bytes_eq t.null_sentinel []) && bytes_eq raw t.null_sentinel)) [
            | inl n ↦ rw (n) (
              h.no_value raw e (λ z. ground (arith, bytes_eq_iff raw []))
                  ((bytes_eq_iff raw t.null_sentinel).0 (ground arith)),
              h,
            )
            | inr n ↦ rw (n) (
                decoded-IsFound f raw (decode raw) c refl
                  (λ v d. h.in_l2 raw v e (λ z. differ raw (ground arith) (ground arith) z) d) h)
          ])
  ]

  pub get_l2-IsFound :
      (f : Faults) (c : Caches)
      → IsCoherent decode truth t.null_sentinel c
      → IsFound decode truth t.null_sentinel (get_l2 encode decode f t c)
  unfolding get_l2
  get_l2-IsFound f c h = elim (Bool-cases (not t.has_l2 || f.get)) [
    | inl b ↦ rw (b) h
    | inr b ↦ rw (b) (read_l2-IsFound f c.l2 c refl h)
  ]

  set_l2-IsCoherent :
      (raw : Bytes) (v : T) (c : Caches)
      → encode v ≡ some raw
      → truth ≡ some v
      → IsCoherent decode truth t.null_sentinel c
      → IsCoherent decode truth t.null_sentinel (record c { l2 = some raw })
  set_l2-IsCoherent raw v c e p h = record {
    in_l1 = h.in_l1;
    no_value = λ r q n s. let same : raw ≡ r = cc in absurd (apart v raw e (same ∙ s));
    in_l2 =
        λ r w q n d. let same : raw ≡ r = cc in p ∙ sym (round_trip v raw e) ∙ ap decode same ∙ d;
  }

  fill-IsCoherent :
      (f : Faults) (o : Option Bytes) (v : T) (c : Caches)
      → encode v ≡ o
      → truth ≡ some v
      → IsCoherent decode truth t.null_sentinel c
      → IsCoherent decode truth t.null_sentinel (fill encode decode f t o c)
  unfolding fill
  fill-IsCoherent f none v c e p h = h
  fill-IsCoherent f (some raw) v c e p h =
      fill_l1-IsCoherent decode truth t.null_sentinel f t raw v _ (round_trip v raw e) p
        (elim (Bool-cases (t.has_l2 && t.has_l2_ttl && not f.set_l2)) [
          | inl b ↦ rw (b) (set_l2-IsCoherent raw v c e p h)
          | inr b ↦ rw (b) h
        ])

  set_null-IsCoherent :
      (c : Caches)
      → truth ≡ none
      → IsCoherent decode truth t.null_sentinel c
      → IsCoherent decode truth t.null_sentinel (record c { l2 = some t.null_sentinel })
  set_null-IsCoherent c p h = record {
    in_l1 = h.in_l1;
    no_value = λ r q n s. p;
    in_l2 = λ r w q n d. let same : t.null_sentinel ≡ r = cc in absurd (n (sym same));
  }

  pub load_and_fill-IsSound :
      (f : Faults) (load : Loaded T) (c : Caches)
      → IsHonest decode truth t.null_sentinel load
      → IsCoherent decode truth t.null_sentinel c
      → IsSound decode truth t.null_sentinel (load_and_fill encode decode f t load c)
  unfolding load_and_fill
  load_and_fill-IsSound f (present v) c p h = (p, fill-IsCoherent f (encode v) v c refl p h)
  load_and_fill-IsSound f absent c p h = (
    p,
    elim (Bool-cases
        (not (bytes_eq t.null_sentinel []) && t.has_l2 && t.has_null_ttl && not f.set_l2)) [
          | inl b ↦ rw (b) (set_null-IsCoherent c p h)
          | inr b ↦ rw (b) h
        ],
  )
  load_and_fill-IsSound f broken c p h = (tt, h)
