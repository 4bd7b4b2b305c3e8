-- ===== src/Auth/Tokens/Rotation.antt =====
-- A refresh token is used once.
use zhiguang_go.Base.{
  ℕ, suc, ◌+◌, ◌≤◌, ◌≡◌, refl, sym, ap, ◌∙◌, subst, ◌≢◌, inl, inr, Bool, true, false, ◌&&◌, Option,
  none, some, List, [], ◌∷◌, arith, if◌then◌else◌, Bool-cases, All, Bytes, bytes_eq, update,
  bytes_eq_iff, update_self, update_lem,
}
use zhiguang_go.Auth.Tokens.{
  Whitelist, token_key, store_token, is_token_valid, revoke_token, Claims, Call, Refreshed,
  refreshed, failed, stored, issue, revoked, refresh_claims, logout_claims, refresh, logout,
}

-- A step of the service: a refresh with some token, or a logout.
pub data Step : Type 0 where
  refresh_with : Call → Bytes → Step
  logout_with : Bool → Bytes → Step

abbrev is_refreshed : Refreshed → Bool
is_refreshed (refreshed user_id token_id) = true
is_refreshed (failed e) = false

-- the key under which the new token of a call is stored, if any
abbrev pub issued_key : Option ℕ → Option Bytes → Option Bytes
issued_key none id = none
issued_key (some user_id) none = none
issued_key (some user_id) (some token_id) = some (token_key user_id token_id)

abbrev pub IsOther : Bytes → Option Bytes → Type 0
IsOther key none = Unit
IsOther key (some k) = bytes_eq k key ≡ false

-- no refresh issues a token under the key
abbrev pub NotIssued : Bytes → Step → Type 0
NotIssued key (refresh_with c token) = IsOther key (issued_key c.user c.issued)
NotIssued key (logout_with fails token) = Unit

module _ (validate_token : Bytes → Option Claims) (ttl : ℕ) where
  -- how many refreshes with the token succeed, of steps one after another
  pub uses : Bytes → List Step → Whitelist → ℕ
  uses token [] w = 0
  uses token (refresh_with c t ∷ steps) w =
      let (answer, w') = refresh validate_token ttl c t w in
      let rest = uses token steps w' in
      if is_refreshed answer && bytes_eq t token then suc rest else rest
  uses token (logout_with fails t ∷ steps) w = uses token steps (logout validate_token fails t w)

-- A key that is gone stays gone.
issue-gone :
    (c : Call) (ttl : ℕ) (user : Option ℕ) (issued : Option Bytes) (w : Whitelist) (key : Bytes)
    → IsOther key (issued_key user issued)
    → w key ≡ none
    → (issue c ttl user issued w).1 key ≡ none
unfolding issue stored store_token
issue-gone c ttl none issued w key o h = h
issue-gone c ttl (some u) none w key o h = h
issue-gone c ttl (some u) (some id) w key o h = elim (Bool-cases c.store_fails) [
  | inl b ↦ rw (b) h
  | inr b ↦ rw (b, update_lem w (token_key u id) key (some (c.now + ttl)), o) h
]

update-gone : (w : Whitelist) (k key : Bytes) → w key ≡ none → update w k none key ≡ none
update-gone w k key h = ground (arith, update_lem w k key none)

revoke-gone :
    (fails : Bool) (u : ℕ) (id : Bytes) (w : Whitelist) (key : Bytes)
    → w key ≡ none
    → (revoke_token fails u id w).1 key ≡ none
unfolding revoke_token
revoke-gone true u id w key h = h
revoke-gone false u id w key h = update-gone w (token_key u id) key h

revoked-gone :
    (c : Call) (ttl : ℕ) (x : Bool × Whitelist) (key : Bytes)
    → IsOther key (issued_key c.user c.issued)
    → x.1 key ≡ none
    → (revoked c ttl x).1 key ≡ none
unfolding revoked
revoked-gone c ttl (false, w) key o h = h
revoked-gone c ttl (true, w) key o h = issue-gone c ttl c.user c.issued w key o h

refresh_claims-gone :
    (ttl : ℕ) (c : Call) (o : Option Claims) (w : Whitelist) (key : Bytes)
    → IsOther key (issued_key c.user c.issued)
    → w key ≡ none
    → (refresh_claims ttl c o w).1 key ≡ none
unfolding refresh_claims
refresh_claims-gone ttl c none w key n h = h
refresh_claims-gone ttl c (some claims) w key n h =
    let after =
      revoked-gone c ttl (revoke_token c.revoke_fails claims.uid claims.id w) key n
        (revoke-gone c.revoke_fails claims.uid claims.id w key h) in
    ground (arith, after)

revoked-spends :
    (ttl : ℕ) (c : Call) (u : ℕ) (id : Bytes) (w : Whitelist)
    → IsOther (token_key u id) (issued_key c.user c.issued)
    → is_refreshed (revoked c ttl (revoke_token c.revoke_fails u id w)).0 ≡ true
    → (revoked c ttl (revoke_token c.revoke_fails u id w)).1 (token_key u id) ≡ none
unfolding revoked revoke_token issue
revoked-spends ttl c u id w n = elim (Bool-cases c.revoke_fails) [
  | inl b ↦ rw (b) (λ h. cc)
  | inr b ↦ rw (b) (λ h.
      issue-gone c ttl c.user c.issued (update w (token_key u id) none) (token_key u id) n
        (update_self w (token_key u id) none))
]

valid-there :
    (fails : Bool) (now u : ℕ) (id : Bytes) (w : Whitelist)
    → w (token_key u id) ≡ none
    → is_token_valid fails now u id w ≡ false
unfolding is_token_valid
valid-there fails now u id w e = rw (e) (ground arith)

logout-gone :
    (validate_token : Bytes → Option Claims) (fails : Bool) (token : Bytes) (w : Whitelist)
    (key : Bytes)
    → w key ≡ none
    → (logout validate_token fails token w) key ≡ none
unfolding logout
logout-gone validate_token fails token w key h = claims_gone (validate_token token)
  where
    claims_gone : (o : Option Claims) → (logout_claims fails o w) key ≡ none
    claims_gone none = unfold logout_claims in h
    claims_gone (some claims) =
        unfold logout_claims in
        (let gone = revoke-gone fails claims.uid claims.id w key h in ground (arith, gone))

-- A refresh that succeeds found the key of its token, and the key is gone afterwards.
refresh_claims-spends :
    (ttl : ℕ) (c : Call) (claims : Claims) (w : Whitelist)
    → IsOther (token_key claims.uid claims.id) (issued_key c.user c.issued)
    → is_refreshed (refresh_claims ttl c (some claims) w).0 ≡ true
    → (w (token_key claims.uid claims.id) ≢ none)
      × ((refresh_claims ttl c (some claims) w).1 (token_key claims.uid claims.id) ≡ none)
unfolding refresh_claims
refresh_claims-spends ttl c claims w n h =
    let spent = revoked-spends ttl c claims.uid claims.id w n in
    let there = valid-there c.exists_fails c.now claims.uid claims.id w in
    (λ e. ground (arith, there e), ground (arith, spent))

module _ (validate_token : Bytes → Option Claims) (ttl : ℕ) where
  refresh-spends :
      (c : Call) (t token : Bytes) (claims : Claims) (w : Whitelist)
      → bytes_eq t token ≡ true
      → validate_token token ≡ some claims
      → IsOther (token_key claims.uid claims.id) (issued_key c.user c.issued)
      → is_refreshed (refresh validate_token ttl c t w).0 ≡ true
      → (w (token_key claims.uid claims.id) ≢ none)
        × ((refresh validate_token ttl c t w).1 (token_key claims.uid claims.id) ≡ none)
  unfolding refresh
  refresh-spends c t token claims w b v n =
      subst
        (λ (o : Option Claims).
          is_refreshed (refresh_claims ttl c o w).0 ≡ true
          → (w (token_key claims.uid claims.id) ≢ none)
            × ((refresh_claims ttl c o w).1 (token_key claims.uid claims.id) ≡ none))
        (sym (ap validate_token ((bytes_eq_iff t token).0 b) ∙ v))
        (refresh_claims-spends ttl c claims w n)

  unused :
      (token : Bytes) (claims : Claims) (steps : List Step) (w : Whitelist)
      → validate_token token ≡ some claims
      → All (NotIssued (token_key claims.uid claims.id)) steps
      → w (token_key claims.uid claims.id) ≡ none
      → uses validate_token ttl token steps w ≡ 0
  unfolding uses
  unused token claims [] w v n h = refl
  unused token claims (refresh_with c t ∷ steps) w v (n, ns) h =
      let rest = unused token claims steps ((refresh validate_token ttl c t w).1) v ns (
        unfold refresh in
        refresh_claims-gone ttl c (validate_token t) w (token_key claims.uid claims.id) n h) in
      elim (Bool-cases (bytes_eq t token)) [
        | inl b ↦
            let spends = refresh-spends c t token claims w b v n in ground (arith, rest, spends)
        | inr b ↦ ground (arith, rest)
      ]
  unused token claims (logout_with fails t ∷ steps) w v (n, ns) h =
      unused token claims steps (logout validate_token fails t w) v ns
        (logout-gone validate_token fails t w (token_key claims.uid claims.id) h)

  -- Whatever refreshes and logouts happen in whatever order, and whatever fails, a refresh token is
  -- used successfully at most once, as long as no new token is issued under its key.
  pub uses-once :
      (token : Bytes) (claims : Claims) (steps : List Step) (w : Whitelist)
      → validate_token token ≡ some claims
      → All (NotIssued (token_key claims.uid claims.id)) steps
      → uses validate_token ttl token steps w ≤ 1
  unfolding uses
  uses-once token claims [] w v n = omega arith
  uses-once token claims (refresh_with c t ∷ steps) w v (n, ns) =
      let rest = uses-once token claims steps ((refresh validate_token ttl c t w).1) v ns in
      elim (Bool-cases (is_refreshed (refresh validate_token ttl c t w).0 && bytes_eq t token)) [
        | inl b ↦
            let spent = refresh-spends c t token claims w (ground arith) v n (ground arith) in
            let none_left =
              unused token claims steps ((refresh validate_token ttl c t w).1) v ns spent.1 in
            rw (b, none_left) (omega arith)
        | inr b ↦ rw (b) rest
      ]
  uses-once token claims (logout_with fails t ∷ steps) w v (n, ns) =
      uses-once token claims steps (logout validate_token fails t w) v ns
