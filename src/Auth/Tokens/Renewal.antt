-- ===== src/Auth/Tokens/Renewal.antt =====
-- A refresh replaces the refresh token.
use zhiguang_go.Base.{
  ℕ, ◌+◌, ◌≡◌, refl, ap, ◌∙◌, true, false, Option, none, some, ltb, Bytes, bytes_eq, update,
  update_self, update_lem,
}
use zhiguang_go.Auth.Tokens.{
  Whitelist, token_key, store_token, is_token_valid, revoke_token, Claims, Call, refreshed, stored,
  issue, revoked, refresh_claims, refresh,
}

abbrev pub smooth_call : ℕ → Bytes → ℕ → Call
smooth_call user_id token_id now = record {
  lock_fails = false;
  exists_fails = false;
  revoke_fails = false;
  store_fails = false;
  user = some user_id;
  issued = some token_id;
  now = now;
}

rotated :
    (ttl now u : ℕ) (id : Bytes) (claims : Claims) (w : Whitelist)
    → claims.is_refresh ≡ true
    → is_token_valid false now claims.uid claims.id w ≡ true
    → refresh_claims ttl (smooth_call u id now) (some claims) w ≡ (
      refreshed u id,
      update (update w (token_key claims.uid claims.id) none) (token_key u id) (some (now + ttl)),
    )
unfolding refresh_claims revoked revoke_token issue store_token stored
rotated ttl now u id claims w k live = rw (k, live)

new_valid :
    (later u : ℕ) (id : Bytes) (w : Whitelist) (expires : ℕ)
    → is_token_valid false later u id (update w (token_key u id) (some expires)) ≡ ltb later expires
unfolding is_token_valid
new_valid later u id w expires = rw (update_self w (token_key u id) (some expires))

old_invalid :
    (later u : ℕ) (id : Bytes) (v : ℕ) (new_id : Bytes) (w : Whitelist) (expires : ℕ)
    → bytes_eq (token_key v new_id) (token_key u id) ≡ false
    → is_token_valid false later u id
        (update (update w (token_key u id) none) (token_key v new_id) (some expires))
      ≡ false
unfolding is_token_valid
old_invalid later u id v new_id w expires h = rw (
  update_lem (update w (token_key u id) none) (token_key v new_id) (token_key u id) (some expires),
  h,
  update_self w (token_key u id) none,
)

-- A refresh with a valid refresh token and no failure gives the new token, which is valid until its time
-- is over, and the old token is not valid any more.
pub refresh-rotates :
    (validate_token : Bytes → Option Claims) (ttl now later u : ℕ) (id token : Bytes)
    (claims : Claims) (w : Whitelist)
    → validate_token token ≡ some claims
    → claims.is_refresh ≡ true
    → is_token_valid false now claims.uid claims.id w ≡ true
    → bytes_eq (token_key u id) (token_key claims.uid claims.id) ≡ false
    → ((refresh validate_token ttl (smooth_call u id now) token w).0 ≡ refreshed u id)
      × (is_token_valid false later u id
            (refresh validate_token ttl (smooth_call u id now) token w).1
          ≡ ltb later (now + ttl))
      × (is_token_valid false later claims.uid claims.id
            (refresh validate_token ttl (smooth_call u id now) token w).1
          ≡ false)
unfolding refresh
refresh-rotates validate_token ttl now later u id token claims w v k live other =
    let done =
      ap (λ (o : Option Claims). refresh_claims ttl (smooth_call u id now) o w) v
      ∙ rotated ttl now u id claims w k live in
    rw (done) (
      refl,
      new_valid later u id _ (now + ttl),
      old_invalid later claims.uid claims.id u id w (now + ttl) other,
    )
