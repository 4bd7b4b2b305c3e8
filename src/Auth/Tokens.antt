-- ===== src/Auth/Tokens.antt =====
-- internal/auth/token_store.go, and Refresh and Logout of service.go: the whitelist of refresh tokens.
-- Times are in milliseconds; a key is kept with the time at which it expires. The validation of a JWT is
-- a parameter; what the user repository and the issuer of tokens answer, and the failures of Redis, are
-- inputs.
pub mod Rotation
pub mod Renewal
use zhiguang_go.Base.{
  ℕ, ◌+◌, Bool, true, false, not, Option, none, some, List, [], ◌∷◌, ◌++◌, ltb, if◌then◌else◌,
  Bytes, codes, update,
}
use zhiguang_go.Base.Decimal.{format_uint}

abbrev pub Whitelist : Type 0
Whitelist = Bytes → Option ℕ

unfoldable pub token_key : ℕ → Bytes → Bytes
token_key user_id token_id = codes "rt:" ++ (format_uint user_id ++ b':' ∷ token_id)

-- StoreToken
unfoldable pub store_token : Bool → ℕ → ℕ → Bytes → ℕ → Whitelist → Bool × Whitelist
store_token fails now user_id token_id ttl w =
    if fails then (false, w) else (true, update w (token_key user_id token_id) (some (now + ttl)))

abbrev pub is_live : ℕ → Option ℕ → Bool
is_live now none = false
is_live now (some expires) = ltb now expires

-- IsTokenValid
unfoldable pub is_token_valid : Bool → ℕ → ℕ → Bytes → Whitelist → Bool
is_token_valid fails now user_id token_id w =
    if fails then false else is_live now (w (token_key user_id token_id))

-- RevokeToken
unfoldable pub revoke_token : Bool → ℕ → Bytes → Whitelist → Bool × Whitelist
revoke_token fails user_id token_id w =
    if fails then (false, w) else (true, update w (token_key user_id token_id) none)

-- RevokeAll, over the keys that the scan returns, each with whether its deletion fails
unfoldable pub revoke_all : List (Bytes × Bool) → Whitelist → Whitelist
revoke_all [] w = w
revoke_all ((key, fails) ∷ keys) w = revoke_all keys (if fails then w else update w key none)

-- JwtClaims
pub record Claims : Type 0 where
  pub uid : ℕ
  pub id : Bytes
  pub is_refresh : Bool

-- What a refresh meets: whether the lock, the check, the revocation and the storing fail, the user that
-- is found, and the id of the new refresh token.
pub record Call : Type 0 where
  pub lock_fails : Bool
  pub exists_fails : Bool
  pub revoke_fails : Bool
  pub store_fails : Bool
  pub user : Option ℕ
  pub issued : Option Bytes
  pub now : ℕ

pub data RefreshError : Type 0 where
  refresh_token_invalid not_locked revoke_failed identifier_not_found issue_failed store_failed :
      RefreshError

pub data Refreshed : Type 0 where
  -- the user and the id of the new refresh token
  refreshed : ℕ → Bytes → Refreshed
  failed : RefreshError → Refreshed

stored : ℕ → Bytes → Bool × Whitelist → Refreshed × Whitelist
stored user_id token_id (true, w) = (refreshed user_id token_id, w)
stored user_id token_id (false, w) = (failed store_failed, w)

issue : Call → ℕ → Option ℕ → Option Bytes → Whitelist → Refreshed × Whitelist
issue c ttl none issued w = (failed identifier_not_found, w)
issue c ttl (some user_id) none w = (failed issue_failed, w)
issue c ttl (some user_id) (some token_id) w =
    stored user_id token_id (store_token c.store_fails c.now user_id token_id ttl w)

revoked : Call → ℕ → Bool × Whitelist → Refreshed × Whitelist
revoked c ttl (false, w) = (failed revoke_failed, w)
revoked c ttl (true, w) = issue c ttl c.user c.issued w

pub refresh_claims : ℕ → Call → Option Claims → Whitelist → Refreshed × Whitelist
unfolding revoked issue stored
refresh_claims ttl c none w = (failed refresh_token_invalid, w)
refresh_claims ttl c (some claims) w =
    if not claims.is_refresh
    then (failed refresh_token_invalid, w)
    else if c.lock_fails
    then (failed not_locked, w)
    else if not (is_token_valid c.exists_fails c.now claims.uid claims.id w)
    then (failed refresh_token_invalid, w)
    else revoked c ttl (revoke_token c.revoke_fails claims.uid claims.id w)

logout_claims : Bool → Option Claims → Whitelist → Whitelist
logout_claims fails none w = w
logout_claims fails (some claims) w =
    if not claims.is_refresh then w else (revoke_token fails claims.uid claims.id w).1

module _ (validate_token : Bytes → Option Claims) where
  -- Refresh; `ttl` is RefreshTokenTTL
  unfoldable pub refresh : ℕ → Call → Bytes → Whitelist → Refreshed × Whitelist
  unfolding refresh_claims
  refresh ttl c token w = refresh_claims ttl c (validate_token token) w

  -- Logout
  unfoldable pub logout : Bool → Bytes → Whitelist → Whitelist
  unfolding logout_claims
  logout fails token w = logout_claims fails (validate_token token) w
