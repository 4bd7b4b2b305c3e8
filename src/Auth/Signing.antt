-- ===== src/Auth/Signing.antt =====
-- What Register and Login of internal/auth/service.go share: the check of a code or of a password, the
-- tokens, and the requests of dto.go.
use zhiguang_go.Base.{
  Bool, true, false, Option, none, some, [], ◌∷◌, ◌++◌, if◌then◌else◌, Bytes, bytes_eq, update,
}
use zhiguang_go.Auth.Identifiers.{IdentifierType, normalize_identifier}
use zhiguang_go.Auth.Verification.{Status, verify}
use zhiguang_go.Auth.Tokens.{Whitelist, store_token}
use zhiguang_go.Auth.Reset.{ResetError}
use zhiguang_go.Auth.Verification
use zhiguang_go.Auth.Accounts.{
  AuthConfig, AuthError, Calls, Channel, ClientInfo, Library, Reply, Scene, User, World,
  invalid_credentials, issue_failed, record_login_log, refused, scene_text, signed_in, store_failed,
  unverified,
}

-- what the keys of a scene and identifier have in common
abbrev pub scene_key : Scene → Bytes → Bytes
scene_key scene s = scene_text scene ++ b':' ∷ s

unfoldable pub set_verification : Scene → Bytes → Verification.Redis → World → World
set_verification scene s r w = record w {
  verifications = update w.verifications (scene_key scene s) r;
}

module _ (lib : Library) (cfg : AuthConfig) (c : Calls) where
  -- VerificationService.Verify for a scene and identifier
  unfoldable pub verify_at : Scene → Bytes → Bytes → World → Status × World
  unfolding set_verification
  verify_at scene s code w =
      let (status, r) =
        verify lib.texts.to_string c.verifying cfg.verification c.now code
          (w.verifications (scene_key scene s)) in
      (status, set_verification scene s r w)

  unfoldable pub with_token :
      User → Bytes → Channel → ClientInfo → Bytes → Bool × Whitelist → World → Reply × World
  unfolding record_login_log
  with_token user s channel client id (false, t) w =
      (refused store_failed, record w { whitelist = t })
  with_token user s channel client id (true, t) w = (
    signed_in user id,
    record_login_log c.log_fails user.id s channel true client (record w { whitelist = t }),
  )

  -- IssueTokenPair, StoreToken and the log, which end Register and Login
  unfoldable pub issue_tokens :
      User → Bytes → Channel → ClientInfo → Option Bytes → World → Reply × World
  unfolding with_token
  issue_tokens user s channel client none w = (refused issue_failed, w)
  issue_tokens user s channel client (some id) w =
      with_token user s channel client id
        (store_token c.store_fails c.now user.id id cfg.refresh_ttl w.whitelist) w

  -- a login whose credentials were accepted or refused
  unfoldable pub logged :
      User → Bytes → Channel → ClientInfo → Option AuthError → World → Reply × World
  unfolding issue_tokens record_login_log
  logged user s channel client (some e) w =
      (refused e, record_login_log c.log_fails user.id s channel false client w)
  logged user s channel client none w = issue_tokens user s channel client c.issued w

abbrev pub unverified_of : Option ResetError → Option AuthError
unverified_of none = none
unverified_of (some e) = some (unverified e)

-- bcrypt's comparison with the hash of the user
unfoldable pub check_password : Library → Bytes → Option Bytes → Option AuthError
check_password lib password none = some invalid_credentials
check_password lib password (some hash) =
    if bytes_eq password []
    then some invalid_credentials
    else if lib.compare_hash hash password
    then none
    else some invalid_credentials

pub record LoginRequest : Type 0 where
  pub kind : IdentifierType
  pub identifier : Bytes
  pub code : Bytes
  pub password : Bytes

pub record RegisterRequest : Type 0 where
  pub kind : IdentifierType
  pub identifier : Bytes
  pub code : Bytes
  pub password : Bytes
  pub agree_terms : Bool

abbrev pub normalized_for : Library → IdentifierType → Bytes → Bytes
normalized_for lib kind s = normalize_identifier lib.texts.trim_space lib.texts.to_lower kind s
