-- ===== src/Auth/Login/Logs.antt =====
-- The login logs that Login of internal/auth/service.go writes.
use zhiguang_go.Base.{
  ℕ, ◌≡◌, refl, ap, subst, inl, inr, Bool, true, false, not, Option, none, some, List, [], ◌∷◌,
  ◌++◌, arith, if◌then◌else◌, Bool-cases, Bytes, bytes_eq,
}
use zhiguang_go.Auth.Identifiers.{validate_identifier}
use zhiguang_go.Auth.Tokens.{Whitelist, store_token}
use zhiguang_go.Auth.Reset.{ResetError}
use zhiguang_go.Auth.Accounts.{
  User, Channel, by_password, by_code, ClientInfo, LoginLog, World, AuthConfig, Calls, AuthError,
  bad_identifier, terms_not_accepted, identifier_exists, identifier_not_found, send_failed,
  unverified, bad_password, hash_failed, create_failed, issue_failed, store_failed,
  invalid_credentials, Reply, signed_in, refused, Library, find_user_by_identifier,
  record_login_log, non_empty, non_zero,
}
use zhiguang_go.Auth.Signing.{
  verify_at, set_verification, with_token, issue_tokens, logged, unverified_of, check_password,
  LoginRequest, normalized_for,
}
use zhiguang_go.Auth.Login.{check, found, login}

-- whether a reply says that the credentials were right, or wrong; the other errors say neither
unfoldable pub verdict : Reply → Option Bool
verdict (signed_in user id) = some true
verdict (refused (unverified e)) = some false
verdict (refused invalid_credentials) = some false
verdict (refused bad_identifier) = none
verdict (refused terms_not_accepted) = none
verdict (refused identifier_exists) = none
verdict (refused identifier_not_found) = none
verdict (refused (send_failed e)) = none
verdict (refused bad_password) = none
verdict (refused hash_failed) = none
verdict (refused create_failed) = none
verdict (refused issue_failed) = none
verdict (refused store_failed) = none

module _ (lib : Library) (cfg : AuthConfig) (c : Calls) (client : ClientInfo) (req : LoginRequest)
    (w : World) where
  abbrev name : Bytes
  name = normalized_for lib req.kind req.identifier

  abbrev pub entry : ℕ → Bool → LoginLog
  entry user_id ok = record {
    user_id = non_zero user_id;
    identifier = normalized_for lib req.kind req.identifier;
    channel = if not (bytes_eq req.code []) then by_code else by_password;
    ip = non_empty client.ip;
    user_agent = non_empty client.user_agent;
    is_success = ok;
  }

  -- the logs of a user for a verdict, where they can be written
  abbrev pub logs_for : Option User → Option Bool → List LoginLog
  logs_for none v = []
  logs_for (some user) none = []
  logs_for (some user) (some ok) = if c.log_fails then [] else entry user.id ok ∷ []

  abbrev IsLogged : User → Reply × World → Type 0
  IsLogged user x = x.1.logs ≡ logs_for (some user) (verdict x.0) ++ w.logs

  log_lem :
      (b ok : Bool) (user : User) (v : World)
      → v.logs ≡ w.logs
      → (record_login_log b user.id name
          (if not (bytes_eq req.code []) then by_code else by_password)
          ok
          client
          v).logs
        ≡ (if b then [] else entry user.id ok ∷ []) ++ w.logs
  unfolding record_login_log
  log_lem true ok user v h = h
  log_lem false ok user v h = ap (λ ls. entry user.id ok ∷ ls) h

  with_token-IsLogged :
      (user : User) (channel : Channel) (id : Bytes) (x : Bool × Whitelist) (v : World)
      → channel ≡ (if not (bytes_eq req.code []) then by_code else by_password)
      → v.logs ≡ w.logs
      → IsLogged user (with_token lib cfg c user name channel client id x v)
  unfolding with_token verdict
  with_token-IsLogged user channel id (false, t) v e h = h
  with_token-IsLogged user channel id (true, t) v e h =
      rw (e) (log_lem c.log_fails true user (record v { whitelist = t }) h)

  logged-IsLogged :
      (user : User) (channel : Channel) (o : Option AuthError) (v : World)
      → ((e : AuthError) → o ≡ some e → verdict (refused e) ≡ some false)
      → channel ≡ (if not (bytes_eq req.code []) then by_code else by_password)
      → v.logs ≡ w.logs
      → IsLogged user (logged lib cfg c user name channel client o v)
  unfolding logged
  logged-IsLogged user channel (some a) v k e h =
      rw (e, k a refl) (log_lem c.log_fails false user v h)
  logged-IsLogged user channel none v k e h = issue_logged c.issued
    where
      issue_logged :
          (o : Option Bytes) → IsLogged user (issue_tokens lib cfg c user name channel client o v)
      issue_logged none = unfold issue_tokens verdict in h
      issue_logged (some id) =
          unfold issue_tokens in
          with_token-IsLogged user channel id
            (store_token c.store_fails c.now user.id id cfg.refresh_ttl v.whitelist) v e h

  reset_verdict :
      (o : Option ResetError) (a : AuthError)
      → unverified_of o ≡ some a
      → verdict (refused a) ≡ some false
  unfolding verdict
  reset_verdict none a e = absurd (cc)
  reset_verdict (some b) a e =
      subst (λ (x : AuthError). verdict (refused x) ≡ some false)
        (ap (λ (y : Option AuthError). elim y [ none ↦ unverified b | some z ↦ z ]) e) refl

  password_verdict :
      (o : Option Bytes) (a : AuthError)
      → check_password lib req.password o ≡ some a
      → verdict (refused a) ≡ some false
  unfolding check_password verdict
  password_verdict o a e =
      subst (λ (x : AuthError). verdict (refused x) ≡ some false) (only o e) refl
    where
      only :
          (o : Option Bytes) → check_password lib req.password o ≡ some a → invalid_credentials ≡ a
      only none e = ground arith
      only (some hash) e = ground arith

  if-IsLogged :
      (user : User) (b : Bool) (x y : Reply × World)
      → (b ≡ true → IsLogged user x)
      → (b ≡ false → IsLogged user y)
      → IsLogged user (if b then x else y)
  if-IsLogged user true x y h g = h refl
  if-IsLogged user false x y h g = g refl

  channel_of :
      (b d : Bool)
      → b ≡ d
      → (if d then by_code else by_password) ≡ (if b then by_code else by_password)
  channel_of b d e = rw (e) refl

  check-IsLogged : (user : User) → IsLogged user (check lib cfg c client req name user w)
  unfolding check verify_at set_verification
  check-IsLogged user =
      if-IsLogged user (not (bytes_eq req.code [])) _ _
        (λ b.
          logged-IsLogged user by_code _ _ (λ a e. reset_verdict _ a e)
            (channel_of (not (bytes_eq req.code [])) true b) refl)
        (λ b.
          logged-IsLogged user by_password _ w (λ a e. password_verdict user.password_hash a e)
            (channel_of (not (bytes_eq req.code [])) false b) refl)

  found_logs :
      (o : Option User)
      → (found lib cfg c client req name o w).1.logs
        ≡ logs_for o (verdict (found lib cfg c client req name o w).0) ++ w.logs
  unfolding found
  found_logs none = refl
  found_logs (some user) = check-IsLogged user

  -- A login whose user was found writes one entry, with the user, the identifier, the channel and the
  -- client, if its credentials were refused or it signs the user in, unless the insertion fails. Every
  -- other login writes none: that of an unknown user, and one whose token cannot be issued or stored.
  pub login-logs :
      (login lib cfg c client req w).1.logs
      ≡ logs_for
          (find_user_by_identifier lib c.query_fails req.kind name w.users)
          (verdict (login lib cfg c client req w).0)
        ++ w.logs
  unfolding login
  login-logs = elim (Bool-cases (validate_identifier req.kind name)) [
    | inl b ↦ rw (b) (found_logs (find_user_by_identifier lib c.query_fails req.kind name w.users))
    | inr b ↦ rw (b) (unlogged (find_user_by_identifier lib c.query_fails req.kind name w.users))
  ]
    where
      unlogged :
          (o : Option User) → w.logs ≡ logs_for o (verdict (refused bad_identifier)) ++ w.logs
      unlogged none = refl
      unlogged (some user) = unfold verdict in refl
