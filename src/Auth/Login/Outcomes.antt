-- ===== src/Auth/Login/Outcomes.antt =====
-- Login of internal/auth/service.go: who is signed in, and what a refusal leaves.
use zhiguang_go.Base.{
  ℕ, ◌+◌, ◌≡◌, refl, ap, ◌∙◌, ◌≢◌, ◌⊎◌, inl, inr, Bool, true, false, not, Option, none, some, [],
  arith, ltb, if◌then◌else◌, Bool-cases, Bytes, bytes_eq, update, bytes_eq_iff, update_self,
}
use zhiguang_go.Auth.Identifiers.{validate_identifier}
use zhiguang_go.Auth.Verification.{Status, success, not_found, too_many_attempts, mismatch, verify}
use zhiguang_go.Auth.Tokens.{Whitelist, token_key, store_token, is_token_valid}
use zhiguang_go.Auth.Reset.{ensure_verification_success}
use zhiguang_go.Auth.Accounts.{
  logging_in, User, Channel, by_password, by_code, ClientInfo, World, AuthConfig, Calls, AuthError,
  bad_identifier, identifier_not_found, issue_failed, store_failed, Reply, signed_in, refused,
  Library, find_user_by_identifier, record_login_log,
}
use zhiguang_go.Auth.Signing.{
  scene_key, set_verification, verify_at, with_token, issue_tokens, logged, unverified_of,
  check_password, LoginRequest, normalized_for,
}
use zhiguang_go.Auth.Login.{check, found, login}

-- A token that is stored is valid until its time is over.
pub stored_valid :
    (later u : ℕ) (id : Bytes) (w : Whitelist) (expires : ℕ)
    → is_token_valid false later u id (update w (token_key u id) (some expires)) ≡ ltb later expires
unfolding is_token_valid
stored_valid later u id w expires = rw (update_self w (token_key u id) (some expires)) refl

check_password-none :
    (lib : Library) (password : Bytes) (o : Option Bytes)
    → check_password lib password o ≡ none
    → (password ≢ []) × (hash : Bytes) × (o ≡ some hash) × (lib.compare_hash hash password ≡ true)
unfolding check_password
check_password-none lib password none h = absurd (cc)
check_password-none lib password (some hash) h =
    (λ e. ground (arith, bytes_eq_iff password []), hash, refl, ground arith)

pub unverified_of-none :
    (s : Status) → unverified_of (ensure_verification_success s) ≡ none → s ≡ success
unfolding ensure_verification_success
unverified_of-none success h = refl
unverified_of-none not_found h = absurd (cc)
unverified_of-none too_many_attempts h = absurd (cc)
unverified_of-none mismatch h = absurd (cc)

module _ (fails : Bool) (u : ℕ) (s : Bytes) (channel : Channel) (ok : Bool) (client : ClientInfo)
    (w : World) where
  pub record_login_log-users : (record_login_log fails u s channel ok client w).users ≡ w.users
  unfolding record_login_log
  record_login_log-users = ground arith

  pub record_login_log-whitelist :
      (record_login_log fails u s channel ok client w).whitelist ≡ w.whitelist
  unfolding record_login_log
  record_login_log-whitelist = elim (Bool-cases fails) [ inl e ↦ rw (e) refl | inr e ↦ rw (e) refl ]

module _ (lib : Library) (cfg : AuthConfig) (c : Calls) (client : ClientInfo) (req : LoginRequest)
    (w : World) where
  abbrev pub name : Bytes
  name = normalized_for lib req.kind req.identifier

  -- A code was given and accepted, or none was given and the password is the one of the hash.
  abbrev pub IsProven : User → Type 0
  IsProven user =
      ((req.code ≢ [])
        × ((verify lib.texts.to_string c.verifying cfg.verification c.now req.code
              (w.verifications (scene_key logging_in name))).0
            ≡ success))
      ⊎ ((req.code ≡ [])
          × (req.password ≢ [])
          × (hash : Bytes) × (user.password_hash ≡ some hash)
          × (lib.compare_hash hash req.password ≡ true))

  -- The reply is an error; the users and the refresh tokens are as they were.
  pub record IsRefused (x : Reply × World) : Type 0 where
    pub error : AuthError
    pub reply : x.0 ≡ refused error
    pub same_users : x.1.users ≡ w.users
    pub same_tokens : x.1.whitelist ≡ w.whitelist

  -- The user of the identifier is signed in, whose credentials were right; the new token is the one
  -- that was issued and is valid for the lifetime of refresh tokens.
  pub record IsSignedIn (x : Reply × World) : Type 0 where
    pub user : User
    pub id : Bytes
    pub reply : x.0 ≡ signed_in user id
    pub found_user : find_user_by_identifier lib c.query_fails req.kind name w.users ≡ some user
    pub proven : IsProven user
    pub same_users : x.1.users ≡ w.users
    pub issued : c.issued ≡ some id
    pub valid :
        (later : ℕ)
        → is_token_valid false later user.id id x.1.whitelist ≡ ltb later (c.now + cfg.refresh_ttl)

  abbrev pub Outcome : Reply × World → Type 0
  Outcome x = IsRefused x ⊎ IsSignedIn x

  refusal :
      (e : AuthError) (v : World)
      → v.users ≡ w.users
      → v.whitelist ≡ w.whitelist
      → Outcome (refused e, v)
  refusal e v h k = inl (record { error = e; reply = refl; same_users = h; same_tokens = k })

  if-Outcome :
      (b : Bool) (x y : Reply × World)
      → (b ≡ true → Outcome x)
      → (b ≡ false → Outcome y)
      → Outcome (if b then x else y)
  if-Outcome true x y h g = h refl
  if-Outcome false x y h g = g refl

  with_token-Outcome :
      (user : User) (channel : Channel) (id : Bytes) (v : World)
      → c.issued ≡ some id
      → find_user_by_identifier lib c.query_fails req.kind name w.users ≡ some user
      → IsProven user
      → v.users ≡ w.users
      → v.whitelist ≡ w.whitelist
      → (b : Bool)
      → Outcome (
          with_token lib cfg c user name channel client id
            (store_token b c.now user.id id cfg.refresh_ttl v.whitelist)
            v)
  unfolding with_token store_token
  with_token-Outcome user channel id v i f p h k true = refusal store_failed v h k
  with_token-Outcome user channel id v i f p h k false =
      let after : World = record v {
        whitelist = update v.whitelist (token_key user.id id) (some (c.now + cfg.refresh_ttl));
      } in
      inr (record {
        user = user;
        id = id;
        reply = refl;
        found_user = f;
        proven = p;
        same_users = record_login_log-users c.log_fails user.id name channel true client after ∙ h;
        issued = i;
        valid = λ later.
            ap (λ t. is_token_valid false later user.id id t)
              (record_login_log-whitelist c.log_fails user.id name channel true client after)
            ∙ stored_valid later user.id id v.whitelist (c.now + cfg.refresh_ttl);
      })

  issue_tokens-Outcome :
      (user : User) (channel : Channel) (o : Option Bytes) (v : World)
      → c.issued ≡ o
      → find_user_by_identifier lib c.query_fails req.kind name w.users ≡ some user
      → IsProven user
      → v.users ≡ w.users
      → v.whitelist ≡ w.whitelist
      → Outcome (issue_tokens lib cfg c user name channel client o v)
  unfolding issue_tokens
  issue_tokens-Outcome user channel none v i f p h k = refusal issue_failed v h k
  issue_tokens-Outcome user channel (some id) v i f p h k =
      with_token-Outcome user channel id v i f p h k c.store_fails

  logged-Outcome :
      (user : User) (channel : Channel) (o : Option AuthError) (v : World)
      → find_user_by_identifier lib c.query_fails req.kind name w.users ≡ some user
      → (o ≡ none → IsProven user)
      → v.users ≡ w.users
      → v.whitelist ≡ w.whitelist
      → Outcome (logged lib cfg c user name channel client o v)
  unfolding logged
  logged-Outcome user channel (some e) v f p h k =
      refusal e (record_login_log c.log_fails user.id name channel false client v)
        (record_login_log-users c.log_fails user.id name channel false client v ∙ h)
        (record_login_log-whitelist c.log_fails user.id name channel false client v ∙ k)
  logged-Outcome user channel none v f p h k =
      issue_tokens-Outcome user channel c.issued v refl f (p refl) h k

  check-Outcome :
      (user : User)
      → find_user_by_identifier lib c.query_fails req.kind name w.users ≡ some user
      → Outcome (check lib cfg c client req name user w)
  unfolding check verify_at set_verification
  check-Outcome user f =
      if-Outcome (not (bytes_eq req.code [])) _ _
        (λ b.
          logged-Outcome user by_code _ _ f
            (λ e. inl (λ z. ground (arith, b, bytes_eq_iff req.code []), unverified_of-none _ e))
            refl refl)
        (λ b.
          logged-Outcome user by_password _ w f
            (λ e.
              let (p, hash, h, q) = check_password-none lib req.password user.password_hash e in
              inr ((bytes_eq_iff req.code []).0 (ground (arith, b)), p, hash, h, q))
            refl refl)

  -- Login either returns an error and leaves the users and the refresh tokens as they were, or it signs in
  -- the user whom the lookup of the normalised identifier found, and then either a code was given and
  -- Verify accepted it for the scene of logins, or no code was given, a password was, and it is the one of
  -- the user's hash; the users are as they were, and the token that was issued is valid exactly until its
  -- lifetime is over.
  pub login-Outcome : Outcome (login lib cfg c client req w)
  unfolding login found
  login-Outcome = elim (Bool-cases (validate_identifier req.kind name)) [
    | inl b ↦
        rw (b)
          (found_outcome (find_user_by_identifier lib c.query_fails req.kind name w.users) refl)
    | inr b ↦ rw (b) (refusal bad_identifier w refl refl)
  ]
    where
      found_outcome :
          (o : Option User)
          → find_user_by_identifier lib c.query_fails req.kind name w.users ≡ o
          → Outcome (found lib cfg c client req name o w)
      found_outcome none e = refusal identifier_not_found w refl refl
      found_outcome (some user) e = check-Outcome user e
