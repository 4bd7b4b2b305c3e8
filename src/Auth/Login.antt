-- ===== src/Auth/Login.antt =====
-- SendCode, Register and Login of internal/auth/service.go, from the steps of Auth.Signing and the tables
-- of Auth.Accounts.
pub mod Outcomes
pub mod Logs
pub mod Registration
pub mod Registered
pub mod Roundtrip
pub mod Codes
pub mod Unlisted
mod Tests
use zhiguang_go.Base.{ℕ, Bool, not, Option, none, some, [], if◌then◌else◌, Bytes, bytes_eq}
use zhiguang_go.Auth.Identifiers.{IdentifierType, phone, email, other, validate_identifier}
use zhiguang_go.Auth.Verification.{SendFaults, SendResult, sent, failed, send_code}
use zhiguang_go.Auth.Verification
use zhiguang_go.Auth.Reset.{ensure_verification_success, validate_password}
use zhiguang_go.Auth.Accounts.{
  Scene, registering, logging_in, resetting, unlisted, User, by_password, by_code, by_registration,
  ClientInfo, World, AuthConfig, Calls, AuthError, bad_identifier, terms_not_accepted,
  identifier_exists, identifier_not_found, send_failed, bad_password, hash_failed, create_failed,
  Reply, refused, Library, find_user_by_identifier, identifier_exists_in, create_user,
  generate_nickname,
}
use zhiguang_go.Auth.Signing.{
  scene_key, set_verification, verify_at, issue_tokens, logged, unverified_of, check_password,
  LoginRequest, RegisterRequest, normalized_for,
}

-- the user of a request; the id is given by CreateUser
pub user_of : (ℕ → Option ℕ) → IdentifierType → Bytes → Option Bytes → User
unfolding generate_nickname
user_of random kind s hash = record {
  id = 0;
  phone_of = elim kind [ phone ↦ some s | email ↦ none | other ↦ none ];
  email_of = elim kind [ phone ↦ none | email ↦ some s | other ↦ none ];
  password_hash = hash;
  nickname = generate_nickname random;
}

module _ (lib : Library) (cfg : AuthConfig) (c : Calls) (client : ClientInfo) where
  -- the check of the code or of the password of a user that was found
  pub check : LoginRequest → Bytes → User → World → Reply × World
  unfolding verify_at logged check_password
  check req s user w =
      let (status, w') = verify_at lib cfg c logging_in s req.code w in
      if not (bytes_eq req.code [])
      then logged lib cfg c user s by_code client
          (unverified_of (ensure_verification_success status)) w'
      else logged lib cfg c user s by_password client
          (check_password lib req.password user.password_hash) w

  found : LoginRequest → Bytes → Option User → World → Reply × World
  unfolding check
  found req s none w = (refused identifier_not_found, w)
  found req s (some user) w = check req s user w

  -- Login
  unfoldable pub login : LoginRequest → World → Reply × World
  unfolding found find_user_by_identifier
  login req w =
      let s = normalized_for lib req.kind req.identifier in
      if not (validate_identifier req.kind s)
      then (refused bad_identifier, w)
      else found req s (find_user_by_identifier lib c.query_fails req.kind s w.users) w

  pub created : Bytes → Option User × World → Reply × World
  unfolding issue_tokens
  created s (none, w) = (refused create_failed, w)
  created s (some user, w) = issue_tokens lib cfg c user s by_registration client c.issued w

  pub insert : IdentifierType → Bytes → Option Bytes → World → Reply × World
  unfolding created user_of create_user
  insert kind s hash w =
      created s (create_user lib c.insert_fails c.insert_id_fails (user_of c.random kind s hash) w)

  hashed : IdentifierType → Bytes → Option Bytes → World → Reply × World
  unfolding insert
  hashed kind s none w = (refused hash_failed, w)
  hashed kind s (some hash) w = insert kind s (some hash) w

  verified : RegisterRequest → Bytes → Option AuthError → World → Reply × World
  unfolding hashed insert
  verified req s (some e) w = (refused e, w)
  verified req s none w =
      if bytes_eq req.password []
      then insert req.kind s none w
      else if not (validate_password lib.texts cfg.min_length req.password)
      then (refused bad_password, w)
      else hashed req.kind s c.hash w

  -- Register
  unfoldable pub register : RegisterRequest → World → Reply × World
  unfolding verified verify_at identifier_exists_in
  register req w =
      let s = normalized_for lib req.kind req.identifier in
      let (status, w') = verify_at lib cfg c registering s req.code w in
      if not req.agree_terms
      then (refused terms_not_accepted, w)
      else if not (validate_identifier req.kind s)
      then (refused bad_identifier, w)
      else if identifier_exists_in lib c.query_fails req.kind s w.users
      then (refused identifier_exists, w)
      else verified req s (unverified_of (ensure_verification_success status)) w'

  reply_to_send : SendResult → Option AuthError
  reply_to_send (sent seconds) = none
  reply_to_send (failed e) = some (send_failed e)

  -- the identifier must be free for a registration and taken for a login or a reset
  pub scene_refuses : Scene → Bool → Option AuthError
  scene_refuses registering exists = if exists then some identifier_exists else none
  scene_refuses logging_in exists = if exists then none else some identifier_not_found
  scene_refuses resetting exists = if exists then none else some identifier_not_found
  scene_refuses (unlisted t) exists = none

  sending :
      SendFaults
      → ℕ
      → (ℕ → Option ℕ)
      → Scene
      → Bytes
      → Option AuthError
      → World
      → Option AuthError × World
  unfolding reply_to_send set_verification
  sending faults day random scene s (some e) w = (some e, w)
  sending faults day random scene s none w =
      let (result, r) =
        send_code faults cfg.verification c.now day random (w.verifications (scene_key scene s)) in
      (reply_to_send result, set_verification scene s r w)

  -- SendCode
  unfoldable pub send_code_to :
      SendFaults
      → ℕ
      → (ℕ → Option ℕ)
      → Scene
      → IdentifierType
      → Bytes
      → World
      → Option AuthError × World
  unfolding sending scene_refuses identifier_exists_in
  send_code_to faults day random scene kind identifier w =
      let s = normalized_for lib kind identifier in
      if not (validate_identifier kind s)
      then (some bad_identifier, w)
      else sending faults day random scene s
          (scene_refuses scene (identifier_exists_in lib c.query_fails kind s w.users)) w
