-- ===== src/Auth/Reset.antt =====
-- ResetPassword of internal/auth/service.go, with the checks of passwords and identifiers: the code is
-- verified, the hash replaced and every refresh token of the user revoked. The answers of the
-- repository, bcrypt and the scan are inputs; the classes of characters, TrimSpace and ToLower are
-- parameters.
pub mod Effects
pub mod Tests
use zhiguang_go.Base.{
  ℕ, Bool, false, not, ◌&&◌, ◌||◌, Option, none, some, List, [], ◌∷◌, leb, ◌==◌, if◌then◌else◌,
  length, Bytes,
}
use zhiguang_go.Auth.Verification.{
  Value, Status, success, not_found, too_many_attempts, mismatch, VerifyFaults, VerificationConfig,
  verify,
}
use zhiguang_go.Auth.Verification
use zhiguang_go.Auth.Identifiers.{IdentifierType, validate_identifier, normalize_identifier}
use zhiguang_go.Auth.Tokens.{Whitelist, revoke_all}

pub data ResetError : Type 0 where
  bad_identifier identifier_not_found : ResetError
  verification_not_found verification_mismatch verification_too_many_attempts : ResetError
  bad_password hash_failed not_locked update_failed revoke_failed : ResetError

-- ensureVerificationSuccess
unfoldable pub ensure_verification_success : Status → Option ResetError
ensure_verification_success success = none
ensure_verification_success not_found = some verification_not_found
ensure_verification_success mismatch = some verification_mismatch
ensure_verification_success too_many_attempts = some verification_too_many_attempts

pub any_of : (ℕ → Bool) → List ℕ → Bool
any_of p [] = false
any_of p (c ∷ cs) = p c || any_of p cs

-- The keys of the codes, the hashes of the users and the whitelist.
pub record World : Type 0 where
  pub verification : Verification.Redis
  pub hashes : ℕ → Option Bytes
  pub whitelist : Whitelist

-- What the calls answer: the user that is found, the failures of the verification, the hash, the lock,
-- the update, and the keys that the scan returns, each with whether its deletion fails.
pub record Calls : Type 0 where
  pub user : Option ℕ
  pub verifying : VerifyFaults
  pub hash : Option Bytes
  pub lock_fails : Bool
  pub update_fails : Bool
  pub scanned : List (Bytes × Bool)
  pub scan_fails : Bool

-- The classes of characters, the characters of a text, TrimSpace and ToLower, and the reply conversion of
-- the Redis client.
pub record Texts : Type 0 where
  pub is_letter : ℕ → Bool
  pub is_digit : ℕ → Bool
  pub runes : Bytes → List ℕ
  pub trim_space : Bytes → Bytes
  pub to_lower : Bytes → Bytes
  pub to_string : Value → Option Bytes

-- validatePassword
unfoldable pub validate_password : Texts → ℕ → Bytes → Bool
unfolding any_of
validate_password t min_length password =
    leb min_length (length password)
    && (any_of t.is_letter (t.runes password) && any_of t.is_digit (t.runes password))

module _ (t : Texts) (cfg : VerificationConfig) (min_length now : ℕ) (c : Calls) where
  -- UpdatePassword and RevokeAll, under the lock
  pub replace_password : ℕ → Bytes → World → Option ResetError × World
  replace_password user hash w = if c.update_fails then (some update_failed, w) else (
    (if c.scan_fails then some revoke_failed else none),
    record w {
      hashes = λ u. if user == u then some hash else w.hashes u;
      whitelist = revoke_all c.scanned w.whitelist;
    },
  )

  pub with_hash : ℕ → Option Bytes → World → Option ResetError × World
  unfolding replace_password
  with_hash user none w = (some hash_failed, w)
  with_hash user (some hash) w =
      let replaced = replace_password user hash w in
      if c.lock_fails then (some not_locked, w) else replaced

  pub checked : ℕ → Bytes → Option ResetError → World → Option ResetError × World
  unfolding with_hash
  checked user password (some e) w = (some e, w)
  checked user password none w =
      if not (validate_password t min_length password)
      then (some bad_password, w)
      else with_hash user c.hash w

  pub for_user : Bytes → Bytes → Option ℕ → World → Option ResetError × World
  unfolding checked
  for_user code password none w = (some identifier_not_found, w)
  for_user code password (some user) w =
      let (status, r) = verify t.to_string c.verifying cfg now code w.verification in
      checked user password (ensure_verification_success status) (record w { verification = r })

  -- ResetPassword
  unfoldable pub reset_password :
      IdentifierType → Bytes → Bytes → Bytes → World → Option ResetError × World
  unfolding for_user
  reset_password kind identifier code password w =
      if not
        (validate_identifier kind (normalize_identifier t.trim_space t.to_lower kind identifier))
      then (some bad_identifier, w)
      else for_user code password c.user w
