-- ===== src/Auth/Accounts.antt =====
-- The users table of internal/auth/repository.go, the login logs and the nicknames of service.go, and what
-- Register and Login of service.go keep and meet. Redis is that of Auth.Verification for each scene and
-- identifier, and the whitelist of Auth.Tokens. TrimSpace, ToLower, the classes of characters, the
-- collation of the table, bcrypt's comparison and the reply conversion of the Redis client are
-- parameters; failures, the hash, the id of the issued token and the random bytes are inputs. The other
-- columns of a user are not modelled.
use zhiguang_go.Base.{
  ℕ, zero, suc, ◌+◌, Bool, true, false, ◌||◌, Option, none, some, List, [], ◌∷◌, ◌++◌,
  if◌then◌else◌, get_elem?, Bytes, codes,
}
use zhiguang_go.Auth.Identifiers.{IdentifierType, phone, email, other}
use zhiguang_go.Auth.Verification.{SendError, VerifyFaults, VerificationConfig}
use zhiguang_go.Auth.Verification
use zhiguang_go.Auth.Tokens.{Whitelist}
use zhiguang_go.Auth.Reset.{Texts, ResetError}

-- VerificationScene, a text: one of the three that are named, or any other
pub data Scene : Type 0 where
  registering logging_in resetting : Scene
  unlisted : Bytes → Scene

abbrev pub scene_text : Scene → Bytes
scene_text registering = codes "REGISTER"
scene_text logging_in = codes "LOGIN"
scene_text resetting = codes "RESET_PASSWORD"
scene_text (unlisted s) = s

pub record User : Type 0 where
  pub id : ℕ
  pub phone_of : Option Bytes
  pub email_of : Option Bytes
  pub password_hash : Option Bytes
  pub nickname : Bytes

pub data Channel : Type 0 where
  by_password by_code by_registration : Channel

pub record ClientInfo : Type 0 where
  pub ip : Bytes
  pub user_agent : Bytes

pub record LoginLog : Type 0 where
  pub user_id : Option ℕ
  pub identifier : Bytes
  pub channel : Channel
  pub ip : Option Bytes
  pub user_agent : Option Bytes
  pub is_success : Bool

-- The users with the next id, the codes of each scene and identifier, the whitelist, and the login logs,
-- newest first.
pub record World : Type 0 where
  pub users : List User
  pub next_id : ℕ
  pub verifications : Bytes → Verification.Redis
  pub whitelist : Whitelist
  pub logs : List LoginLog

pub record AuthConfig : Type 0 where
  pub verification : VerificationConfig
  pub min_length : ℕ
  pub refresh_ttl : ℕ

-- What the calls meet.
pub record Calls : Type 0 where
  pub now : ℕ
  pub query_fails : Bool
  pub verifying : VerifyFaults
  pub hash : Option Bytes
  pub insert_fails : Bool
  pub insert_id_fails : Bool
  pub issued : Option Bytes
  pub store_fails : Bool
  pub log_fails : Bool
  pub random : ℕ → Option ℕ

pub data AuthError : Type 0 where
  bad_identifier terms_not_accepted identifier_exists identifier_not_found : AuthError
  send_failed : SendError → AuthError
  unverified : ResetError → AuthError
  bad_password hash_failed create_failed issue_failed store_failed invalid_credentials : AuthError

-- The user with the id of the new refresh token, or an error.
pub data Reply : Type 0 where
  signed_in : User → Bytes → Reply
  refused : AuthError → Reply

-- TrimSpace, ToLower and the classes of characters with the reply conversion, the collation of the users
-- table, and bcrypt's comparison of a hash with a password.
pub record Library : Type 0 where
  pub texts : Texts
  pub same_text : Bytes → Bytes → Bool
  pub compare_hash : Bytes → Bytes → Bool

abbrev pub is_text : (Bytes → Bytes → Bool) → Bytes → Option Bytes → Bool
is_text same s none = false
is_text same s (some t) = same t s

-- the WHERE of the two queries
unfoldable pub has_identifier : (Bytes → Bytes → Bool) → IdentifierType → Bytes → User → Bool
has_identifier same phone s u = is_text same s u.phone_of
has_identifier same email s u = is_text same s u.email_of
has_identifier same other s u = false

unfoldable pub find_user : (User → Bool) → List User → Option User
find_user p [] = none
find_user p (u ∷ us) = let rest = find_user p us in if p u then some u else rest

abbrev pub is_some : {A : Type 0} → Option A → Bool
is_some none = false
is_some (some a) = true

-- FindUserByIdentifier
unfoldable pub find_user_by_identifier :
    Library → Bool → IdentifierType → Bytes → List User → Option User
unfolding find_user has_identifier
find_user_by_identifier lib fails kind s users =
    if fails then none else find_user (has_identifier lib.same_text kind s) users

-- IdentifierExists
unfoldable pub identifier_exists_in : Library → Bool → IdentifierType → Bytes → List User → Bool
unfolding find_user has_identifier
identifier_exists_in lib fails kind s users =
    if fails then false else is_some (find_user (has_identifier lib.same_text kind s) users)

abbrev pub shares : (Bytes → Bytes → Bool) → Option Bytes → Option Bytes → Bool
shares same none t = false
shares same (some s) t = is_text same s t

-- the unique keys of the phone and of the email
unfoldable pub clashes : (Bytes → Bytes → Bool) → User → User → Bool
clashes same u v = shares same u.phone_of v.phone_of || shares same u.email_of v.email_of

-- CreateUser: the id is the next one, and a phone or an email that another user has is refused, which uses up the
-- id all the same; where
-- the id cannot be read after the insertion, an error is returned for a row that is there
unfoldable pub create_user : Library → Bool → Bool → User → World → Option User × World
unfolding find_user clashes
create_user lib fails id_fails user w =
    if fails
    then (none, w)
    else if is_some (find_user (clashes lib.same_text user) w.users)
    then (none, record w { next_id = w.next_id + 1 })
    else let created : User = record user { id = w.next_id } in
      (
        (if id_fails then none else some created),
        record w { users = w.users ++ created ∷ []; next_id = w.next_id + 1 },
      )

abbrev pub non_empty : Bytes → Option Bytes
non_empty [] = none
non_empty (c ∷ s) = some (c ∷ s)

abbrev pub non_zero : ℕ → Option ℕ
non_zero zero = none
non_zero (suc n) = some (suc n)

-- recordLoginLog
unfoldable pub record_login_log : Bool → ℕ → Bytes → Channel → Bool → ClientInfo → World → World
record_login_log fails user_id identifier channel is_success client w =
    let log : LoginLog = record {
      user_id = non_zero user_id;
      identifier = identifier;
      channel = channel;
      ip = non_empty client.ip;
      user_agent = non_empty client.user_agent;
      is_success = is_success;
    } in
    if fails then w else record w { logs = log ∷ w.logs }

charset : Bytes
charset = codes "abcdefghijklmnopqrstuvwxyz0123456789"

-- the character of a random number below 36; a failing read gives the first one
charset_at : Option ℕ → ℕ
unfolding charset
charset_at none = b'a'
charset_at (some n) = elim (get_elem? charset n) [ none ↦ b'a' | some c ↦ c ]

suffix_of : ℕ → (ℕ → Option ℕ) → Bytes
unfolding charset_at
suffix_of zero random = []
suffix_of (suc n) random = charset_at (random 0) ∷ suffix_of n (λ i. random (suc i))

-- the UTF-8 bytes of 知光用户
nickname_prefix : Bytes
nickname_prefix = 231 ∷ 159 ∷ 165 ∷ 229 ∷ 133 ∷ 137 ∷ 231 ∷ 148 ∷ 168 ∷ 230 ∷ 136 ∷ 183 ∷ []

-- generateNickname
unfoldable pub generate_nickname : (ℕ → Option ℕ) → Bytes
unfolding suffix_of nickname_prefix
generate_nickname random = nickname_prefix ++ suffix_of 8 random
