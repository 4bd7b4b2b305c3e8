-- ===== src/Auth/Login/Registration.antt =====
-- What a registration of internal/auth/service.go is, and what a refusal leaves.
use zhiguang_go.Base.{
  ℕ, ◌+◌, ◌≡◌, ◌≢◌, ◌⊎◌, Bool, true, false, Option, none, some, [], ◌∷◌, ◌++◌, ltb, Bytes,
}
use zhiguang_go.Auth.Identifiers.{validate_identifier}
use zhiguang_go.Auth.Verification.{success, verify}
use zhiguang_go.Auth.Tokens.{is_token_valid}
use zhiguang_go.Auth.Reset.{validate_password}
use zhiguang_go.Auth.Accounts.{
  registering, User, ClientInfo, World, AuthConfig, Calls, AuthError, create_failed, issue_failed,
  store_failed, Reply, signed_in, refused, Library, identifier_exists_in,
}
use zhiguang_go.Auth.Signing.{scene_key, RegisterRequest, normalized_for}
use zhiguang_go.Auth.Login.{user_of}

-- the errors that can follow the insertion of the row
abbrev pub is_late : AuthError → Bool
is_late create_failed = true
is_late issue_failed = true
is_late store_failed = true
is_late e = false

module _ (lib : Library) (cfg : AuthConfig) (c : Calls) (client : ClientInfo)
    (req : RegisterRequest) (w : World) where
  abbrev pub name : Bytes
  name = normalized_for lib req.kind req.identifier

  -- The user that is created, with a hash or none.
  abbrev pub new_user : Option Bytes → User
  new_user hash = record (user_of c.random req.kind name hash) { id = w.next_id }

  -- The reply is an error; the users, the refresh tokens and the logs are as they were.
  pub record IsRefused (x : Reply × World) : Type 0 where
    pub error : AuthError
    pub reply : x.0 ≡ refused error
    pub same_users : x.1.users ≡ w.users
    pub same_tokens : x.1.whitelist ≡ w.whitelist
    pub same_logs : x.1.logs ≡ w.logs

  -- No password and no hash, or a valid password and the hash that bcrypt gave.
  abbrev pub IsHashed : Option Bytes → Type 0
  IsHashed hash =
      ((req.password ≡ []) × (hash ≡ none))
      ⊎ ((validate_password lib.texts cfg.min_length req.password ≡ true)
          × (hash ≢ none)
          × (hash ≡ c.hash))

  -- The user is signed in with the issued token, valid for its lifetime; or an error is returned after
  -- the insertion and the tokens are as they were.
  abbrev pub Answers : User → Reply × World → Type 0
  Answers user x =
      ((id : Bytes) × (x.0 ≡ signed_in user id)
        × (c.issued ≡ some id)
        × ((later : ℕ)
            → is_token_valid false later user.id id x.1.whitelist
              ≡ ltb later (c.now + cfg.refresh_ttl)))
      ⊎ ((e : AuthError) × (x.0 ≡ refused e) × (is_late e ≡ true) × (x.1.whitelist ≡ w.whitelist))

  -- The terms were accepted, the identifier is valid and free, the code was accepted; exactly one user is
  -- added.
  pub record IsRegistered (x : Reply × World) : Type 0 where
    pub agreed : req.agree_terms ≡ true
    pub valid : validate_identifier req.kind name ≡ true
    pub free : identifier_exists_in lib c.query_fails req.kind name w.users ≡ false
    pub accepted :
        (verify lib.texts.to_string c.verifying cfg.verification c.now req.code
          (w.verifications (scene_key registering name))).0
        ≡ success
    pub hash : Option Bytes
    pub password : IsHashed hash
    pub users : x.1.users ≡ w.users ++ new_user hash ∷ []
    pub answers : Answers (new_user hash) x

  abbrev pub Outcome : Reply × World → Type 0
  Outcome x = IsRefused x ⊎ IsRegistered x
