-- ===== src/Auth/Login/Registered.antt =====
-- Register of internal/auth/service.go: when a user is created, and what a refusal leaves.
use zhiguang_go.Base.{
  ◌+◌, ◌≡◌, refl, sym, ap, ◌∙◌, inl, inr, Bool, true, false, not, Option, none, some, [], ◌∷◌, ◌++◌,
  arith, if◌then◌else◌, Bytes, bytes_eq, bytes_eq_iff,
}
use zhiguang_go.Auth.Identifiers.{validate_identifier}
use zhiguang_go.Auth.Verification.{Status, success, not_found, too_many_attempts, mismatch, verify}
use zhiguang_go.Auth.Verification
use zhiguang_go.Auth.Tokens.{store_token, is_token_valid}
use zhiguang_go.Auth.Reset.{ensure_verification_success, validate_password}
use zhiguang_go.Auth.Accounts.{
  registering, User, by_registration, ClientInfo, World, AuthConfig, Calls, AuthError,
  bad_identifier, terms_not_accepted, identifier_exists, bad_password, hash_failed, create_failed,
  issue_failed, store_failed, Reply, refused, Library, identifier_exists_in, is_some, find_user,
  clashes, create_user,
}
use zhiguang_go.Auth.Signing.{
  scene_key, set_verification, verify_at, with_token, issue_tokens, unverified_of, RegisterRequest,
  normalized_for,
}
use zhiguang_go.Auth.Login.{user_of, created, insert, hashed, verified, register}
use zhiguang_go.Auth.Login.Outcomes.{
  stored_valid, record_login_log-users, record_login_log-whitelist,
}
use zhiguang_go.Auth.Login.Registration

module _ (lib : Library) (cfg : AuthConfig) (c : Calls) (client : ClientInfo)
    (req : RegisterRequest) (w : World) where
  abbrev name : Bytes
  name = normalized_for lib req.kind req.identifier

  abbrev new_user : Option Bytes → User
  new_user = Registration.new_user lib cfg c client req w

  abbrev IsHashed : Option Bytes → Type 0
  IsHashed = Registration.IsHashed lib cfg c client req w

  abbrev Answers : User → Reply × World → Type 0
  Answers = Registration.Answers lib cfg c client req w

  abbrev Outcome : Reply × World → Type 0
  Outcome = Registration.Outcome lib cfg c client req w

  if-Outcome :
      (b : Bool) (x y : Reply × World)
      → (b ≡ true → Outcome x)
      → (b ≡ false → Outcome y)
      → Outcome (if b then x else y)
  if-Outcome true x y h g = h refl
  if-Outcome false x y h g = g refl

  refusal :
      (e : AuthError) (v : World)
      → v.users ≡ w.users
      → v.whitelist ≡ w.whitelist
      → v.logs ≡ w.logs
      → Outcome (refused e, v)
  refusal e v h k l =
      inl (record { error = e; reply = refl; same_users = h; same_tokens = k; same_logs = l })

  issue_tokens-users :
      (user : User) (o : Option Bytes) (v : World)
      → (issue_tokens lib cfg c user name by_registration client o v).1.users ≡ v.users
  unfolding issue_tokens
  issue_tokens-users user none v = refl
  issue_tokens-users user (some id) v = stored_users c.store_fails
    where
      stored_users :
          (b : Bool)
          → (with_token lib cfg c user name by_registration client id
              (store_token b c.now user.id id cfg.refresh_ttl v.whitelist)
              v).1.users
            ≡ v.users
      stored_users true = unfold with_token store_token in refl
      stored_users false =
          unfold with_token store_token in
          record_login_log-users c.log_fails user.id name by_registration true client _

  issue_tokens-Answers :
      (user : User) (o : Option Bytes) (v : World)
      → c.issued ≡ o
      → v.whitelist ≡ w.whitelist
      → Answers user (issue_tokens lib cfg c user name by_registration client o v)
  unfolding issue_tokens
  issue_tokens-Answers user none v i h = inr (issue_failed, refl, refl, h)
  issue_tokens-Answers user (some id) v i h = stored_answers c.store_fails
    where
      stored_answers :
          (b : Bool)
          → Answers user (
              with_token lib cfg c user name by_registration client id
                (store_token b c.now user.id id cfg.refresh_ttl v.whitelist)
                v)
      stored_answers true = unfold with_token store_token in inr (store_failed, refl, refl, h)
      stored_answers false =
          unfold with_token store_token in
          inl (
            id,
            refl,
            i,
            λ later.
                ap (λ t. is_token_valid false later user.id id t)
                  (record_login_log-whitelist c.log_fails user.id name by_registration true client
                    _)
                ∙ stored_valid later user.id id v.whitelist (c.now + cfg.refresh_ttl),
          )

  module _ (agreed : req.agree_terms ≡ true) (valid : validate_identifier req.kind name ≡ true)
      (free : identifier_exists_in lib c.query_fails req.kind name w.users ≡ false)
      (accepted : (verify lib.texts.to_string c.verifying cfg.verification c.now req.code
          (w.verifications (scene_key registering name))).0
        ≡ success) where
    added-Outcome :
        (hash : Option Bytes) (v : World)
        → IsHashed hash
        → v.users ≡ w.users ++ new_user hash ∷ []
        → v.whitelist ≡ w.whitelist
        → (b : Bool)
        → Outcome (created lib cfg c client name ((if b then none else some (new_user hash)), v))
    unfolding created
    added-Outcome hash v p h k b = inr (record {
      agreed = agreed;
      valid = valid;
      free = free;
      accepted = accepted;
      hash = hash;
      password = p;
      users = added_users b;
      answers = added_answers b;
    })
      where
        added_users :
            (b : Bool)
            → (created lib cfg c client name
                ((if b then none else some (new_user hash)), v)).1.users
              ≡ w.users ++ new_user hash ∷ []
        added_users true = h
        added_users false = issue_tokens-users (new_user hash) c.issued v ∙ h

        added_answers :
            (b : Bool)
            → Answers
                (new_user hash)
                (created lib cfg c client name ((if b then none else some (new_user hash)), v))
        added_answers true = inr (create_failed, refl, refl, k)
        added_answers false = issue_tokens-Answers (new_user hash) c.issued v refl k

    insert-Outcome :
        (hash : Option Bytes) (vs : Bytes → Verification.Redis)
        → IsHashed hash
        → Outcome (insert lib cfg c client req.kind name hash (record w { verifications = vs }))
    unfolding insert create_user
    insert-Outcome hash vs p =
        created_outcome c.insert_fails (
          is_some (find_user (clashes lib.same_text (user_of c.random req.kind name hash)) w.users))
      where
        after : World
        after = record w {
          users = w.users ++ new_user hash ∷ [];
          next_id = w.next_id + 1;
          verifications = vs;
        }

        created_outcome :
            (fails b : Bool)
            → Outcome (
                created lib cfg c client name (
                  if fails
                  then (none, record w { verifications = vs })
                  else if b
                  then (none, record w { next_id = w.next_id + 1; verifications = vs })
                  else ((if c.insert_id_fails then none else some (new_user hash)), after)))
        created_outcome true b =
            unfold created in refusal create_failed (record w { verifications = vs }) refl refl refl
        created_outcome false true =
            unfold created in
            refusal create_failed (record w { next_id = w.next_id + 1; verifications = vs }) refl
              refl refl
        created_outcome false false = added-Outcome hash after p refl refl c.insert_id_fails

    verified-Outcome :
        (vs : Bytes → Verification.Redis)
        → Outcome (verified lib cfg c client req name none (record w { verifications = vs }))
    unfolding verified
    verified-Outcome vs =
        if-Outcome (bytes_eq req.password []) _ _
          (λ b. insert-Outcome none vs (inl ((bytes_eq_iff req.password []).0 b, refl)))
          (λ b.
            if-Outcome (not (validate_password lib.texts cfg.min_length req.password)) _ _
              (λ b. refusal bad_password _ refl refl refl)
              (λ b. hashed_outcome c.hash refl (ground (arith, b))))
      where
        hashed_outcome :
            (o : Option Bytes)
            → c.hash ≡ o
            → validate_password lib.texts cfg.min_length req.password ≡ true
            → Outcome (hashed lib cfg c client req.kind name o (record w { verifications = vs }))
        hashed_outcome none e p = unfold hashed in refusal hash_failed _ refl refl refl
        hashed_outcome (some hash) e p =
            unfold hashed in insert-Outcome (some hash) vs (inr (p, λ z. cc, sym e))

  -- Register either returns an error and leaves the users, the refresh tokens and the logs as they were,
  -- or the terms were accepted, the identifier was valid and free, its code was accepted and the password,
  -- if any, was valid; then exactly one user is added, with the next id, the identifier and the hash. The
  -- added user is signed in with a token that is valid for its lifetime, or, where the id could not be read
  -- or the token not be issued or stored, an error is returned and the row stays.
  pub register-Outcome :
      Registration.Outcome lib cfg c client req w (register lib cfg c client req w)
  unfolding register verify_at set_verification
  register-Outcome =
      if-Outcome (not req.agree_terms) _ _ (λ b. refusal terms_not_accepted w refl refl refl)
        (λ a.
          if-Outcome (not (validate_identifier req.kind name)) _ _
            (λ b. refusal bad_identifier w refl refl refl)
            (λ v.
              if-Outcome (identifier_exists_in lib c.query_fails req.kind name w.users) _ _
                (λ b. refusal identifier_exists w refl refl refl)
                (λ f. verified_outcome (ground (arith, a)) (ground (arith, v)) f _ refl _)))
    where
      verified_outcome :
          req.agree_terms ≡ true
          → validate_identifier req.kind name ≡ true
          → identifier_exists_in lib c.query_fails req.kind name w.users ≡ false
          → (s : Status)
          → (verify lib.texts.to_string c.verifying cfg.verification c.now req.code
              (w.verifications (scene_key registering name))).0
            ≡ s
          → (vs : Bytes → Verification.Redis)
          → Outcome (
              verified lib cfg c client req name
                (unverified_of (ensure_verification_success s))
                (record w { verifications = vs }))
      verified_outcome a v f success e vs =
          unfold ensure_verification_success in verified-Outcome a v f e vs
      verified_outcome a v f not_found e vs =
          unfold ensure_verification_success verified in refusal _ _ refl refl refl
      verified_outcome a v f too_many_attempts e vs =
          unfold ensure_verification_success verified in refusal _ _ refl refl refl
      verified_outcome a v f mismatch e vs =
          unfold ensure_verification_success verified in refusal _ _ refl refl refl
