-- ===== src/Auth/Reset/Effects.antt =====
-- ResetPassword of internal/auth/service.go: what it changes, and when it changes nothing.
use zhiguang_go.Base.{
  ℕ, ◌≡◌, refl, sym, ap, ◌∙◌, ◌≢◌, ◌⊎◌, inl, inr, Bool, true, false, not, ◌&&◌, ◌||◌, Option, none,
  some, List, [], ◌∷◌, arith, ◌==◌, if◌then◌else◌, Bool-cases, Bytes, bytes_eq, update, update_lem,
}
use zhiguang_go.Auth.Verification.{
  Status, success, not_found, too_many_attempts, mismatch, VerificationConfig, verify,
}
use zhiguang_go.Auth.Identifiers.{IdentifierType, validate_identifier, normalize_identifier}
use zhiguang_go.Auth.Tokens.{Whitelist, revoke_all, is_live, is_token_valid, token_key}
use zhiguang_go.Auth.Reset.{
  ResetError, ensure_verification_success, World, Calls, Texts, validate_password, replace_password,
  with_hash, checked, for_user, reset_password, identifier_not_found, bad_identifier, bad_password,
  hash_failed, not_locked, update_failed, revoke_failed,
}

-- Whether the scan returned the key and its deletion succeeded.
unfoldable pub is_deleted : Bytes → List (Bytes × Bool) → Bool
is_deleted key [] = false
is_deleted key ((k, fails) ∷ keys) = (not fails && bytes_eq k key) || is_deleted key keys

revoke_all-keeps :
    (key : Bytes) (keys : List (Bytes × Bool)) (w : Whitelist)
    → w key ≡ none
    → revoke_all keys w key ≡ none
unfolding revoke_all
revoke_all-keeps key [] w h = h
revoke_all-keeps key ((k, true) ∷ keys) w h = revoke_all-keeps key keys w h
revoke_all-keeps key ((k, false) ∷ keys) w h =
    revoke_all-keeps key keys (update w k none) (gone (bytes_eq k key) refl)
  where
    gone : (b : Bool) → bytes_eq k key ≡ b → update w k none key ≡ none
    gone true e = update_lem w k key none ∙ rw (e) refl
    gone false e = update_lem w k key none ∙ rw (e) h

revoke_all-deletes :
    (key : Bytes) (keys : List (Bytes × Bool)) (w : Whitelist)
    → is_deleted key keys ≡ true
    → revoke_all keys w key ≡ none
unfolding revoke_all is_deleted
revoke_all-deletes key [] w h = absurd (cc)
revoke_all-deletes key ((k, true) ∷ keys) w h = revoke_all-deletes key keys w h
revoke_all-deletes key ((k, false) ∷ keys) w h = elim (Bool-cases (bytes_eq k key)) [
  | inl e ↦ revoke_all-keeps key keys (update w k none) (update_lem w k key none ∙ rw (e) refl)
  | inr e ↦
      revoke_all-deletes key keys (update w k none) (sym (ap (λ b. b || is_deleted key keys) e) ∙ h)
]

module _ (t : Texts) (cfg : VerificationConfig) (min_length now : ℕ) (c : Calls)
    (code password : Bytes) (w : World) where
  -- The hashes and the tokens are as they were, and an error is returned.
  pub record IsRefused (x : Option ResetError × World) : Type 0 where
    pub an_error : x.0 ≢ none
    pub same_hashes : x.1.hashes ≡ w.hashes
    pub same_tokens : x.1.whitelist ≡ w.whitelist

  -- The code was accepted for a user that was found, the new password is a valid one, and its hash is
  -- stored; no token whose key was deleted is valid, and no error is returned but that of the scan.
  pub record IsReset (x : Option ResetError × World) : Type 0 where
    pub user : ℕ
    pub found : c.user ≡ some user
    pub accepted : (verify t.to_string c.verifying cfg now code w.verification).0 ≡ success
    pub is_valid : validate_password t min_length password ≡ true
    pub replaced : x.1.hashes user ≡ c.hash
    pub revoked :
        (later : ℕ) (id : Bytes)
        → is_deleted (token_key user id) c.scanned ≡ true
        → is_token_valid false later user id x.1.whitelist ≡ false
    pub reply : x.0 ≡ (if c.scan_fails then some revoke_failed else none)

  abbrev pub Outcome : Option ResetError × World → Type 0
  Outcome x = IsRefused x ⊎ IsReset x

  if-Outcome :
      (b : Bool) (x y : Option ResetError × World)
      → (b ≡ true → Outcome x)
      → (b ≡ false → Outcome y)
      → Outcome (if b then x else y)
  if-Outcome true x y h g = h refl
  if-Outcome false x y h g = g refl

  refusal :
      (e : ResetError) (v : World)
      → v.hashes ≡ w.hashes
      → v.whitelist ≡ w.whitelist
      → Outcome (some e, v)
  refusal e v h k = inl (record { an_error = λ z. cc; same_hashes = h; same_tokens = k })

  not_valid :
      (later user : ℕ) (id : Bytes) (v : Whitelist)
      → v (token_key user id) ≡ none
      → is_token_valid false later user id v ≡ false
  unfolding is_token_valid
  not_valid later user id v h = ap (is_live later) h

  replace_password-Outcome :
      (user : ℕ) (hash : Bytes) (v : World)
      → c.user ≡ some user
      → c.hash ≡ some hash
      → (verify t.to_string c.verifying cfg now code w.verification).0 ≡ success
      → validate_password t min_length password ≡ true
      → v.hashes ≡ w.hashes
      → v.whitelist ≡ w.whitelist
      → Outcome (replace_password t cfg min_length now c user hash v)
  unfolding replace_password
  replace_password-Outcome user hash v f g a p h k =
      if-Outcome c.update_fails _ _ (λ b. refusal update_failed v h k)
        (λ b. inr (record {
          user = user;
          found = f;
          accepted = a;
          is_valid = p;
          replaced = own user hash v ∙ sym g;
          revoked = λ later id d.
              not_valid later user id (revoke_all c.scanned v.whitelist)
                (revoke_all-deletes (token_key user id) c.scanned v.whitelist d);
          reply = refl;
        }))
    where
      own : (u : ℕ) (x : Bytes) (y : World) → (if u == u then some x else y.hashes u) ≡ some x
      own u x y = ground arith

  with_hash-Outcome :
      (user : ℕ) (o : Option Bytes) (v : World)
      → c.user ≡ some user
      → c.hash ≡ o
      → (verify t.to_string c.verifying cfg now code w.verification).0 ≡ success
      → validate_password t min_length password ≡ true
      → v.hashes ≡ w.hashes
      → v.whitelist ≡ w.whitelist
      → Outcome (with_hash t cfg min_length now c user o v)
  unfolding with_hash
  with_hash-Outcome user none v f g a p h k = refusal hash_failed v h k
  with_hash-Outcome user (some hash) v f g a p h k =
      if-Outcome c.lock_fails _ _ (λ b. refusal not_locked v h k)
        (λ b. replace_password-Outcome user hash v f g a p h k)

  checked-Outcome :
      (user : ℕ) (s : Status) (v : World)
      → c.user ≡ some user
      → (verify t.to_string c.verifying cfg now code w.verification).0 ≡ s
      → v.hashes ≡ w.hashes
      → v.whitelist ≡ w.whitelist
      → Outcome (checked t cfg min_length now c user password (ensure_verification_success s) v)
  unfolding checked ensure_verification_success
  checked-Outcome user success v f a h k =
      elim (Bool-cases (validate_password t min_length password)) [
        | inl p ↦
            if-Outcome (not (validate_password t min_length password)) _ _
              (λ b. refusal bad_password v h k)
              (λ b. with_hash-Outcome user c.hash v f refl a p h k)
        | inr p ↦ rw (p) (refusal bad_password v h k)
      ]
  checked-Outcome user not_found v f a h k = refusal _ v h k
  checked-Outcome user too_many_attempts v f a h k = refusal _ v h k
  checked-Outcome user mismatch v f a h k = refusal _ v h k

  for_user-Outcome :
      (o : Option ℕ) → c.user ≡ o → Outcome (for_user t cfg min_length now c code password o w)
  unfolding for_user
  for_user-Outcome none e = refusal identifier_not_found w refl refl
  for_user-Outcome (some user) e =
      checked-Outcome user (verify t.to_string c.verifying cfg now code w.verification).0
        (record w { verification = (verify t.to_string c.verifying cfg now code w.verification).1 })
        e refl refl refl

  -- ResetPassword either returns an error and changes neither a hash nor a token, or the code was
  -- accepted for the user that was found, the new password meets the rules and its hash is stored; then
  -- no refresh token whose key was deleted is valid at any time, and the reply is an error only if the
  -- scan of the keys failed. Where a deletion fails, the reply is the same.
  pub reset_password-Outcome :
      (kind : IdentifierType) (identifier : Bytes)
      → Outcome (reset_password t cfg min_length now c kind identifier code password w)
  unfolding reset_password
  reset_password-Outcome kind identifier =
      let valid =
        validate_identifier kind (normalize_identifier t.trim_space t.to_lower kind identifier) in
      elim (Bool-cases valid) [
        | inl b ↦ rw (b) (for_user-Outcome c.user refl)
        | inr b ↦ rw (b) (refusal bad_identifier w refl refl)
      ]
