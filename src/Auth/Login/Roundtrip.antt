-- ===== src/Auth/Login/Roundtrip.antt =====
-- Register and then Login of internal/auth/service.go.
use zhiguang_go.Base.{
  ◌≡◌, refl, sym, ap, ◌∙◌, ◌≢◌, inl, inr, Bool, true, false, not, Option, none, some, List, [], ◌∷◌,
  ◌++◌, arith, Bool-cases, Bytes, bytes_eq, bytes_eq_refl, bytes_eq_ne,
}
use zhiguang_go.Base.{if_false, if_true}
use zhiguang_go.Auth.Identifiers.{validate_identifier, IdentifierType, phone, email, other}
use zhiguang_go.Auth.Tokens.{store_token}
use zhiguang_go.Auth.Accounts.{
  User, by_password, ClientInfo, World, AuthConfig, Calls, AuthError, Reply, signed_in, refused,
  Library, identifier_exists_in, find_user_by_identifier, find_user, has_identifier, is_some,
}
use zhiguang_go.Auth.Signing.{
  with_token, issue_tokens, logged, check_password, LoginRequest, RegisterRequest, normalized_for,
}
use zhiguang_go.Auth.Login.{user_of, check, found, login, register}
use zhiguang_go.Auth.Login.Registration
use zhiguang_go.Auth.Login.Registered.{register-Outcome}

find_user-append :
    (p : User → Bool) (us : List User) (u : User)
    → is_some (find_user p us) ≡ false
    → p u ≡ true
    → find_user p (us ++ u ∷ []) ≡ some u
unfolding find_user
find_user-append p [] u h k = rw (k) refl
find_user-append p (v ∷ us) u h k = elim (Bool-cases (p v)) [
  | inl e ↦ absurd (ground (arith, e, h))
  | inr e ↦ rw (e) (find_user-append p us u (sym (ap is_some (skip e)) ∙ h) k)
]
  where
    skip : p v ≡ false → find_user p (v ∷ us) ≡ find_user p us
    skip e = ground (arith, e)

module _ (lib : Library) (cfg : AuthConfig) (c : Calls) (client : ClientInfo) (req : LoginRequest)
    (w : World) (user : User) (id : Bytes) (i : c.issued ≡ some id)
    (s : c.store_fails ≡ false) where
  abbrev name : Bytes
  name = normalized_for lib req.kind req.identifier

  issue_smoothly :
      (issue_tokens lib cfg c user name by_password client c.issued w).0 ≡ signed_in user id
  unfolding issue_tokens with_token store_token
  issue_smoothly =
      ap (λ (o : Option Bytes). (issue_tokens lib cfg c user name by_password client o w).0) i
      ∙ ap
          (λ (b : Bool).
            (with_token lib cfg c user name by_password client id
              (store_token b c.now user.id id cfg.refresh_ttl w.whitelist) w).0)
          s

  check_smoothly :
      req.code ≡ []
      → check_password lib req.password user.password_hash ≡ none
      → (check lib cfg c client req name user w).0 ≡ signed_in user id
  unfolding check logged
  check_smoothly e p =
      ap (λ (x : Reply × World). x.0)
        (if_false _ _ (ap (λ z. not (bytes_eq z [])) e ∙ ap not (bytes_eq_refl [])))
      ∙ ap (λ o. (logged lib cfg c user name by_password client o w).0) p
      ∙ issue_smoothly

  -- A user with the right password is signed in.
  pub login_with_password :
      validate_identifier req.kind name ≡ true
      → find_user_by_identifier lib c.query_fails req.kind name w.users ≡ some user
      → req.code ≡ []
      → check_password lib req.password user.password_hash ≡ none
      → (login lib cfg c client req w).0 ≡ signed_in user id
  unfolding login found
  login_with_password v f e p =
      ap (λ (x : Reply × World). x.0) (if_false _ _ (ap not v))
      ∙ ap (λ (o : Option User). (found lib cfg c client req name o w).0) f
      ∙ check_smoothly e p

pub signed_in-injective : (u v : User) (a b : Bytes) → signed_in u a ≡ signed_in v b → u ≡ v
signed_in-injective u v a b e = ap (λ (x : Reply). elim x [ signed_in y z ↦ y | refused z ↦ u ]) e

pub not_refused : {u : User} {a : Bytes} (e : AuthError) → signed_in u a ≢ refused e
not_refused e h = absurd (cc)

module _ (lib : Library) (cfg : AuthConfig) (c : Calls) (client : ClientInfo)
    (req : RegisterRequest) (w : World) where
  -- the login with the password of a registration
  abbrev pub login_of : LoginRequest
  login_of = record {
    kind = req.kind;
    identifier = req.identifier;
    code = [];
    password = req.password;
  }

  abbrev name_of : Bytes
  name_of = normalized_for lib req.kind req.identifier

  has_own_identifier :
      (kind : IdentifierType) (s : Bytes) (hash : Option Bytes)
      → kind ≢ other
      → lib.same_text s s ≡ true
      → has_identifier lib.same_text kind s
          (record (user_of c.random kind s hash) { id = w.next_id })
        ≡ true
  unfolding has_identifier user_of
  has_own_identifier phone s hash k r = r
  has_own_identifier email s hash k r = r
  has_own_identifier other s hash k r = absurd (k refl)

  found_added :
      (fails : Bool) (hash : Option Bytes) (users : List User)
      → lib.same_text name_of name_of ≡ true
      → c.query_fails ≡ false
      → req.kind ≢ other
      → identifier_exists_in lib c.query_fails req.kind name_of w.users ≡ false
      → users ≡ w.users ++ Registration.new_user lib cfg c client req w hash ∷ []
      → fails ≡ false
      → find_user_by_identifier lib fails req.kind name_of users
        ≡ some (Registration.new_user lib cfg c client req w hash)
  unfolding find_user_by_identifier identifier_exists_in
  found_added fails hash users r q k free e f =
      let p = has_identifier lib.same_text req.kind name_of in
      if_false _ _ f
      ∙ ap (find_user p) e
      ∙ find_user-append p w.users _ (sym (if_false _ _ q) ∙ free)
          (has_own_identifier req.kind name_of hash k r)

  check_password_right :
      (o : Option Bytes) (hash : Bytes)
      → o ≡ some hash
      → req.password ≢ []
      → lib.compare_hash hash req.password ≡ true
      → check_password lib req.password o ≡ none
  unfolding check_password
  check_password_right o hash e n k =
      ap (check_password lib req.password) e
      ∙ if_false _ _ (bytes_eq_ne req.password [] n)
      ∙ if_true _ _ k

  module _ (c2 : Calls) (client2 : ClientInfo) {id2 : Bytes}
      (reflexive : (s : Bytes) → lib.same_text s s ≡ true) (q : c.query_fails ≡ false)
      (kind : req.kind ≢ other) (given : req.password ≢ []) (q2 : c2.query_fails ≡ false)
      (s2 : c2.store_fails ≡ false) (i2 : c2.issued ≡ some id2) where
    registered_login :
        (hash : Bytes) (x : Reply × World) (r : Registration.IsRegistered lib cfg c client req w x)
        → c.hash ≡ some hash
        → lib.compare_hash hash req.password ≡ true
        → (login lib cfg c2 client2 login_of x.1).0
          ≡ signed_in (Registration.new_user lib cfg c client req w r.hash) id2
    unfolding user_of
    registered_login hash x r h compares = elim r.password [
      | inl (p, none_made) ↦ absurd (given p)
      | inr (valid, made, e) ↦
          login_with_password lib cfg c2 client2 login_of x.1
            (Registration.new_user lib cfg c client req w r.hash) id2 i2 s2 r.valid
            (found_added c2.query_fails r.hash x.1.users (reflexive name_of) q kind r.free r.users
              q2)
            refl (check_password_right r.hash hash (e ∙ h) given compares)
    ]

    signed_login :
        (hash : Bytes) (user : User) (id : Bytes) (x : Reply × World)
        → c.hash ≡ some hash
        → lib.compare_hash hash req.password ≡ true
        → Registration.Outcome lib cfg c client req w x
        → x.0 ≡ signed_in user id
        → (login lib cfg c2 client2 login_of x.1).0 ≡ signed_in user id2
    signed_login hash user id x h compares (inl r) e =
        absurd (not_refused r.error (sym e ∙ r.reply))
    signed_login hash user id x h compares (inr r) e = elim r.answers [
      | inl (given_id, reply, issued_id, valid) ↦
          registered_login hash x r h compares
          ∙ ap (λ (u : User). signed_in u id2)
              (sym (signed_in-injective user _ id given_id (sym e ∙ reply)))
      | inr (error, reply, late, same) ↦ absurd (not_refused error (sym e ∙ reply))
    ]

  -- A user who has registered with a phone or an email and a password logs in with them: where the
  -- registration has signed a user in, the login signs the same user in, with the token that is issued,
  -- provided the comparison accepts the hash that was made and no call of the login fails.
  pub register_then_login :
      (c2 : Calls) (client2 : ClientInfo) (hash : Bytes) {user : User} {id id2 : Bytes}
      → ((s : Bytes) → lib.same_text s s ≡ true)
      → c.query_fails ≡ false
      → req.kind ≢ other
      → req.password ≢ []
      → c.hash ≡ some hash
      → lib.compare_hash hash req.password ≡ true
      → (register lib cfg c client req w).0 ≡ signed_in user id
      → c2.query_fails ≡ false
      → c2.store_fails ≡ false
      → c2.issued ≡ some id2
      → (login lib cfg c2 client2 login_of (register lib cfg c client req w).1).0
        ≡ signed_in user id2
  register_then_login c2 client2 hash {user} {id} reflexive q kind given h compares signed q2 s2
        i2 =
      signed_login c2 client2 reflexive q kind given q2 s2 i2 hash user id
        (register lib cfg c client req w) h compares (register-Outcome lib cfg c client req w)
        signed
