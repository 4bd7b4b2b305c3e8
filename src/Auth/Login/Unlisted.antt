-- ===== src/Auth/Login/Unlisted.antt =====
-- Register of internal/auth/service.go with an identifier type that is neither PHONE nor EMAIL.
use zhiguang_go.Base.{
  ◌≡◌, refl, sym, ap, ◌∙◌, inl, inr, Bool, false, Option, none, List, [], ◌∷◌, ◌++◌, if◌then◌else◌,
  Bytes,
}
use zhiguang_go.Auth.Identifiers.{IdentifierType, phone, email, other}
use zhiguang_go.Auth.Accounts.{
  User, ClientInfo, World, AuthConfig, Calls, Reply, signed_in, Library, find_user_by_identifier,
  find_user, has_identifier,
}
use zhiguang_go.Auth.Signing.{RegisterRequest}
use zhiguang_go.Auth.Login.{user_of, register}
use zhiguang_go.Auth.Login.Registration
use zhiguang_go.Auth.Login.Registered.{register-Outcome}
use zhiguang_go.Auth.Login.Roundtrip.{not_refused, signed_in-injective}

find_user-same :
    (p : User → Bool) (us : List User) (u : User)
    → p u ≡ false
    → find_user p (us ++ u ∷ []) ≡ find_user p us
unfolding find_user
find_user-same p [] u h = rw (h) refl
find_user-same p (v ∷ us) u h = rw (find_user-same p us u h) refl

module _ (lib : Library) (cfg : AuthConfig) (c : Calls) (client : ClientInfo)
    (req : RegisterRequest) (w : World) where
  unlisted_user :
      (type kind : IdentifierType) (s t : Bytes) (hash : Option Bytes)
      → type ≡ other
      → has_identifier lib.same_text kind s
          (record (user_of c.random type t hash) { id = w.next_id })
        ≡ false
  unfolding has_identifier user_of
  unlisted_user type phone s t hash e = rw (e) refl
  unlisted_user type email s t hash e = rw (e) refl
  unlisted_user type other s t hash e = refl

  same_found :
      (fails : Bool) (kind : IdentifierType) (s : Bytes) (us : List User) (u : User)
      → has_identifier lib.same_text kind s u ≡ false
      → find_user_by_identifier lib fails kind s (us ++ u ∷ [])
        ≡ find_user_by_identifier lib fails kind s us
  unfolding find_user_by_identifier
  same_found fails kind s us u h =
      ap (λ (o : Option User). if fails then none else o)
        (find_user-same (has_identifier lib.same_text kind s) us u h)

  unfound :
      (user : User) (id : Bytes) (x : Reply × World)
      → Registration.Outcome lib cfg c client req w x
      → req.kind ≡ other
      → x.0 ≡ signed_in user id
      → (x.1.users ≡ w.users ++ user ∷ [])
        × ((fails : Bool) (kind : IdentifierType) (s : Bytes)
            → find_user_by_identifier lib fails kind s x.1.users
              ≡ find_user_by_identifier lib fails kind s w.users)
  unfound user id x (inl r) k e = absurd (not_refused r.error (sym e ∙ r.reply))
  unfound user id x (inr r) k e = elim r.answers [
    | inl (given_id, reply, issued_id, valid) ↦ (
      r.users
          ∙ ap (λ (u : User). w.users ++ u ∷ [])
              (sym (signed_in-injective user _ id given_id (sym e ∙ reply))),
      λ fails kind s.
          ap (find_user_by_identifier lib fails kind s) r.users
          ∙ same_found fails kind s w.users _ (unlisted_user req.kind kind s _ r.hash k),
    )
    | inr (error, reply, late, same) ↦ absurd (not_refused error (sym e ∙ reply))
  ]

  -- A registration with an identifier type that is neither of the two, where it is not refused, adds its
  -- user and signs it in, but no lookup by an identifier ever finds the user: every one answers as before.
  pub register_other_unfound :
      {user : User} {id : Bytes}
      → req.kind ≡ other
      → (register lib cfg c client req w).0 ≡ signed_in user id
      → ((register lib cfg c client req w).1.users ≡ w.users ++ user ∷ [])
        × ((fails : Bool) (kind : IdentifierType) (s : Bytes)
            → find_user_by_identifier lib fails kind s (register lib cfg c client req w).1.users
              ≡ find_user_by_identifier lib fails kind s w.users)
  register_other_unfound {user} {id} k e =
      unfound user id (register lib cfg c client req w) (register-Outcome lib cfg c client req w) k
        e
