-- ===== src/Auth/Login/Codes.antt =====
-- Register and Login of internal/auth/service.go where the Redis client gives no number as a string.
use zhiguang_go.Base.{◌≡◌, ◌≢◌, inl, inr, none, []}
use zhiguang_go.Base.Int.{ℤ}
use zhiguang_go.Auth.Verification.{integer}
use zhiguang_go.Auth.Verification.Attempts.{verify_numbers_refused}
use zhiguang_go.Auth.Accounts.{ClientInfo, World, AuthConfig, Calls, Reply, Library}
use zhiguang_go.Auth.Signing.{LoginRequest, RegisterRequest}
use zhiguang_go.Auth.Login.{login, register}
use zhiguang_go.Auth.Login.Outcomes
use zhiguang_go.Auth.Login.Outcomes.{login-Outcome}
use zhiguang_go.Auth.Login.Registration
use zhiguang_go.Auth.Login.Registered.{register-Outcome}

module _ (lib : Library) (cfg : AuthConfig) (c : Calls) (client : ClientInfo) (w : World)
    (refuses : (n : ℤ) → lib.texts.to_string (integer n) ≡ none) where
  not_registered :
      (req : RegisterRequest) (x : Reply × World)
      → Registration.Outcome lib cfg c client req w x
      → Registration.IsRefused lib cfg c client req w x
  not_registered req x (inl r) = r
  not_registered req x (inr r) = absurd (
      verify_numbers_refused lib.texts.to_string refuses c.verifying cfg.verification c.now req.code
        _ r.accepted)

  not_signed_in :
      (req : LoginRequest) (x : Reply × World)
      → req.code ≢ []
      → Outcomes.Outcome lib cfg c client req w x
      → Outcomes.IsRefused lib cfg c client req w x
  not_signed_in req x given (inl r) = r
  not_signed_in req x given (inr r) = elim r.proven [
    | inl (code, accepted) ↦ absurd (
        verify_numbers_refused lib.texts.to_string refuses c.verifying cfg.verification c.now
          req.code _ accepted)
    | inr (absent, password, hash, kept, compared) ↦ absurd (given absent)
  ]

  -- Where the client refuses to give a number of a reply as a string, every registration returns an error
  -- and adds no user, and every login with a code returns an error and gives no token, whatever the codes
  -- are that Redis holds.
  pub codes-IsRefused :
      ((req : RegisterRequest)
        → Registration.IsRefused lib cfg c client req w (register lib cfg c client req w))
      × ((req : LoginRequest)
          → req.code ≢ []
          → Outcomes.IsRefused lib cfg c client req w (login lib cfg c client req w))
  codes-IsRefused = (
    λ req. not_registered req _ (register-Outcome lib cfg c client req w),
    λ req given. not_signed_in req _ given (login-Outcome lib cfg c client req w),
  )
