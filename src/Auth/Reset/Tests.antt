-- ===== src/Auth/Reset/Tests.antt =====
-- ResetPassword for a user with a code and two refresh tokens, one of which is not deleted.
use zhiguang_go.Base.{true, false, ◌&&◌, ◌||◌, none, some, [], ◌∷◌, leb, codes}
use zhiguang_go.Auth.Identifiers.{phone}
use zhiguang_go.Auth.Verification.{integer, bulk, VerificationConfig}
use zhiguang_go.Auth.Tokens.{token_key}
use zhiguang_go.Auth.Reset.{World, Calls, Texts, reset_password}
use zhiguang_go.Auth.Reset.Effects.{Outcome, reset_password-Outcome}

abbrev ascii : Texts
ascii = record {
  is_letter = λ c. (leb 65 c && leb c 90) || (leb 97 c && leb c 122);
  is_digit = λ c. leb 48 c && leb c 57;
  runes = λ s. s;
  trim_space = λ s. s;
  to_lower = λ s. s;
  to_string = λ v. elim v [ integer n ↦ some (codes "1") | bulk s ↦ some s ];
}

abbrev cfg : VerificationConfig
cfg = record {
  code_length = 6;
  ttl_ms = 300000;
  max_attempts = 5;
  send_interval_ms = 60000;
  daily_limit = 10;
}

abbrev world : World
world = record {
  verification = record {
    code = some (codes "123456", 300000);
    interval = none;
    daily = λ d. none;
    attempts = none;
  };
  hashes = λ u. some (codes "old");
  whitelist = λ k. some 900000;
}

abbrev calls : Calls
calls = record {
  user = some 7;
  verifying = record { lock = false; script = false; del = false };
  hash = some (codes "new");
  lock_fails = false;
  update_fails = false;
  scanned = (token_key 7 (codes "a"), false) ∷ (token_key 7 (codes "b"), true) ∷ [];
  scan_fails = false;
}

reset_password-Outcome_example :
    Outcome ascii cfg 8 1000 calls (codes "123456") (codes "passw0rd") world (
      reset_password ascii cfg 8 1000 calls phone
        (codes "13800000000")
        (codes "123456")
        (codes "passw0rd")
        world)
reset_password-Outcome_example =
    reset_password-Outcome ascii cfg 8 1000 calls (codes "123456") (codes "passw0rd") world phone
      (codes "13800000000")
