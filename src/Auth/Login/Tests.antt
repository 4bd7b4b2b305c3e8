-- ===== src/Auth/Login/Tests.antt =====
-- Registration and login of one user with a phone and a password, with a client that gives numbers as
-- strings and with one that does not.
use zhiguang_go.Base.{
  ◌≡◌, refl, ◌≢◌, Bool, true, false, ◌&&◌, ◌||◌, none, some, [], ◌∷◌, ◌++◌, leb, Bytes, codes,
  bytes_eq, bytes_eq_refl,
}
use zhiguang_go.Auth.Identifiers.{
  IdentifierType, phone, other, validate_identifier, normalize_identifier,
}
use zhiguang_go.Auth.Tokens.{store_token}
use zhiguang_go.Auth.Verification.{integer, bulk, verify}
use zhiguang_go.Auth.Reset.{Texts, validate_password, ensure_verification_success}
use zhiguang_go.Auth.Accounts.{
  User, ClientInfo, World, AuthConfig, Calls, signed_in, Library, find_user_by_identifier,
}
use zhiguang_go.Auth.Signing.{LoginRequest, RegisterRequest}
use zhiguang_go.Auth.Login.{login, register, user_of}
use zhiguang_go.Auth.Login.Outcomes
use zhiguang_go.Auth.Login.Outcomes.{login-Outcome}
use zhiguang_go.Auth.Login.Registration
use zhiguang_go.Auth.Login.Registered.{register-Outcome}
use zhiguang_go.Auth.Login.Logs.{verdict, logs_for, login-logs}
use zhiguang_go.Auth.Login.Roundtrip.{login_of, register_then_login}
use zhiguang_go.Auth.Login.Codes.{codes-IsRefused}
use zhiguang_go.Auth.Login.Unlisted.{register_other_unfound}

abbrev texts : Texts
texts = record {
  is_letter = λ c. (leb 65 c && leb c 90) || (leb 97 c && leb c 122);
  is_digit = λ c. leb 48 c && leb c 57;
  runes = λ s. s;
  trim_space = λ s. s;
  to_lower = λ s. s;
  to_string = λ v. elim v [ integer n ↦ some (codes "1") | bulk s ↦ some s ];
}

-- the hash of a password is the password
abbrev lib : Library
lib = record { texts = texts; same_text = bytes_eq; compare_hash = bytes_eq }

-- a client that refuses numbers
abbrev strict : Library
strict = record lib {
  texts = record texts { to_string = λ v. elim v [ integer n ↦ none | bulk s ↦ some s ] };
}

abbrev cfg : AuthConfig
cfg = record {
  verification = record {
    code_length = 6;
    ttl_ms = 300_000;
    max_attempts = 5;
    send_interval_ms = 60_000;
    daily_limit = 10;
  };
  min_length = 8;
  refresh_ttl = 600_000;
}

abbrev calls : Calls
calls = record {
  now = 1000;
  query_fails = false;
  verifying = record { lock = false; script = false; del = false };
  hash = some (codes "passw0rd");
  insert_fails = false;
  insert_id_fails = false;
  issued = some (codes "token");
  store_fails = false;
  log_fails = false;
  random = λ n. some n;
}

-- The code "123456" waits for every scene and identifier.
abbrev world : World
world = record {
  users = [];
  next_id = 1;
  verifications = λ key. record {
    code = some (codes "123456", 300_000);
    interval = none;
    daily = λ d. none;
    attempts = none;
  };
  whitelist = λ key. none;
  logs = [];
}

abbrev client : ClientInfo
client = record { ip = codes "10.0.0.1"; user_agent = [] }

abbrev registration : IdentifierType → RegisterRequest
registration type = record {
  kind = type;
  identifier = codes "13800000000";
  code = codes "123456";
  password = codes "passw0rd";
  agree_terms = true;
}

abbrev with_code : LoginRequest
with_code = record {
  kind = phone;
  identifier = codes "13800000000";
  code = codes "123456";
  password = [];
}

-- the user that is created, with its id
abbrev created_user : IdentifierType → User
created_user type =
    record (user_of calls.random type (codes "13800000000") (some (codes "passw0rd"))) { id = 1 }

registered_phone :
    (register lib cfg calls client (registration phone) world).0
    ≡ signed_in (created_user phone) (codes "token")
unfolding register validate_identifier normalize_identifier ensure_verification_success verify
    bytes_eq validate_password store_token
registered_phone = refl

registered_other :
    (register lib cfg calls client (registration other) world).0
    ≡ signed_in (created_user other) (codes "token")
unfolding register validate_identifier normalize_identifier ensure_verification_success verify
    bytes_eq validate_password store_token
registered_other = refl

abbrev peopled : World
peopled = record world { users = created_user phone ∷ []; next_id = 2 }

login-Outcome_example :
    Outcomes.Outcome lib cfg calls client with_code peopled
      (login lib cfg calls client with_code peopled)
login-Outcome_example = login-Outcome lib cfg calls client with_code peopled

register-Outcome_example :
    Registration.Outcome lib cfg calls client
      (registration phone)
      world
      (register lib cfg calls client (registration phone) world)
register-Outcome_example = register-Outcome lib cfg calls client (registration phone) world

login-logs_example :
    (login lib cfg calls client with_code peopled).1.logs
    ≡ logs_for lib cfg calls client with_code peopled
        (find_user_by_identifier lib false phone (codes "13800000000") (created_user phone ∷ []))
        (verdict (login lib cfg calls client with_code peopled).0)
      ++ []
unfolding normalize_identifier
login-logs_example = login-logs lib cfg calls client with_code peopled

phone_is_not_other : phone ≢ other
phone_is_not_other e = cc

register_then_login_example :
    (login lib cfg calls client
      (login_of lib cfg calls client (registration phone) world)
      (register lib cfg calls client (registration phone) world).1).0
    ≡ signed_in (created_user phone) (codes "token")
register_then_login_example =
    register_then_login lib cfg calls client (registration phone) world calls client
      (codes "passw0rd") bytes_eq_refl refl phone_is_not_other (λ e. cc) refl
      (bytes_eq_refl (codes "passw0rd")) registered_phone refl refl refl

codes-IsRefused_example :
    ((req : RegisterRequest)
      → Registration.IsRefused strict cfg calls client req world
          (register strict cfg calls client req world))
    × ((req : LoginRequest)
        → req.code ≢ []
        → Outcomes.IsRefused strict cfg calls client req world
            (login strict cfg calls client req world))
codes-IsRefused_example = codes-IsRefused strict cfg calls client world (λ n. refl)

register_other_unfound_example :
    ((register lib cfg calls client (registration other) world).1.users
      ≡ [] ++ created_user other ∷ [])
    × ((fails : Bool) (kind : IdentifierType) (s : Bytes)
        → find_user_by_identifier lib fails kind s
            (register lib cfg calls client (registration other) world).1.users
          ≡ find_user_by_identifier lib fails kind s [])
register_other_unfound_example =
    register_other_unfound lib cfg calls client (registration other) world refl registered_other
