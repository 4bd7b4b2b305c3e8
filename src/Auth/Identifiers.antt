-- ===== src/Auth/Identifiers.antt =====
-- normalizeIdentifier and validateIdentifier of internal/auth/service.go, with the two patterns
-- ^1[3-9]\d{9}$ and ^[a-zA-Z0-9._%+\-]+@[a-zA-Z0-9.\-]+\.[a-zA-Z]{2,}$ as tests. TrimSpace and ToLower
-- are parameters of their users.
use zhiguang_go.Base.{
  ℕ, ◌≡◌, refl, Bool, true, false, ◌&&◌, ◌||◌, Option, none, some, [], ◌∷◌, ltb, leb, ◌==◌, length,
  Bytes, codes, cut,
}

pub data IdentifierType : Type 0 where
  phone email other : IdentifierType

abbrev between : ℕ → ℕ → ℕ → Bool
between low high c = leb low c && leb c high

abbrev pub is_digit : ℕ → Bool
is_digit c = between 48 57 c

abbrev pub is_letter : ℕ → Bool
is_letter c = between 65 90 c || between 97 122 c

pub all_of : (ℕ → Bool) → Bytes → Bool
all_of p [] = true
all_of p (c ∷ cs) = p c && all_of p cs

-- phoneRegex
unfoldable pub is_phone : Bytes → Bool
unfolding all_of
is_phone (one ∷ second ∷ rest) =
    one == 49 && (between 51 57 second && (length rest == 9 && all_of is_digit rest))
is_phone s = false

-- the characters before the @
abbrev is_local : ℕ → Bool
is_local c =
    (is_letter c || is_digit c) || (c == 46 || (c == 95 || (c == 37 || (c == 43 || c == 45))))

-- the characters after it
abbrev is_domain : ℕ → Bool
is_domain c = (is_letter c || is_digit c) || (c == 46 || c == 45)

-- a full stop, and at least two letters after it up to the end
is_suffixed : Bytes → Bool
unfolding all_of
is_suffixed [] = false
is_suffixed (c ∷ cs) = (c == 46 && (leb 2 (length cs) && all_of is_letter cs)) || is_suffixed cs

has_top_level : Bytes → Bool
unfolding is_suffixed
has_top_level [] = false
has_top_level (first ∷ rest) = is_suffixed rest

is_host : Bytes → Bool
unfolding all_of has_top_level
is_host s = all_of is_domain s && has_top_level s

parts_match : Option (Bytes × Bytes) → Bool
unfolding all_of is_host
parts_match none = false
parts_match (some (name, host)) = ltb 0 (length name) && (all_of is_local name && is_host host)

-- emailRegex
unfoldable pub is_email : Bytes → Bool
unfolding parts_match cut
is_email s = parts_match (cut 64 s)

-- validateIdentifier
unfoldable pub validate_identifier : IdentifierType → Bytes → Bool
unfolding is_phone is_email
validate_identifier phone s = is_phone s
validate_identifier email s = is_email s
validate_identifier other s = true

-- normalizeIdentifier
unfoldable pub normalize_identifier :
    (Bytes → Bytes) → (Bytes → Bytes) → IdentifierType → Bytes → Bytes
normalize_identifier trim_space to_lower phone s = trim_space s
normalize_identifier trim_space to_lower email s = to_lower (trim_space s)
normalize_identifier trim_space to_lower other s = trim_space s

phone_test : is_phone (codes "13800000000") ≡ true
unfolding is_phone
phone_test = refl

email_test : is_email (codes "a.b@mail.example.com") ≡ true
unfolding is_email
email_test = refl

email_short_test : is_email (codes "a@example.c") ≡ false
unfolding is_email
email_short_test = refl

email_two_test : is_email (codes "a@b@example.com") ≡ false
unfolding is_email
email_two_test = refl
