-- ===== src/Auth.antt =====
-- The verification codes and the refresh tokens of internal/auth.
pub mod Identifiers
pub mod Tokens
pub mod Reset
pub mod Accounts
pub mod Signing
pub mod Login
pub mod Verification
pub mod Tests
