-- ===== src/Token.antt =====
-- internal/token: the JWT tokens of a user. The service is in the modules below by what it does:
-- creating a token, validating one, and refreshing or revoking one.
pub mod Create
pub mod Validate
pub mod Refresh
pub mod Revocation
pub mod RoundTrip
pub mod Refreshing
