-- ===== src/Auth.antt =====
-- navigator/auth: the session tokens of the embedded demo.
pub mod RateLimit
pub mod Tokens
pub mod Accounts
