-- ===== src/Dnssec.antt =====
-- dnssec/: the validator. Its parts are the modules below.
pub mod Status
pub mod Records
pub mod Doe
pub mod Env
pub mod Anchors
pub mod Signatures
pub mod Authenticate
pub mod Outcome
pub mod Verify
pub mod Authenticator
