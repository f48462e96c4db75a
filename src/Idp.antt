-- ===== src/Idp.antt =====
-- The identity provider, idp-auth-server/.
pub mod State
pub mod External
pub mod Scope
pub mod Sessions
pub mod Registration
pub mod Claims
pub mod Metadata
pub mod Assertion
pub mod ClientAuth
pub mod Authorize
pub mod Token
pub mod Userinfo
pub mod Flow
pub mod Invariant
pub mod Avatars
pub mod Startup
pub mod Samples
pub mod Tests
