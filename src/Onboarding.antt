-- ===== src/Onboarding.antt =====
-- internal/onboarding: bootstrap tokens, node registration, certificate renewal and revocation.
pub mod Errors
pub mod Tokens
pub mod Bootstrap
pub mod Counts
pub mod Nodes
pub mod Identities
