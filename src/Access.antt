-- ===== src/Access.antt =====
-- The authorization engines: internal/authz/authz.go and internal/iam/eval.go.
pub mod Glob
pub mod Pipeline
pub mod Crn
pub mod Examples
pub mod Grants
