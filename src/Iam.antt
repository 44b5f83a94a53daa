-- ===== src/Iam.antt =====
-- backend/app/iam: who may do what.
pub mod Roles
pub mod Tokens
