-- ===== src/Gateway.antt =====
-- What a request meets before its endpoint: backend/app/middleware/ and the checks of backend/app/iam/
-- on tenants.
pub mod RateLimit
