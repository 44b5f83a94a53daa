-- ===== src/Response.antt =====
-- backend/app/autoresponse: what is done about an incident.
pub mod Actions
pub mod Address
pub mod Policy
pub mod Engine
