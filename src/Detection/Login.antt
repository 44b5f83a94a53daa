-- ===== src/Detection/Login.antt =====
-- backend/app/workers/detection/rules.py: the rules on logins, AUTH-001 to AUTH-007.
pub mod Keys
pub mod Signals
pub mod Known
pub mod Rules
pub mod Evaluate
pub mod Counts
pub mod Escalation
pub mod Marker
pub mod Shadow
pub mod Memory
pub mod Apart
pub mod Sequel
