-- ===== src/Detection.antt =====
-- backend/app/workers/detection
pub mod Confidence
pub mod Hours
pub mod Login
pub mod Intake
pub mod Web
pub mod Settings
