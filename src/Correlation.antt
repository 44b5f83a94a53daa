-- ===== src/Correlation.antt =====
-- backend/app/workers/correlation: from signals to incidents.
pub mod Builder
pub mod Chain
pub mod Merge
pub mod Tables
pub mod Store
pub mod Worker
