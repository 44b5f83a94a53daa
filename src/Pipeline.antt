-- ===== src/Pipeline.antt =====
-- backend/app/workers/dlq.py and backend/app/workers/deadman: what keeps the pipeline and the isolation
-- of servers from getting stuck.
pub mod Dlq
pub mod Deadman
