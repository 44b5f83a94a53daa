-- ===== src/Agent.antt =====
-- agent/infrared_agent: the agent on a server.
pub mod Ntp
pub mod JitSsh
pub mod Commander
pub mod Watchdog
pub mod Tailer
