-- ===== src/Tests.antt =====
-- Runs of the models at concrete inputs, and the theorems at inputs that meet their hypotheses.
mod Chain
mod Scoring
mod Response
mod Iam
mod Incidents
mod Pipeline
mod Agent
mod Gateway
mod Host
mod Login
mod Intake
mod Settings
mod Tailer
