-- ===== src/Qa.antt =====
-- The adversarial QA coordinator, scripts/engineering_qa/coordinator_core.py.
pub mod Config
pub mod Envelope
pub mod Selection
pub mod Sandbox
pub mod Bundle
pub mod Git
pub mod Candidate
pub mod Model
pub mod Trial
pub mod Job
pub mod Run
