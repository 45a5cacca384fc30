-- ===== src/Reviewer.antt =====
-- The engineering reviewer, scripts/engineering_reviewer/reviewer.py.
pub mod Config
pub mod Envelope
pub mod Evidence
pub mod Scope
pub mod Reading
pub mod Candidate
pub mod Context
pub mod Model
pub mod Job
pub mod Run
pub mod Findings
pub mod Verdict
pub mod Git
