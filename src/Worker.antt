-- ===== src/Worker.antt =====
-- The engineering worker, scripts/engineering_worker/worker.py.
pub mod Job
pub mod Config
pub mod Envelope
pub mod Calls
pub mod Run
pub mod Tools
