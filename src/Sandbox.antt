-- ===== src/Sandbox.antt =====
-- The Bubblewrap sandbox adapter, scripts/engineering_qa/bwrap_sandbox_adapter.py.
pub mod Output
pub mod Profile
pub mod Request
pub mod Command
pub mod Adapter
