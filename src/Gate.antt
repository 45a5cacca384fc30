-- ===== src/Gate.antt =====
-- The action gate: scripts/action_gate/action_gate.py, server.py and client.py.
pub mod Sufficient
pub mod Policy
pub mod Request
pub mod Decision
pub mod Decide
pub mod Server
pub mod Loop
pub mod Client
pub mod Safety
pub mod Guarantees
pub mod Transport
pub mod Audit
