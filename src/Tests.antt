-- ===== src/Tests.antt =====
-- Samples of the program's inputs, and the theorems at them.
mod WorkerJobs
mod ReviewJobs
mod Samples
mod Gate
mod Serving
mod Paths
mod Configs
mod Envelopes
mod Decisions
mod Processes
mod Bundles
mod Governing
mod Reviews
mod Trials
mod Sandboxes
