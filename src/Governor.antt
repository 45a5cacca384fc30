-- ===== src/Governor.antt =====
-- scripts/governor/governor.py: the doubles that it compares, the snapshot of the host, the slots of
-- heavy jobs and the command line.
pub mod Numbers
pub mod Snapshot
pub mod Slots
pub mod Command
