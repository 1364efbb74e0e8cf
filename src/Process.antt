-- ===== src/Process.antt =====
-- src/process.ts: observations of processes.
pub mod Exit
pub mod Arguments
pub mod Diagnostics
pub mod Lsof
pub mod LockFiles
pub mod Inspect
pub mod Family
pub mod Observation
